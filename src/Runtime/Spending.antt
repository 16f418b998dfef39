-- ===== src/Runtime/Spending.antt =====
-- A render token is spent once: what a call that spends one has found, and what it leaves.
use customs_buyer_intelligen.Prelude.{
  String, true, false, List, Option, none, some, is_in, is_empty, ◌≡◌, refl, subst, ap, ◌∙◌, arith,
  inl, inr, Bool-cases,
}
use customs_buyer_intelligen.Python.{Value, Fields, Host, find, get, truthy}
use customs_buyer_intelligen.Chain.{Text, Codec, ok, >>=-eq-ok, need, as_object}
use customs_buyer_intelligen.Session.{event}
use customs_buyer_intelligen.Session.Appending.{next_event}
use customs_buyer_intelligen.Runtime.State.{Findings, add, id_at}
use customs_buyer_intelligen.Runtime.Events.{on_rendered}
use customs_buyer_intelligen.Runtime.Replay.{RuntimeState, handle, step_event, state}
use customs_buyer_intelligen.Runtime.Inputs.{nonempty, parse_time, unexpected}
use customs_buyer_intelligen.Runtime.Rendering.{
  call_fields, World, spends, prepared_reasons, route_verdict, prepared_verdict, call_verdict,
  verdict, rendered_row,
}

module _ {F : Type 0} ⦃py : Host F⦄ (world : World F) where
  -- A preparation without a reason against it has a token that is not spent.
  prepared_reasons-fresh :
      (prepared : Fields F) (token : String) (s : Findings F) (reasons : List String)
      → prepared_reasons world prepared token s ≡ ok reasons
      → is_empty reasons ≡ true
      → is_in token s.rendered_tokens ≡ false
  unfolding prepared_reasons
  prepared_reasons-fresh prepared token s reasons done clear =
      let (issued, _, a) = >>=-eq-ok (need "render_token" prepared) _ done in
      let (expiry, _, b) = >>=-eq-ok (need "expires_at" prepared) _ a in
      let (expires, _, c) = >>=-eq-ok (parse_time world.iso expiry "prepared.expires_at") _ b in
      ground (arith, c, clear)

  route_verdict-spends :
      (prepared_id token : String) (prepared : Fields F) (i t : String) (p r : Fields F)
      (m : String)
      → route_verdict world prepared_id token prepared ≡ ok (spends i t p r m)
      → (prepared_id ≡ i) × (token ≡ t)
  unfolding route_verdict
  route_verdict-spends prepared_id token prepared i t p r m done = ground arith

  prepared_verdict-spends :
      (prepared_id token : String) (s : Findings F) (held : Option (Value F)) (i t : String)
      (p r : Fields F) (m : String)
      → prepared_verdict world prepared_id token s held ≡ ok (spends i t p r m)
      → (prepared_id ≡ i) × (token ≡ t) × (is_in token s.rendered_tokens ≡ false)
  unfolding prepared_verdict
  prepared_verdict-spends prepared_id token s none i t p r m done = cc
  prepared_verdict-spends prepared_id token s (some held) i t p r m done =
      let (prepared, _, a) = >>=-eq-ok (as_object held) _ done in
      let (reasons, found, b) = >>=-eq-ok (prepared_reasons world prepared token s) _ a in
      elim (Bool-cases (is_empty reasons)) [
        | inl clear ↦
            let (same_id, same) =
              route_verdict-spends prepared_id token prepared i t p r m (rw clear at b) in
            (same_id, same, prepared_reasons-fresh prepared token s reasons found clear)
        | inr blocked ↦ cc
      ]

  call_verdict-spends :
      (codec : Codec F) (args : Fields F) (file : Option Text) (i t : String) (p r : Fields F)
      (m : String)
      → call_verdict world codec args file ≡ ok (spends i t p r m)
      → (s : RuntimeState F) × (state codec file ≡ ok s)
        × (nonempty (get "prepared_id" args) "prepared_id" ≡ ok i)
        × (nonempty (get "render_token" args) "render_token" ≡ ok t)
        × (is_in t s.progress.rendered_tokens ≡ false)
  unfolding call_verdict
  call_verdict-spends codec args file i t p r m done =
      let (investigation_id, _, a) =
        >>=-eq-ok (nonempty (get "investigation_id" args) "investigation_id") _ done in
      let (s, is_state, b) = >>=-eq-ok (state codec file) _ a in
      let (prepared_id, is_id, c) =
        >>=-eq-ok (nonempty (get "prepared_id" args) "prepared_id") _ b in
      let (token, is_token, d) =
        >>=-eq-ok (nonempty (get "render_token" args) "render_token") _ c in
      let (same_id, same, fresh) =
        prepared_verdict-spends prepared_id token s.progress
          (find prepared_id s.progress.preparations) i t p r m d in
      (
        s,
        is_state,
        is_id ∙ ap ok same_id,
        is_token ∙ ap ok same,
        subst (λ x. is_in x s.progress.rendered_tokens ≡ false) same fresh,
      )

  -- What a call that spends a token has found.
  pub verdict-spends :
      (codec : Codec F) (args : Fields F) (file : Option Text) (i t : String) (p r : Fields F)
      (m : String)
      → verdict world codec args file ≡ ok (spends i t p r m)
      → (s : RuntimeState F) × (state codec file ≡ ok s)
        × (nonempty (get "prepared_id" args) "prepared_id" ≡ ok i)
        × (nonempty (get "render_token" args) "render_token" ≡ ok t)
        × (is_in t s.progress.rendered_tokens ≡ false)
  unfolding verdict
  verdict-spends codec args file i t p r m done =
      elim (Bool-cases (is_empty (unexpected call_fields args))) [
        | inl plain ↦ call_verdict-spends codec args file i t p r m (rw plain at done)
        | inr mutated ↦ cc
      ]

  -- The event of a rendering adds its token.
  pub step_rendered :
      (codec : Codec F) (es : List (Fields F)) (i t : String) (s : Findings F)
      → step_event (next_event codec world.sanitization es (rendered_row world i t)) s
        ≡ ok (record s { rendered_tokens = add t s.rendered_tokens })
  unfolding step_event handle on_rendered event id_at
  step_rendered codec es i t s = elim (Bool-cases (truthy world.sanitization)) [
    | inl kept ↦ rw kept refl
    | inr dropped ↦ rw dropped refl
  ]
