-- ===== src/Runtime/Once.antt =====
-- Two calls of `render_outreach_action_card` with one token, on a session that grows between.
use customs_buyer_intelligen.Prelude.{
  String, true, List, [], ◌∷◌, ◌++◌, append_assoc, Option, some, is_in, eq_refl, ◌≡◌, refl, subst,
  ap, sym, ◌∙◌, arith, inl, inr,
}
use customs_buyer_intelligen.Python.{obj, Fields, Host, get}
use customs_buyer_intelligen.Chain.{
  Text, IsPlain, Codec, RoundTrips, Result, ok, err, ok_injective, >>=-eq-ok, Result-cases,
}
use customs_buyer_intelligen.Session.{read, append}
use customs_buyer_intelligen.Session.Appending.{IsLog, next_event, read_after_append}
use customs_buyer_intelligen.Runtime.Sets.{is_in-add}
use customs_buyer_intelligen.Runtime.Replay.{RuntimeState, step_event, replay, state}
use customs_buyer_intelligen.Runtime.Advancing.{replay-Advances}
use customs_buyer_intelligen.Runtime.Growing.{grown, state-read, state-grown}
use customs_buyer_intelligen.Runtime.Inputs.{nonempty}
use customs_buyer_intelligen.Runtime.Rendering.{
  World, Card, Rendered, draft_blocked, sendable_draft, Decision, refused, spends, verdict, perform,
  render, rendered_row,
}
use customs_buyer_intelligen.Runtime.Spending.{verdict-spends, step_rendered}

-- The call writes nothing and gives no card.
abbrev pub IsRefusal : {F : Type 0} → Option Text → Option Text × Result (Rendered F) → Type 0
IsRefusal file (after, err x) = after ≡ file
IsRefusal file (after, ok (draft_blocked reasons)) = after ≡ file
IsRefusal file (after, ok (sendable_draft card)) = ⊥

module _ {F : Type 0} ⦃py : Host F⦄ (codec : Codec F) where
  -- A call with a token that is spent is refused.
  render-IsRefusal :
      (world : World F) (args : Fields F) (file : Option Text) (t : String)
      → nonempty (get "render_token" args) "render_token" ≡ ok t
      → ((s : RuntimeState F) → state codec file ≡ ok s → is_in t s.progress.rendered_tokens ≡ true)
      → IsRefusal file (render world codec args file)
  unfolding render perform
  render-IsRefusal world args file t named spent = go (verdict world codec args file) refl
    where
      go :
          (v : Result (Decision F))
          → verdict world codec args file ≡ v
          → IsRefusal file (perform world codec file v)
      go (err x) h = refl
      go (ok (refused reasons)) h = refl
      go (ok (spends i u p r m)) h =
          let (s, is_state, _, is_token, fresh) =
            verdict-spends world codec args file i u p r m h in
          let same = ok_injective (sym is_token ∙ named) in let was = spent s is_state in cc

  -- The log after a rendering, and whatever it has grown to, holds the token as spent.
  rendered-later :
      (world : World F) (file later : Option Text) (i t : String) (s u : RuntimeState F)
      (more : List (Fields F))
      → state codec file ≡ ok s
      → read codec later
        ≡ ok (
            s.events
            ++ next_event codec world.sanitization s.events (rendered_row world i t) ∷ more)
      → state codec later ≡ ok u
      → is_in t u.progress.rendered_tokens ≡ true
  unfolding grown replay
  rendered-later world file later i t s u more done reads after =
      let e = next_event codec world.sanitization s.events (rendered_row world i t) in
      let (v, ran, made) =
        >>=-eq-ok (replay (e ∷ more) s.progress) _
          (sym (state-grown codec file later (e ∷ more) s done reads) ∙ after) in
      let (spent, stepped, replayed) = >>=-eq-ok (step_event e s.progress) _ ran in
      let held = ok_injective (sym (step_rendered world codec s.events i t s.progress) ∙ stepped) in
      let (_, grows, _) = replay-Advances more spent v replayed in
      let was : is_in t spent.rendered_tokens ≡ true =
        subst (λ x. is_in t x.rendered_tokens ≡ true) held
          (ground (arith, is_in-add t t s.progress.rendered_tokens, eq_refl t)) in
      subst (λ x. is_in t x.progress.rendered_tokens ≡ true) (ok_injective made) (grows t was)

  -- What a call that gives a card has written.
  perform-writes :
      (world : World F) (v : Result (Decision F)) (file after : Option Text) (card : Card F)
      → perform world codec file v ≡ (after, ok (sendable_draft card))
      → (i : String) × (t : String) × (p : Fields F) × (r : Fields F) × (m : String) × (v
          ≡ ok (spends i t p r m))
        × (out : Text) × (e : Fields F) × (append codec world.sanitization
              (rendered_row world i t)
              file
            ≡ ok (out, e))
        × (after ≡ some out)
  unfolding perform
  perform-writes world (err x) file after card done = cc
  perform-writes world (ok (refused reasons)) file after card done = cc
  perform-writes world (ok (spends i t p r m)) file after card done =
      elim (Result-cases (append codec world.sanitization (rendered_row world i t) file)) [
        | inl (v, appended) ↦ (
          i,
          t,
          p,
          r,
          m,
          refl,
          v.0,
          v.1,
          appended,
          ap (λ x. x.0) (sym (rw (appended, perform) at done)),
        )
        | inr (x, failed) ↦ let no = rw (failed, perform) at done in cc
      ]

  -- The log that a card has left behind.
  render-read :
      (rt : RoundTrips codec) (world : World F) (args : Fields F) (text : Text) (ls : List Text)
      (s : RuntimeState F) (i t : String) (card : Card F) (after : Option Text)
      → IsLog text ls
      → state codec (some text) ≡ ok s
      → nonempty (get "prepared_id" args) "prepared_id" ≡ ok i
      → nonempty (get "render_token" args) "render_token" ≡ ok t
      → IsPlain (
          codec.dumps (obj (next_event codec world.sanitization s.events (rendered_row world i t))))
      → render world codec args (some text) ≡ (after, ok (sendable_draft card))
      → read codec after
        ≡ ok
            (s.events ++ next_event codec world.sanitization s.events (rendered_row world i t) ∷ [])
  unfolding render
  render-read rt world args text ls s i t card after log done named token plain rendered =
      let (j, u, p, r, m, spent, out, e, appended, is_out) =
        perform-writes world (verdict world codec args (some text)) (some text) after card
          rendered in
      let (_, _, is_id, is_token, _) =
        verdict-spends world codec args (some text) j u p r m spent in
      let same_id : j ≡ i = ok_injective (sym is_id ∙ named) in
      let same : u ≡ t = ok_injective (sym is_token ∙ token) in
      let (written, _, reads) =
        read_after_append codec rt world.sanitization (rendered_row world i t) text ls s.events log
          (state-read codec (some text) s done) plain in
      let appended_too =
        subst
          (λ x. append codec world.sanitization (rendered_row world x t) (some text) ≡ ok (out, e))
          same_id
          (subst
            (λ x.
              append codec world.sanitization (rendered_row world j x) (some text) ≡ ok (out, e))
            same appended) in
      let is_text = ap (λ x. x.0) (ok_injective (sym written ∙ appended_too)) in
      ap (read codec) (is_out ∙ ap some (sym is_text)) ∙ reads

  -- Where a session of plain lines has a state, the text of the rendering's event is one line, and a
  -- call renders a token and gives a card: on whatever the session has grown to since, any call
  -- with that token writes nothing and gives no card.
  pub render-render :
      (rt : RoundTrips codec) (world now : World F) (args again : Fields F) (text : Text)
      (ls : List Text) (s : RuntimeState F) (i t : String) (card : Card F)
      (after later : Option Text) (es more : List (Fields F))
      → IsLog text ls
      → state codec (some text) ≡ ok s
      → nonempty (get "prepared_id" args) "prepared_id" ≡ ok i
      → nonempty (get "render_token" args) "render_token" ≡ ok t
      → IsPlain (
          codec.dumps (obj (next_event codec world.sanitization s.events (rendered_row world i t))))
      → render world codec args (some text) ≡ (after, ok (sendable_draft card))
      → read codec after ≡ ok es
      → read codec later ≡ ok (es ++ more)
      → nonempty (get "render_token" again) "render_token" ≡ ok t
      → IsRefusal later (render now codec again later)
  render-render rt world now args again text ls s i t card after later es more log done named token
        plain rendered reads grew token_again =
      let e = next_event codec world.sanitization s.events (rendered_row world i t) in
      let is_read =
        render-read rt world args text ls s i t card after log done named token plain rendered in
      let same : s.events ++ e ∷ [] ≡ es = ok_injective (sym is_read ∙ reads) in
      let grows : read codec later ≡ ok (s.events ++ e ∷ more) =
        grew
        ∙ ap (λ xs. ok (xs ++ more)) (sym same)
        ∙ ap ok (append_assoc s.events (e ∷ []) more) in
      render-IsRefusal now again later t token_again
        (λ u is_state. rendered-later world (some text) later i t s u more done grows is_state)
