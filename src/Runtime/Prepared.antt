-- ===== src/Runtime/Prepared.antt =====
-- A call of `prepare_outreach` that prepares: what it relied on.
use customs_buyer_intelligen.Prelude.{
  ℕ, ◌+◌, ◌≤◌, ◌<◌, String, true, false, List, [], ◌∷◌, Option, is_empty, is_empty-when,
  is_empty-first_of_each, when, first_of_each, ◌≡◌, refl, ap, sym, ◌∙◌, inl, inr, Bool-cases,
}
use customs_buyer_intelligen.Python.{Value, Fields, Host, find, get, truthy}
use customs_buyer_intelligen.Chain.{Text, Codec, Result, ok, err, ok_injective, >>=-eq-ok, need}
use customs_buyer_intelligen.Runtime.Replay.{RuntimeState, state}
use customs_buyer_intelligen.Runtime.Inputs.{nonempty, parse_time}
use customs_buyer_intelligen.Runtime.Issues.{
  closure_issues, dimensions_of, dimension_issues, digest_issues, route_issues, message_issues,
  expiry_issues, day,
}
use customs_buyer_intelligen.Runtime.Preparing.{
  Desk, prepared_for_render, OutreachPlan, blocks, sends, subject_of, body_of, stage_in, all_issues,
  plan_outreach, carry_out, prepare,
}
use customs_buyer_intelligen.Runtime.Clearing.{
  IsOpen, IsComplete, closure_issues-IsOpen, dimension_issues-IsComplete, digest_issues-same,
  expiry_issues-within,
}
use customs_buyer_intelligen.Runtime.Sendable.{IsSendable, all_empty, message_issues-IsSendable}

-- Everything that a preparation relies on.
pub record IsCleared {F : Type 0} ⦃py : Host F⦄ (desk : Desk F) (args : Fields F)
    (closure_id : String) (s : RuntimeState F) : Type 0 where
  pub closure_is_open : IsOpen desk.iso desk.now (find closure_id s.progress.closures) s.events
  pub opt_out : (v : Value F) × (need "opt_out" s.start ≡ ok v) × (truthy v ≡ false)
  pub is_complete :
      (d : Fields F) × (dimensions_of (find closure_id s.progress.closures) ≡ ok d) × IsComplete d
  pub history : need "history_digest" s.start ≡ ok (get "history_digest" args)
  pub authority : need "authority_digest" s.start ≡ ok (get "authority_digest" args)
  pub route : route_issues desk.patterns (get "route" args) s.start s.progress.evidence ≡ ok []
  pub is_sendable :
      IsSendable desk.patterns
        (subject_of desk args)
        (body_of desk args)
        (stage_in desk args)
        s.start
        s.progress.preparations
  pub expiry :
      (expires : ℕ) × (parse_time desk.iso (get "expires_at" args) "expires_at" ≡ ok expires)
      × (desk.now < expires)
      × (expires ≤ desk.now + day)

is_empty-nil : (xs : List String) → is_empty xs ≡ true → xs ≡ []
is_empty-nil [] h = refl
is_empty-nil (x ∷ xs) h = cc

module _ {F : Type 0} ⦃py : Host F⦄ (desk : Desk F) where
  all_issues-IsCleared :
      (closure_id : String) (args : Fields F) (s : RuntimeState F) (issues : List String)
      → all_issues desk closure_id args s ≡ ok issues
      → is_empty issues ≡ true
      → IsCleared desk args closure_id s
  unfolding all_issues
  all_issues-IsCleared closure_id args s issues done clear =
      let held = find closure_id s.progress.closures in
      let parsed = parse_time desk.iso (get "expires_at" args) "expires_at" in
      let (of_closure, closing, a) =
        >>=-eq-ok (closure_issues desk.iso desk.now held s.events) _ done in
      let (opt_out, opting, b) = >>=-eq-ok (need "opt_out" s.start) _ a in
      let (dimensions, measured, c) = >>=-eq-ok (dimensions_of held) _ b in
      let (of_digests, digesting, d) = >>=-eq-ok (digest_issues args s.start) _ c in
      let (of_route, routing, e) =
        >>=-eq-ok (route_issues desk.patterns (get "route" args) s.start s.progress.evidence) _ d in
      let (of_message, writing, f) =
        >>=-eq-ok
          (message_issues desk.patterns (subject_of desk args) (body_of desk args)
            (stage_in desk args) s.start s.progress.preparations)
          _ e in
      let (on_closure, on_opt_out, on_dimensions, on_digests, on_route, on_message, on_expiry) =
        all_empty of_closure (when (truthy opt_out) "ACCOUNT_OPTED_OUT")
          (dimension_issues dimensions) of_digests of_route of_message
          (expiry_issues desk.now parsed).0 (ap is_empty (ok_injective f) ∙ clear) in
      let (history, authority) = digest_issues-same args s.start of_digests digesting on_digests in
      record {
        closure_is_open =
            closure_issues-IsOpen desk.iso desk.now held s.events of_closure closing on_closure;
        opt_out = (opt_out, opting, (is_empty-when (truthy opt_out) _).0 on_opt_out);
        is_complete = (dimensions, measured, dimension_issues-IsComplete dimensions on_dimensions);
        history = history;
        authority = authority;
        route = routing ∙ ap ok (is_empty-nil of_route on_route);
        is_sendable =
            message_issues-IsSendable desk.patterns (subject_of desk args) (body_of desk args)
              (stage_in desk args) s.start s.progress.preparations of_message writing on_message;
        expiry = expiry_issues-within desk.now parsed on_expiry;
      }

  plan_outreach-sends :
      (codec : Codec F) (args : Fields F) (file : Option Text) (payload : Value F)
      (expires_at : String) (s : RuntimeState F) (closure_id : String)
      → state codec file ≡ ok s
      → nonempty (get "closure_id" args) "closure_id" ≡ ok closure_id
      → plan_outreach desk codec args file ≡ ok (sends payload expires_at)
      → IsCleared desk args closure_id s
  unfolding plan_outreach
  plan_outreach-sends codec args file payload expires_at s closure_id is_state named done =
      let (investigation_id, _, a) =
        >>=-eq-ok (nonempty (get "investigation_id" args) "investigation_id") _ done in
      let (issues, found, d) =
        >>=-eq-ok (all_issues desk closure_id args s) _ (rw (is_state, named) at a) in
      elim (Bool-cases (is_empty (first_of_each issues))) [
        | inl clear ↦
            all_issues-IsCleared closure_id args s issues found
              (sym (is_empty-first_of_each issues) ∙ clear)
        | inr blocked ↦ let no = rw blocked at d in cc
      ]

  carry_out-sends :
      (codec : Codec F) (v : Result (OutreachPlan F)) (file after : Option Text) (i t e : String)
      → carry_out desk codec file v ≡ (after, ok (prepared_for_render i t e))
      → (payload : Value F) × (expires_at : String) × (v ≡ ok (sends payload expires_at))
  unfolding carry_out
  carry_out-sends codec (err x) file after i t e done = cc
  carry_out-sends codec (ok (blocks reasons)) file after i t e done = cc
  carry_out-sends codec (ok (sends payload expires_at)) file after i t e done =
      (payload, expires_at, refl)

  -- Where an investigation has a state and a call that names a closure prepares an outreach: the closure
  -- was issued, is unused and in time, and no operational event came after it; its four dimensions are
  -- complete; the account has not opted out; the digests are the start's; the route has no issue;
  -- subject and body are there; the stage is known, new, and not behind the history's; the message
  -- leaks nothing and claims nothing concrete without authority, and a first one has 80 to 110 words
  -- and one link at most; and the outreach expires after now and within a day.
  pub prepare-IsCleared :
      (codec : Codec F) (args : Fields F) (file after : Option Text) (s : RuntimeState F)
      (closure_id i t e : String)
      → state codec file ≡ ok s
      → nonempty (get "closure_id" args) "closure_id" ≡ ok closure_id
      → prepare desk codec args file ≡ (after, ok (prepared_for_render i t e))
      → IsCleared desk args closure_id s
  unfolding prepare
  prepare-IsCleared codec args file after s closure_id i t e is_state named done =
      let (payload, expires_at, planned) =
        carry_out-sends codec (plan_outreach desk codec args file) file after i t e done in
      plan_outreach-sends codec args file payload expires_at s closure_id is_state named planned
