-- ===== src/Runtime/Clearing.antt =====
-- What holds of an investigation whose outreach is prepared.
use customs_buyer_intelligen.Prelude.{
  ℕ, ◌+◌, ◌≤◌, ◌<◌, String, true, false, List, [], ◌∷◌, All, Option, none, some, is_empty, ◌≡◌,
  refl, ap, sym, ◌∙◌, arith, inl, inr, Bool-cases,
}
use customs_buyer_intelligen.Python.{Value, str, obj, Fields, Host, get, truthy, equals_str-eq}
use customs_buyer_intelligen.Chain.{
  Result, ok, err, ok_injective, >>=-eq-ok, need, as_object, as_text,
}
use customs_buyer_intelligen.Runtime.Inputs.{IsoTimes, parse_time}
use customs_buyer_intelligen.Runtime.Issues.{
  closure_issues, any_newer, is_newer, dimension_issues, digest_issues, expiry_issues, day,
}

-- The closure is there, unused and in time, and no operational event came after it.
abbrev pub IsOpen :
    {F : Type 0} ⦃py : Host F⦄ → IsoTimes → ℕ → Option (Value F) → List (Fields F) → Type 0
IsOpen {F} iso now held events =
    (closure : Fields F) × (expiry : Value F) × (expires : ℕ) × (held ≡ some (obj closure))
    × (truthy (get "used" closure) ≡ false)
    × (need "expires_at" closure ≡ ok expiry)
    × (parse_time iso expiry "closure.expires_at" ≡ ok expires)
    × (now ≤ expires)
    × All (λ event. is_newer closure event ≡ ok false) events

abbrev pub IsComplete : {F : Type 0} ⦃py : Host F⦄ → Fields F → Type 0
IsComplete dimensions =
    (truthy (get "research_complete" dimensions) ≡ true)
    × (truthy (get "network_complete" dimensions) ≡ true)
    × (truthy (get "crm_sync_complete" dimensions) ≡ true)
    × (truthy (get "outreach_prerequisites_complete" dimensions) ≡ true)

module _ {F : Type 0} ⦃py : Host F⦄ where
  any_newer-All :
      (closure : Fields F) (events : List (Fields F))
      → any_newer closure events ≡ ok false
      → All (λ event. is_newer closure event ≡ ok false) events
  unfolding any_newer
  any_newer-All closure [] done = tt
  any_newer-All closure (event ∷ events) done =
      let (here, found, a) = >>=-eq-ok (is_newer closure event) _ done in
      elim (Bool-cases here) [
        | inl p ↦ let no = rw p at a in cc
        | inr p ↦ (found ∙ ap ok p, any_newer-All closure events (rw p at a))
      ]

  pub closure_issues-IsOpen :
      (iso : IsoTimes) (now : ℕ) (held : Option (Value F)) (events : List (Fields F))
      (issues : List String)
      → closure_issues iso now held events ≡ ok issues
      → is_empty issues ≡ true
      → IsOpen iso now held events
  unfolding closure_issues as_object
  closure_issues-IsOpen iso now none events issues done clear = ground (arith, done, clear)
  closure_issues-IsOpen iso now (some (obj closure)) events issues done clear =
      let (expiry, has_expiry, a) = >>=-eq-ok (need "expires_at" closure) _ done in
      let (expires, parsed, b) = >>=-eq-ok (parse_time iso expiry "closure.expires_at") _ a in
      let (newer, found, c) = >>=-eq-ok (any_newer closure events) _ b in
      let unused : truthy (get "used" closure) ≡ false = ground (arith, c, clear) in
      let in_time : now ≤ expires = ground (arith, c, clear) in
      let latest : newer ≡ false = ground (arith, c, clear) in
      (
        closure,
        expiry,
        expires,
        refl,
        unused,
        has_expiry,
        parsed,
        in_time,
        any_newer-All closure events (found ∙ ap ok latest),
      )
  closure_issues-IsOpen iso now (some _) events issues done clear = cc

  pub dimension_issues-IsComplete :
      (dimensions : Fields F)
      → is_empty (dimension_issues dimensions) ≡ true
      → IsComplete dimensions
  unfolding dimension_issues
  dimension_issues-IsComplete dimensions clear = ground (arith, clear)

  as_text-eq : (v : Value F) (s : String) → as_text v ≡ ok s → v ≡ str s
  unfolding as_text
  as_text-eq (str t) s h = ap str (ok_injective h)
  as_text-eq _ s h = cc

  pub digest_issues-same :
      (args start : Fields F) (issues : List String)
      → digest_issues args start ≡ ok issues
      → is_empty issues ≡ true
      → (need "history_digest" start ≡ ok (get "history_digest" args))
        × (need "authority_digest" start ≡ ok (get "authority_digest" args))
  unfolding digest_issues
  digest_issues-same args start issues done clear =
      let (history, has_history, a) = >>=-eq-ok (need "history_digest" start) _ done in
      let (history_digest, is_history, b) = >>=-eq-ok (as_text history) _ a in
      let (authority, has_authority, c) = >>=-eq-ok (need "authority_digest" start) _ b in
      let (authority_digest, is_authority, d) = >>=-eq-ok (as_text authority) _ c in
      let same_history =
        equals_str-eq (get "history_digest" args) history_digest (ground (arith, d, clear)) in
      let same_authority =
        equals_str-eq (get "authority_digest" args) authority_digest (ground (arith, d, clear)) in
      (
        has_history ∙ ap ok (as_text-eq history history_digest is_history ∙ sym same_history),
        has_authority
            ∙ ap ok (as_text-eq authority authority_digest is_authority ∙ sym same_authority),
      )

pub expiry_issues-within :
    (now : ℕ) (parsed : Result ℕ)
    → is_empty (expiry_issues now parsed).0 ≡ true
    → (expires : ℕ) × (parsed ≡ ok expires) × (now < expires) × (expires ≤ now + day)
unfolding expiry_issues
expiry_issues-within now (err x) clear = cc
expiry_issues-within now (ok expires) clear =
    (expires, refl, ground (arith, clear), ground (arith, clear))
