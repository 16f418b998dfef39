-- ===== src/Runtime/Sendable.antt =====
-- What holds of the message of an outreach that is prepared.
use customs_buyer_intelligen.Prelude.{
  ◌≤◌, String, true, false, not, ◌&&◌, ◌||◌, List, [], ◌∷◌, All, is_in, is_empty, is_empty-append,
  is_empty-when, is_empty-unless, when, ◌⊕◌, ◌==◌, ◌≡◌, ap, ◌∙◌, arith, inl, inr, Bool-cases,
  if◌then◌else◌,
}
use customs_buyer_intelligen.Python.{Value, str, Fields, Host, Tables, get, or_value}
use customs_buyer_intelligen.Chain.{ok, ok_injective, >>=-eq-ok, need}
use customs_buyer_intelligen.Runtime.State.{each, id_texts}
use customs_buyer_intelligen.Runtime.Inputs.{◌&◌}
use customs_buyer_intelligen.Runtime.Routes.{Patterns}
use customs_buyer_intelligen.Runtime.Issues.{
  message_issues, first_touch_issues, claim_issues, has_rank, rank_of, prior_rank, is_regression,
  stage_ranks, is_stage_taken, claim_names,
}

-- What the account's authority allows to say.
abbrev pub Allows : {F : Type 0} → Fields F → List String → Type 0
Allows {F} start authority =
    (claims : Value F) × (rows : List (Value F)) × (need "authority_claims" start ≡ ok claims)
    × (each claims ≡ ok rows)
    × (id_texts rows ≡ ok authority)

abbrev pub IsShort : Patterns → String → String → Type 0
IsShort patterns body combined =
    (80 ≤ patterns.count_words body)
    × (patterns.count_words body ≤ 110)
    × (patterns.count_links combined ≤ 1)

-- The message says nothing that it must not, at a stage that is new and not behind the history's.
abbrev pub IsSendable :
    {F : Type 0} ⦃py : Host F⦄ → Patterns → String → String → String → Fields F → Fields F → Type 0
IsSendable patterns subject body stage start preparations =
    let combined = subject & "\n" & body in
    let rank = rank_of stage_ranks stage in
    (authority : List String) × Allows start authority
    × ((subject == "") ≡ false)
    × ((body == "") ≡ false)
    × (has_rank rank ≡ true)
    × (is_regression rank (prior_rank (or_value (get "history_highest_stage" start) (str "")))
        ≡ false)
    × (is_stage_taken stage preparations ≡ false)
    × (patterns.is_leak combined ≡ false)
    × All (λ name. (patterns.has_claim name combined && not (is_in name authority)) ≡ false)
        claim_names
    × (if stage == "FIRST_TOUCH" then IsShort patterns body combined else Unit)

claim_issues-All :
    (tables : Tables) (patterns : Patterns) (authority : List String) (combined : String)
    (names : List String)
    → is_empty (claim_issues tables patterns authority combined names) ≡ true
    → All (λ name. (patterns.has_claim name combined && not (is_in name authority)) ≡ false) names
unfolding claim_issues
claim_issues-All tables patterns authority combined [] clear = tt
claim_issues-All tables patterns authority combined (name ∷ names) clear =
    let (here, later) = (is_empty-append _ _).0 clear in
    ((is_empty-when _ _).0 here, claim_issues-All tables patterns authority combined names later)

first_touch_issues-IsShort :
    (patterns : Patterns) (stage body combined : String)
    → is_empty (first_touch_issues patterns stage body combined) ≡ true
    → if stage == "FIRST_TOUCH" then IsShort patterns body combined else Unit
unfolding first_touch_issues
first_touch_issues-IsShort patterns stage body combined clear =
    elim (Bool-cases (stage == "FIRST_TOUCH")) [
      | inl p ↦
          let h = rw (p, first_touch_issues) at clear in
          rw p (ground (arith, h), ground (arith, h), ground (arith, h))
      | inr p ↦ rw p tt
    ]

-- Nothing is in any of seven lists of blockers.
pub all_empty :
    (a b c d e f g : List String)
    → is_empty (a ⊕ b ⊕ c ⊕ d ⊕ e ⊕ f ⊕ g) ≡ true
    → (is_empty a ≡ true)
      × (is_empty b ≡ true)
      × (is_empty c ≡ true)
      × (is_empty d ≡ true)
      × (is_empty e ≡ true)
      × (is_empty f ≡ true)
      × (is_empty g ≡ true)
all_empty a b c d e f g h =
    let (ha, h) = (is_empty-append a _).0 h in
    let (hb, h) = (is_empty-append b _).0 h in
    let (hc, h) = (is_empty-append c _).0 h in
    let (hd, h) = (is_empty-append d _).0 h in
    let (he, h) = (is_empty-append e _).0 h in
    let (hf, hg) = (is_empty-append f g).0 h in (ha, hb, hc, hd, he, hf, hg)

module _ {F : Type 0} ⦃py : Host F⦄ where
  pub message_issues-IsSendable :
      (patterns : Patterns) (subject body stage : String) (start preparations : Fields F)
      (issues : List String)
      → message_issues patterns subject body stage start preparations ≡ ok issues
      → is_empty issues ≡ true
      → IsSendable patterns subject body stage start preparations
  unfolding message_issues
  message_issues-IsSendable patterns subject body stage start preparations issues done clear =
      let (claims, has_claims, a) = >>=-eq-ok (need "authority_claims" start) _ done in
      let (rows, is_rows, b) = >>=-eq-ok (each claims) _ a in
      let (authority, is_authority, c) = >>=-eq-ok (id_texts rows) _ b in
      let combined = subject & "\n" & body in
      let rank = rank_of stage_ranks stage in
      let prior = prior_rank (or_value (get "history_highest_stage" start) (str "")) in
      let neither = subject == "" || body == "" in
      let behind = is_regression rank prior in
      let taken = is_stage_taken stage preparations in
      let leak = patterns.is_leak combined in
      let (both, ranked, onward, fresh, safe, said, short) =
        all_empty (when neither "SUBJECT_AND_BODY_REQUIRED")
          (when (not (has_rank rank)) "INVALID_STAGE") (when behind "HISTORY_STAGE_REGRESSION")
          (when taken "STAGE_REPLAY") (when leak "CUSTOMS_OR_SUPPLIER_INTELLIGENCE_LEAK")
          (claim_issues py.tables patterns authority combined claim_names)
          (first_touch_issues patterns stage body combined)
          (ap is_empty (ok_injective c) ∙ clear) in
      let written = (is_empty-when neither _).0 both in
      (
        authority,
        (claims, rows, has_claims, is_rows, is_authority),
        ground (arith, written),
        ground (arith, written),
        (is_empty-unless (has_rank rank) _).0 ranked,
        (is_empty-when behind _).0 onward,
        (is_empty-when taken _).0 fresh,
        (is_empty-when leak _).0 safe,
        claim_issues-All py.tables patterns authority combined claim_names said,
        first_touch_issues-IsShort patterns stage body combined short,
      )
