-- ===== src/Runtime/Promoted.antt =====
-- The least that a peer has which is promoted under a policy that the runtime has accepted.
use customs_buyer_intelligen.Prelude.{
  ℕ, ◌≤◌, String, Bool, true, not, ◌&&◌, List, some, ltb, ◌==◌, ◌≡◌, refl, subst, ap, sym, ◌∙◌,
  arith, eq_iff,
}
use customs_buyer_intelligen.Python.{
  upper, to_str, Value, str, Fields, Host, find, truthy, is_bool, ℤ,
}
use customs_buyer_intelligen.Chain.{ok, ok_injective, need, need-find, as_text}
use customs_buyer_intelligen.Runtime.Routes.{required_fields}
use customs_buyer_intelligen.Runtime.Issues.{rank_of}
use customs_buyer_intelligen.Runtime.Policy.{
  fit_ranks, evidence_ranks, ensure, ranked, graded, normalize_policy, policy_rank, known_rank,
  next_ℤ,
}
use customs_buyer_intelligen.Runtime.Yielding.{Yields, Yields-ok, ok-Yields, step-Yields}
use customs_buyer_intelligen.Runtime.Promotion.{promotion_fields, parent_depth, promotion_gate}
use customs_buyer_intelligen.Runtime.Strict.{
  ensure-eq, ranked-eq, IsStrict, normalize_policy-IsStrict,
}

at_least : (b f k g : ℕ) → b ≤ f → f ≡ k → not (ltb g k) ≡ true → b ≤ g
at_least b f k g h same above = ground arith

module _ {F : Type 0} ⦃py : Host F⦄ where
  policy_rank_at :
      (ranks : List (String × ℕ)) (name : String) (policy : Fields F) (grade : String) (n : ℕ)
      → find name policy ≡ some (str grade)
      → rank_of ranks grade ≡ some n
      → policy_rank ranks name policy ≡ ok n
  unfolding policy_rank as_text known_rank
  policy_rank_at ranks name policy grade n held known =
      rw (need-find name policy (str grade) held) (ap known_rank known)

  policy_rank-eq :
      (ranks : List (String × ℕ)) (name : String) (policy : Fields F) (grade : String) (n m : ℕ)
      → find name policy ≡ some (str grade)
      → rank_of ranks grade ≡ some n
      → policy_rank ranks name policy ≡ ok m
      → n ≡ m
  policy_rank-eq ranks name policy grade n m held known done =
      ok_injective (sym (policy_rank_at ranks name policy grade n held known) ∙ done)

  gate_flag :
      (wants : Value F) (test : Bool)
      → is_bool wants true ≡ true
      → not (truthy wants && not test) ≡ true
      → test ≡ true
  unfolding truthy is_bool
  gate_flag wants test is_true h = ground arith

  -- What a peer has that passes the gate under a policy that was accepted.
  abbrev pub IsWorthy : Fields F → Value F → Fields F → String × String × String × ℤ → Type 0
  IsWorthy receipt owner depths (fit, evidence, status, depth) =
      (f : ℕ) × (e : ℕ) × (fit_value : Value F) × (evidence_value : Value F) × (status_value : Value
        F)
      × (novelty : Value F) × (parent : ℤ) × (need "target_fit_grade" receipt ≡ ok fit_value)
      × (fit ≡ upper py.tables (to_str fit_value))
      × (need "promotion_evidence_grade" receipt ≡ ok evidence_value)
      × (evidence ≡ upper py.tables (to_str evidence_value))
      × (need "canonical_status" receipt ≡ ok status_value)
      × (status ≡ upper py.tables (to_str status_value))
      × (rank_of fit_ranks fit ≡ some f)
      × (4 ≤ f)
      × (rank_of evidence_ranks evidence ≡ some e)
      × (2 ≤ e)
      × (need "commercial_novelty" receipt ≡ ok novelty)
      × (is_bool novelty true ≡ true)
      × (status ≡ "NEW")
      × (parent_depth owner depths ≡ ok parent)
      × (depth ≡ next_ℤ parent)

  gate-Yields :
      (policy receipt : Fields F) (owner : Value F) (depths : Fields F)
      → IsStrict policy
      → Yields (IsWorthy receipt owner depths) (promotion_gate policy receipt owner depths)
  unfolding promotion_gate
  gate-Yields policy receipt owner depths
        (
          least_fit, f, least_evidence, e, wants, wants_new, has_fit, fit_rank, fits, has_evidence,
          evidence_rank, proven, has_wants, is_wanted, has_wants_new, is_wanted_new,
        ) =
      let P = IsWorthy receipt owner depths in
      step-Yields P (required_fields receipt promotion_fields "receipt promotion gate") _ λ _ _.
        step-Yields P (need "target_fit_grade" receipt) _ λ fit_value is_fit.
          step-Yields P (need "promotion_evidence_grade" receipt) _ λ evidence_value is_evidence.
            step-Yields P (need "canonical_status" receipt) _ λ status_value is_status.
              step-Yields P (ranked fit_ranks (graded fit_value) _) _ λ g is_g.
                step-Yields P (ranked evidence_ranks (graded evidence_value) _) _ λ i is_i.
                  step-Yields P (policy_rank fit_ranks "minimum_target_fit" policy) _ λ k is_k.
                    step-Yields P (ensure (not (ltb g k)) _) _ λ u above.
                      step-Yields P (policy_rank evidence_ranks "minimum_evidence_grade" policy) _
                        λ n is_n. step-Yields P (ensure (not (ltb i n)) _) _ λ v over.
                          step-Yields P (need "require_commercial_novelty" policy) _ λ w has_w.
                            step-Yields P (need "commercial_novelty" receipt) _
                              λ novelty has_novelty.
                                step-Yields P
                                  (ensure (not (truthy w && not (is_bool novelty true))) _) _
                                  λ x novel.
                                    step-Yields P (need "require_canonical_new" policy) _ λ y has_y.
                                      step-Yields P
                                        (ensure
                                          (not (truthy y && not (graded status_value == "NEW"))) _)
                                        _
                                        λ z new.
                                          step-Yields P (parent_depth owner depths) _
                                            λ parent is_parent. ok-Yields P _ (
                                              g,
                                              i,
                                              fit_value,
                                              evidence_value,
                                              status_value,
                                              novelty,
                                              parent,
                                              is_fit,
                                              refl,
                                              is_evidence,
                                              refl,
                                              is_status,
                                              refl,
                                              ranked-eq fit_ranks (graded fit_value) _ g is_g,
                                              at_least 4 f k g fits
                                                  (policy_rank-eq fit_ranks "minimum_target_fit"
                                                    policy least_fit f k has_fit fit_rank is_k)
                                                  (ensure-eq (not (ltb g k)) _ u above),
                                              ranked-eq evidence_ranks (graded evidence_value) _ i
                                                  is_i,
                                              at_least 2 e n i proven
                                                  (policy_rank-eq evidence_ranks
                                                    "minimum_evidence_grade" policy least_evidence e
                                                    n has_evidence evidence_rank is_n)
                                                  (ensure-eq (not (ltb i n)) _ v over),
                                              has_novelty,
                                              gate_flag w (is_bool novelty true)
                                                  (subst (λ b. is_bool b true ≡ true)
                                                    (ok_injective (
                                                      sym (
                                                        need-find "require_commercial_novelty"
                                                          policy wants has_wants)
                                                      ∙ has_w))
                                                    is_wanted)
                                                  (ensure-eq
                                                    (not (truthy w && not (is_bool novelty true))) _
                                                    x novel),
                                              (eq_iff (graded status_value) "NEW").0 (
                                                  gate_flag y (graded status_value == "NEW")
                                                    (subst (λ b. is_bool b true ≡ true)
                                                      (ok_injective (
                                                        sym (
                                                          need-find "require_canonical_new" policy
                                                            wants_new has_wants_new)
                                                        ∙ has_y))
                                                      is_wanted_new)
                                                    (ensure-eq
                                                      (not (
                                                        truthy y
                                                        && not (graded status_value == "NEW")))
                                                      _ z new)),
                                              is_parent,
                                              refl,
                                            )

  -- Where a policy is accepted and a peer passes its gate, the fit, the evidence and the status that
  -- are passed on are the receipt's own `target_fit_grade`, `promotion_evidence_grade` and
  -- `canonical_status`, in upper case. The fit has a rank, of A's or more, and the
  -- evidence one, of B's or more; the receipt's `commercial_novelty` is true; the status is NEW; and
  -- the depth is one more than that of the anchor that discovered the peer.
  pub promotion_gate-IsWorthy :
      (raw : Value F) (policy receipt : Fields F) (owner : Value F) (depths : Fields F)
      (passed : String × String × String × ℤ)
      → normalize_policy raw ≡ ok policy
      → promotion_gate policy receipt owner depths ≡ ok passed
      → IsWorthy receipt owner depths passed
  promotion_gate-IsWorthy raw policy receipt owner depths passed normal done =
      Yields-ok (IsWorthy receipt owner depths) (promotion_gate policy receipt owner depths) passed
        (gate-Yields policy receipt owner depths (normalize_policy-IsStrict raw policy normal)) done
