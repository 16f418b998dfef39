-- ===== src/Runtime/Strict.antt =====
-- What a network policy asks for that the runtime has accepted.
use customs_buyer_intelligen.Prelude.{
  ℕ, ◌≤◌, String, Bool, true, false, not, List, ◌++◌, some, is_empty, ltb, ◌==◌, eq_iff, ◌≡◌, refl,
  subst, ap, ◌∙◌, arith, inl, inr, Option-cases, if◌then◌else◌,
}
use customs_buyer_intelligen.Python.{
  Value, str, obj, end, field, Fields, Host, find, get, is_bool, or_value, or_str, set_field, upper,
}
use customs_buyer_intelligen.Chain.{ok, ok_injective, >>=-eq-ok, need}
use customs_buyer_intelligen.Runtime.State.{update_fields}
use customs_buyer_intelligen.Runtime.Inputs.{unexpected}
use customs_buyer_intelligen.Runtime.Issues.{rank_of}
use customs_buyer_intelligen.Runtime.Policy.{
  fit_ranks, evidence_ranks, policy_fields, budget_fields, policy_defaults, kept_fields,
  require_object, budget_hints, ensure, ranked, graded, checked_policy, normalize_policy,
}

pub ensure-eq :
    (test : Bool) (message : String) (u : Unit) → ensure test message ≡ ok u → test ≡ true
unfolding ensure
ensure-eq true message u h = refl
ensure-eq false message u h = cc

pub ranked-eq :
    (ranks : List (String × ℕ)) (grade message : String) (rank : ℕ)
    → ranked ranks grade message ≡ ok rank
    → rank_of ranks grade ≡ some rank
unfolding ranked
ranked-eq ranks grade message rank h = elim (Option-cases (rank_of ranks grade)) [
  | inl p ↦ let no = rw (p, ranked) at h in cc
  | inr (n, p) ↦ p ∙ ap some (ok_injective (rw (p, ranked) at h))
]

module _ {F : Type 0} ⦃py : Host F⦄ where
  find-set_field :
      (k j : String) (v : Value F) (fs : Fields F)
      → find k (set_field j v fs) ≡ (if j == k then some v else find k fs)
  unfolding find set_field
  find-set_field k j v end = ground arith
  find-set_field k j v (field i w fs) =
      ground (arith, find-set_field k j v fs, eq_iff i j, eq_iff i k, eq_iff j k)

  -- What a policy that was accepted asks for.
  abbrev pub IsStrict : Fields F → Type 0
  IsStrict policy =
      (fit : String) × (f : ℕ) × (evidence : String) × (e : ℕ) × (novelty : Value F) × (new : Value
        F)
      × (find "minimum_target_fit" policy ≡ some (str fit))
      × (rank_of fit_ranks fit ≡ some f)
      × (4 ≤ f)
      × (find "minimum_evidence_grade" policy ≡ some (str evidence))
      × (rank_of evidence_ranks evidence ≡ some e)
      × (2 ≤ e)
      × (find "require_commercial_novelty" policy ≡ some novelty)
      × (is_bool novelty true ≡ true)
      × (find "require_canonical_new" policy ≡ some new)
      × (is_bool new true ≡ true)

  need-eq : (k : String) (fs : Fields F) (v : Value F) → need k fs ≡ ok v → find k fs ≡ some v
  unfolding need
  need-eq k fs v h = elim (Option-cases (find k fs)) [
    | inl p ↦ let no = rw (p, need) at h in cc
    | inr (w, p) ↦ p ∙ ap some (ok_injective (rw (p, need) at h))
  ]

  -- What the tests on a merged policy have found.
  abbrev HasPassed : Fields F → String → String → Type 0
  HasPassed merged fit evidence =
      (f : ℕ) × (e : ℕ) × (novelty : Value F) × (new : Value F) × (rank_of fit_ranks fit ≡ some f)
      × (4 ≤ f)
      × (rank_of evidence_ranks evidence ≡ some e)
      × (2 ≤ e)
      × (find "require_commercial_novelty" merged ≡ some novelty)
      × (is_bool novelty true ≡ true)
      × (find "require_canonical_new" merged ≡ some new)
      × (is_bool new true ≡ true)

  checked_policy-HasPassed :
      (merged : Fields F) (fit evidence : String)
      → checked_policy merged ≡ ok (fit, evidence)
      → HasPassed merged fit evidence
  unfolding checked_policy
  checked_policy-HasPassed merged fit evidence done =
      let (fit_value, _, a) = >>=-eq-ok (need "minimum_target_fit" merged) _ done in
      let (evidence_value, _, b) = >>=-eq-ok (need "minimum_evidence_grade" merged) _ a in
      let (f, is_fit, c) = >>=-eq-ok (ranked fit_ranks (graded fit_value) _) _ b in
      let (e, is_evidence, d) = >>=-eq-ok (ranked evidence_ranks (graded evidence_value) _) _ c in
      let (u, fits, g) = >>=-eq-ok (ensure (not (ltb f 4)) _) _ d in
      let (v, proven, h) = >>=-eq-ok (ensure (not (ltb e 2)) _) _ g in
      let (novelty, has_novelty, i) = >>=-eq-ok (need "require_commercial_novelty" merged) _ h in
      let (w, is_novel, j) = >>=-eq-ok (ensure (is_bool novelty true) _) _ i in
      let (new, has_new, k) = >>=-eq-ok (need "require_canonical_new" merged) _ j in
      let (x, is_new, l) = >>=-eq-ok (ensure (is_bool new true) _) _ k in
      let (y, _, made) =
        >>=-eq-ok
          (ensure
            (upper py.tables (or_str "" (get "closure_strategy" merged))
              == "QUEUE_PIVOT_SATURATION")
            "network_policy.closure_strategy must be QUEUE_PIVOT_SATURATION")
          _ l in
      let fits_too = ensure-eq (not (ltb f 4)) _ u fits in
      let proven_too = ensure-eq (not (ltb e 2)) _ v proven in
      subst (λ grades. HasPassed merged grades.0 grades.1) (ok_injective made)
        (
          f,
          e,
          novelty,
          new,
          ranked-eq fit_ranks (graded fit_value) _ f is_fit,
          ground (arith, fits_too),
          ranked-eq evidence_ranks (graded evidence_value) _ e is_evidence,
          ground (arith, proven_too),
          need-eq "require_commercial_novelty" merged novelty has_novelty,
          ensure-eq (is_bool novelty true) _ w is_novel,
          need-eq "require_canonical_new" merged new has_new,
          ensure-eq (is_bool new true) _ x is_new,
        )

  pub normalize_policy-IsStrict :
      (raw : Value F) (policy : Fields F) → normalize_policy raw ≡ ok policy → IsStrict policy
  unfolding normalize_policy
  normalize_policy-IsStrict raw policy done =
      let (given, _, a) =
        >>=-eq-ok (require_object (or_value raw (obj end)) "network_policy") _ done in
      let (u, _, b) =
        >>=-eq-ok (ensure (is_empty (unexpected (policy_fields ++ budget_fields) given)) _) _ a in
      let (hints, _, c) = >>=-eq-ok (budget_hints given budget_fields) _ b in
      let merged = update_fields policy_defaults (kept_fields policy_fields given) in
      let (grades, checked, made) = >>=-eq-ok (checked_policy merged) _ c in
      let (
        f, e, novelty, new, is_fit, fits, is_evidence, proven, has_novelty, is_novel, has_new,
        is_new,
      ) =
        checked_policy-HasPassed merged grades.0 grades.1 checked in
      subst IsStrict (ok_injective made) (
        grades.0,
        f,
        grades.1,
        e,
        novelty,
        new,
        simp find-set_field,
        is_fit,
        fits,
        simp find-set_field,
        is_evidence,
        proven,
        simp find-set_field has_novelty,
        is_novel,
        simp find-set_field has_new,
        is_new,
      )
