-- ===== src/Gates/Research.antt =====
-- Candidates are dropped only on proof, and are ready only when qualified
-- (candidate_research_gate.py).
use customs_buyer_intelligen.Prelude.{
  String, Bool, true, false, not, ◌&&◌, ◌||◌, [], ◌∷◌, is_in, ◌≡◌, refl, ◌↔◌, ◌⊎◌, inl, inr,
  Bool-cases, when, ◌⊕◌, is_empty, ◌==◌, eq_iff, arith,
}
use customs_buyer_intelligen.Python.{
  Fields, Host, get, truthy, upper, upper_or, or_value, float, ok,
}
use customs_buyer_intelligen.Python.Yielding.{Yields, ok-Yields, Yields-ok, if-Yields, step-Yields}
use customs_buyer_intelligen.Gates.Values.{is_profile}
use customs_buyer_intelligen.Gates.Candidate.{
  Floats, Assessment, state_of, canonical_ready_statuses, tiers, required_string,
  rejection_reasons_of, assessment_of, assess,
}

state_of-rejected : (a b c : Bool) → (state_of a b c).rejected ≡ a
unfolding state_of
state_of-rejected true b c = refl
state_of-rejected false true c = refl
state_of-rejected false false true = refl
state_of-rejected false false false = refl

state_of-retain : (a b c : Bool) → (state_of a b c).retain ≡ not a
unfolding state_of
state_of-retain true b c = refl
state_of-retain false true c = refl
state_of-retain false false true = refl
state_of-retain false false false = refl

state_of-opportunity_ready : (a b c : Bool) → (state_of a b c).opportunity_ready ≡ not a && b
unfolding state_of
state_of-opportunity_ready true b c = refl
state_of-opportunity_ready false true c = refl
state_of-opportunity_ready false false true = refl
state_of-opportunity_ready false false false = refl

has_reasons :
    (n d m : Bool) (x y z : String) → not (is_empty (when n x ⊕ when d y ⊕ when m z)) ≡ n || d || m
has_reasons true d m x y z = refl
has_reasons false true m x y z = refl
has_reasons false false true x y z = refl
has_reasons false false false x y z = refl

or_iff : (n d m : Bool) → (n || d || m ≡ true) ↔ ((n ≡ true) ⊎ (d ≡ true) ⊎ (m ≡ true))
or_iff true d m = (λ _. inl refl, λ _. refl)
or_iff false true m = (λ _. inr (inl refl), λ _. refl)
or_iff false false m = (λ h. inr (inr h), λ h. only h)
  where
    only : (false ≡ true) ⊎ (false ≡ true) ⊎ (m ≡ true) → m ≡ true
    only (inl p) = cc
    only (inr (inl p)) = cc
    only (inr (inr p)) = p

abbrev AllSix : Bool → Bool → Bool → Bool → Bool → Bool → Type 0
AllSix n d m i p s = (n ≡ false) × (d ≡ false) × (m ≡ false) × (i ≡ true) × (p ≡ true) × (s ≡ true)

ready_iff : (n d m i p s : Bool) → (not (n || d || m) && (i && p && s) ≡ true) ↔ AllSix n d m i p s
ready_iff true d m i p s = (λ h. cc, λ h. cc (h.0))
ready_iff false true m i p s = (λ h. cc, λ h. cc (h.1))
ready_iff false false true i p s = (λ h. cc, λ h. cc (h.2))
ready_iff false false false false p s = (λ h. cc, λ h. cc h.3)
ready_iff false false false true false s = (λ h. cc, λ h. cc h.4)
ready_iff false false false true true s =
    (λ h. (refl, refl, refl, refl, refl, h), λ (_, _, _, _, _, h). h)

is_in_two : (x a b : String) → (is_in x (a ∷ b ∷ []) ≡ true) ↔ ((x ≡ a) ⊎ (x ≡ b))
is_in_two x a b = (
  λ h. elim (Bool-cases (x == a)) [
    | inl same ↦ inl ((eq_iff _ _).0 same)
    | inr other ↦ inr ((eq_iff _ _).0 (second other h))
  ],
  λ h. elim h [ inl p ↦ rw ((eq_iff x a).1 p) refl | inr p ↦ first_or ((eq_iff x b).1 p) ],
)
  where
    second : (x == a) ≡ false → is_in x (a ∷ b ∷ []) ≡ true → (x == b) ≡ true
    second other h = ground arith

    first_or : (x == b) ≡ true → is_in x (a ∷ b ∷ []) ≡ true
    first_or p = ground arith

module _ {F : Type 0} ⦃py : Host F⦄ (floats : Floats F) (payload : Fields F) where
  -- One of the three proofs against the candidate.
  abbrev pub IsRefuted : Type 0
  IsRefuted =
      (truthy (get "proven_negative" payload) ≡ true)
      ⊎ (truthy (get "duplicate_proven" payload) ≡ true)
      ⊎ (truthy (get "mismatch_proven" payload) ≡ true)

  -- What makes a candidate ready for an opportunity.
  pub record IsQualified : Type 0 where
    pub not_negative : truthy (get "proven_negative" payload) ≡ false
    pub not_duplicate : truthy (get "duplicate_proven" payload) ≡ false
    pub not_mismatch : truthy (get "mismatch_proven" payload) ≡ false
    pub identified :
        (upper_or "UNRESOLVED" (get "canonical_status" payload) ≡ "CONFIRMED")
        ⊎ (upper_or "UNRESOLVED" (get "canonical_status" payload) ≡ "CREATED")
    pub procurement : truthy (get "procurement_proven" payload) ≡ true
    pub strong :
        (upper_or "D4" (get "signal_tier" payload) ≡ "D1")
        ⊎ (upper_or "D4" (get "signal_tier" payload) ≡ "D2")

  abbrev pub IsJust : Assessment F → Type 0
  IsJust r =
      (r.canonical_status ≡ upper_or "UNRESOLVED" (get "canonical_status" payload))
      × (r.signal_tier ≡ upper_or "D4" (get "signal_tier" payload))
      × ((r.rejected ≡ true) ↔ IsRefuted)
      × (r.retain_in_candidate_pool ≡ not r.rejected)
      × ((r.opportunity_creation_ready ≡ true) ↔ IsQualified)

  abbrev refuted : Bool
  refuted =
      truthy (get "proven_negative" payload)
      || truthy (get "duplicate_proven" payload)
      || truthy (get "mismatch_proven" payload)

  rejection_reasons_eq : not (is_empty (rejection_reasons_of payload)) ≡ refuted
  unfolding rejection_reasons_of
  rejection_reasons_eq =
      has_reasons (truthy (get "proven_negative" payload)) (truthy (get "duplicate_proven" payload))
        (truthy (get "mismatch_proven" payload)) "PROVEN_NEGATIVE" "PROVEN_DUPLICATE"
        "PROVEN_MISMATCH"

  abbrev status : String
  status = upper_or "UNRESOLVED" (get "canonical_status" payload)

  abbrev tier : String
  tier = upper_or "D4" (get "signal_tier" payload)

  all_six_of_payload :
      (not refuted
          && (is_in status canonical_ready_statuses
              && truthy (get "procurement_proven" payload)
              && is_in tier ("D1" ∷ "D2" ∷ []))
        ≡ true)
      ↔ IsQualified
  all_six_of_payload =
      let e =
        ready_iff (truthy (get "proven_negative" payload)) (truthy (get "duplicate_proven" payload))
          (truthy (get "mismatch_proven" payload)) (is_in status canonical_ready_statuses)
          (truthy (get "procurement_proven" payload)) (is_in tier ("D1" ∷ "D2" ∷ [])) in
      (
        λ h.
            let (n, d, m, i, p, s) = e.0 h in
            record {
              not_negative = n;
              not_duplicate = d;
              not_mismatch = m;
              identified = (is_in_two status "CONFIRMED" "CREATED").0 i;
              procurement = p;
              strong = (is_in_two tier "D1" "D2").0 s;
            },
        λ q. e.1 (
          q.not_negative,
          q.not_duplicate,
          q.not_mismatch,
          (is_in_two status "CONFIRMED" "CREATED").1 q.identified,
          q.procurement,
          (is_in_two tier "D1" "D2").1 q.strong,
        ),
      )

  assessment_of-IsJust :
      (candidate company profile : String) (value : F)
      → IsJust (assessment_of floats payload candidate company profile tier value)
  unfolding assessment_of
  assessment_of-IsJust candidate company profile value =
      rw (state_of-rejected, state_of-retain, state_of-opportunity_ready, rejection_reasons_eq)
        (
          refl,
          refl,
          or_iff (truthy (get "proven_negative" payload)) (truthy (get "duplicate_proven" payload))
              (truthy (get "mismatch_proven" payload)),
          refl,
          all_six_of_payload,
        )

  assess-Yields : Yields IsJust (assess floats payload)
  unfolding assess
  assess-Yields = step-Yields IsJust (required_string payload "candidate_id") _ λ candidate _.
      step-Yields IsJust (required_string payload "company_name") _ λ company _.
        step-Yields IsJust (required_string payload "product_profile_id") _ λ name _.
          if-Yields IsJust (not (is_profile py.tables (upper py.tables name))) _ _ λ _.
            if-Yields IsJust (not (is_in tier tiers)) _ _ λ _.
              step-Yields IsJust
                (floats.to_float (or_value (get "eiv" payload) (float floats.zero))) _
                λ value _. ok-Yields IsJust _ (
                  assessment_of-IsJust candidate company (upper py.tables name)
                    (floats.max floats.zero value))

  -- An assessment bears the payload's `canonical_status`, UNRESOLVED where it has none, and its
  -- `signal_tier`, D4 where it has none, both stripped and in upper case. It rejects a candidate
  -- exactly when it is proven negative, a duplicate or a mismatch, keeps it in the pool exactly when it
  -- is not rejected, and calls it ready for an opportunity exactly when nothing is proven against it,
  -- that status is CONFIRMED or CREATED, procurement is proven and that tier is D1 or D2.
  pub assess-IsJust : (r : Assessment F) → assess floats payload ≡ ok r → IsJust r
  assess-IsJust r = Yields-ok IsJust (assess floats payload) r assess-Yields
