-- ===== src/Examples/Candidates.antt =====
-- A candidate that is ready for qualification; naturals stand for the floats.
use customs_buyer_intelligen.Prelude.{ℕ, true, false, [], ◌∷◌, ltb, max, ◌≡◌, refl}
use customs_buyer_intelligen.Python.{
  Value, bool, str, float, Fields, field, end, Outcome, ok, raise, type_error,
}
use customs_buyer_intelligen.Gates.Candidate.{Floats, Assessment, assess, assessment_of}
use customs_buyer_intelligen.Gates.Research.{IsJust, assess-IsJust}
use customs_buyer_intelligen.Examples.Codec.{naturals}

abbrev to_natural : Value ℕ → Outcome ℕ
to_natural (float n) = ok n
to_natural v = raise type_error

abbrev floats : Floats ℕ
floats = record {
  zero = 0;
  to_float = to_natural;
  max = λ m n. max m n;
  is_positive = λ n. ltb 0 n;
}

abbrev found : Fields ℕ
found = field "candidate_id" (str "CAND-1") (
    field "company_name" (str " Acme ") (
      field "product_profile_id" (str "wpc") (
        field "signal_tier" (str "d2") (
          field "canonical_status" (str "created")
            (field "procurement_proven" (bool true) (field "eiv" (float 3) end))))))

abbrev assessed : Assessment ℕ
assessed = record {
  candidate_id = "CAND-1";
  company_name = "Acme";
  product_profile_id = "WPC";
  signal_tier = "D2";
  eiv = 3;
  canonical_status = "CREATED";
  research_state = "READY_FOR_QUALIFICATION";
  retain_in_candidate_pool = true;
  rejected = false;
  rejection_reasons = [];
  qualification_gaps = "PRODUCT_OR_APPLICATION_SIGNAL_WEAK_OR_UNPROVEN" ∷ [];
  canonical_research_required = false;
  opportunity_creation_ready = true;
}

assess_runs : assess floats found ≡ ok assessed
unfolding assess assessment_of
assess_runs = refl

assess-IsJust_example : IsJust floats found assessed
assess-IsJust_example = assess-IsJust floats found assessed assess_runs
