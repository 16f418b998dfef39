-- ===== src/Acceptance/Recovery.antt =====
-- exact_recovery_acceptance_v63.py: when the report of the exact recovery is verified.
use customs_buyer_intelligen.Prelude.{String, Bool, true, false, not, List, [], ◌∷◌, ◌≡◌, ◌↔◌, ◌==◌}
use customs_buyer_intelligen.Python.{
  Value, bool, str, Fields, Host, ℤ, pos, eqb_ℤ, get, equals_str, is_bool, lower, Outcome, ok,
  ◌>>=◌, >>=-eq-ok,
}
use customs_buyer_intelligen.Acceptance.Scenarios.{
  Judge, Report, dict_of, rows_in, int_or_zero, lower_text, is_sha256, whole_report,
}
use customs_buyer_intelligen.Acceptance.Covering.{Covers, whole_report-verified, whole_report-count}
use customs_buyer_intelligen.Acceptance.Tests.{
  str_of, of_str, bool_of, of_bool, holds_of, of_holds, same_of, of_same, number_of, of_number,
}

abbrev pub required_cases : List String
required_cases =
    "candidate_exact_event_recovers" ∷ "candidate_wrong_correlation_fails_closed"
    ∷ "same_payload_different_key_cannot_claim" ∷ "candidate_wrong_request_hash_fails_closed"
    ∷ "duplicate_exact_event_fails_closed" ∷ "opportunity_exact_snapshot_recovers"
    ∷ "opportunity_snapshot_hash_mismatch_fails_closed" ∷ "anchor_exact_event_recovers"
    ∷ "anchor_failed_cycle_gate_fails_closed" ∷ "raw_idempotency_key_persistence_is_rejected" ∷ []

ok_injective : {a b : Report} → ok a ≡ ok b → a ≡ b
ok_injective h = cc

module _ {F : Type 0} ⦃py : Host F⦄ where
  abbrev pub case_judge : Judge F
  case_judge = record {
    passes = λ row. is_bool (get "passed" row) true;
    failure = "EXACT_RECOVERY_ACCEPTANCE_CASE_FAILED";
    proofs = λ name row.
        (
          not (is_bool (get "reexecute_side_effect" row) false),
          "EXACT_RECOVERY_SIDE_EFFECT_REEXECUTION_OBSERVED",
        )
        ∷ [];
  }

  abbrev pub recovery_checks : Fields F → String → List (Bool × String)
  recovery_checks payload expected =
      (
        not (equals_str (get "schema" payload) "cbi.v63-recovery-acceptance.v1"),
        "EXACT_RECOVERY_ACCEPTANCE_SCHEMA_INVALID",
      )
      ∷ (
        not (equals_str (get "execution_origin" payload) "LIVE_PRODUCTION_CHECKOUT"),
        "LIVE_PRODUCTION_EXACT_RECOVERY_NOT_EXERCISED",
      )
      ∷ (
        not (
            equals_str (get "adapter_path_exercised" payload)
              "ACTIVE_PRODUCTION_SERVER_V61_RECOVERY_PATH"),
        "ACTIVE_PRODUCTION_RECOVERY_PATH_NOT_EXERCISED",
      )
      ∷ (
        not (is_bool (get "reference_runner_only" payload) false),
        "REFERENCE_EXACT_RECOVERY_IS_NOT_RELEASE_PROOF",
      )
      ∷ (
        not (is_sha256 py.tables (lower_text (get "production_source_snapshot_sha256" payload))),
        "PRODUCTION_SOURCE_SNAPSHOT_INVALID",
      )
      ∷ (
        not (
            lower_text (get "production_source_snapshot_sha256" payload)
            == lower py.tables expected),
        "PRODUCTION_SOURCE_SNAPSHOT_MISMATCH",
      )
      ∷ []

  abbrev pub recovery_counts : Fields F → ℤ → ℤ → List (Bool × String)
  recovery_counts payload failed_count case_count =
      (not (is_bool (get "passed" payload) true), "EXACT_RECOVERY_ACCEPTANCE_FAILED")
      ∷ (not (eqb_ℤ failed_count (pos 0)), "EXACT_RECOVERY_ACCEPTANCE_HAS_FAILED_CASES")
      ∷ (not (eqb_ℤ case_count (pos 10)), "EXACT_RECOVERY_ACCEPTANCE_CASE_COUNT_INVALID")
      ∷ []

  unfoldable pub recovery_report : Fields F → String → List (Fields F) → ℤ → ℤ → Report
  unfolding whole_report
  recovery_report payload expected rows failed_count case_count =
      whole_report "case" case_judge required_cases rows
        (lower_text (get "production_source_snapshot_sha256" payload))
        (recovery_checks payload expected) "EXACT_RECOVERY_ACCEPTANCE_CASE_SET_INVALID"
        (recovery_counts payload failed_count case_count)

  -- `validate_v63_exact_recovery_acceptance`
  unfoldable pub validate_recovery : Value F → String → Outcome Report
  validate_recovery report expected = do
    payload ← dict_of report
    rows ← rows_in (get "cases" payload)
    failed_count ← int_or_zero (get "failed_count" payload)
    case_count ← int_or_zero (get "case_count" payload)
    ok (recovery_report payload expected rows failed_count case_count)

  -- What is accepted.
  unfoldable pub IsRecovered : Fields F → String → List (Fields F) → ℤ → ℤ → Type 0
  IsRecovered payload expected rows failed_count case_count =
      (get "schema" payload ≡ str "cbi.v63-recovery-acceptance.v1")
      × (get "execution_origin" payload ≡ str "LIVE_PRODUCTION_CHECKOUT")
      × (get "adapter_path_exercised" payload ≡ str "ACTIVE_PRODUCTION_SERVER_V61_RECOVERY_PATH")
      × (get "reference_runner_only" payload ≡ bool false)
      × (is_sha256 py.tables (lower_text (get "production_source_snapshot_sha256" payload)) ≡ true)
      × (lower_text (get "production_source_snapshot_sha256" payload) ≡ lower py.tables expected)
      × Covers "case" case_judge required_cases rows
      × (get "passed" payload ≡ bool true)
      × (failed_count ≡ pos 0)
      × (case_count ≡ pos 10)

  recovery_report-IsRecovered :
      (payload : Fields F) (expected : String) (rows : List (Fields F))
      (failed_count case_count : ℤ)
      → ((recovery_report payload expected rows failed_count case_count).verified ≡ true)
        ↔ IsRecovered payload expected rows failed_count case_count
  unfolding recovery_report IsRecovered
  recovery_report-IsRecovered payload expected rows failed_count case_count =
      let both =
        whole_report-verified "case" case_judge required_cases rows
          (lower_text (get "production_source_snapshot_sha256" payload))
          (recovery_checks payload expected) "EXACT_RECOVERY_ACCEPTANCE_CASE_SET_INVALID"
          (recovery_counts payload failed_count case_count) in
      (
        λ h.
            let ((a, (b, (c, (d, (e, (f, _)))))), covers, (g, (i, (j, _)))) = both.0 h in
            (
              str_of a,
              str_of b,
              str_of c,
              bool_of d,
              holds_of e,
              same_of f,
              covers,
              bool_of g,
              number_of i,
              number_of j,
            ),
        λ (a, b, c, d, e, f, covers, g, i, j). both.1 (
          (of_str a, (of_str b, (of_str c, (of_bool d, (of_holds e, (of_same f, tt)))))),
          covers,
          (of_bool g, (of_number i, (of_number j, tt))),
        ),
      )

  of_report :
      (payload : Fields F) (expected : String) (rows : List (Fields F))
      (failed_count case_count : ℤ) (out : Report)
      → recovery_report payload expected rows failed_count case_count ≡ out
      → ((out.verified ≡ true)
          ↔ (IsRecovered payload expected rows failed_count case_count × (out.passed_count ≡ 10)))
  unfolding recovery_report
  of_report payload expected rows failed_count case_count out h = rw (← h) (
    λ k. (
      (recovery_report-IsRecovered payload expected rows failed_count case_count).0 k,
      whole_report-count "case" case_judge required_cases rows
          (lower_text (get "production_source_snapshot_sha256" payload))
          (recovery_checks payload expected) "EXACT_RECOVERY_ACCEPTANCE_CASE_SET_INVALID"
          (recovery_counts payload failed_count case_count) k,
    ),
    λ k. (recovery_report-IsRecovered payload expected rows failed_count case_count).1 k.0,
  )

  -- Where a report is validated, it is verified exactly when it says of itself that it ran all ten
  -- cases in the live checkout, through the active recovery path and not the reference runner, of the
  -- very source snapshot that is expected, none failing; and its rows are one for each required case
  -- and for nothing else that has a name, each passed with no side effect run again, and ten are
  -- counted.
  pub validate_recovery-IsRecovered :
      (report : Value F) (expected : String) (out : Report)
      → validate_recovery report expected ≡ ok out
      → (payload : Fields F) × (rows : List (Fields F)) × (failed_count : ℤ) × (case_count : ℤ)
        × (dict_of report ≡ ok payload)
        × (rows_in (get "cases" payload) ≡ ok rows)
        × (int_or_zero (get "failed_count" payload) ≡ ok failed_count)
        × (int_or_zero (get "case_count" payload) ≡ ok case_count)
        × ((out.verified ≡ true)
            ↔ (IsRecovered payload expected rows failed_count case_count × (out.passed_count ≡ 10)))
  unfolding validate_recovery
  validate_recovery-IsRecovered report expected out h =
      let (payload, p, h1) = >>=-eq-ok (dict_of report) _ h in
      let (rows, q, h2) = >>=-eq-ok (rows_in (get "cases" payload)) _ h1 in
      let (failed_count, r, h3) = >>=-eq-ok (int_or_zero (get "failed_count" payload)) _ h2 in
      let (case_count, s, h4) = >>=-eq-ok (int_or_zero (get "case_count" payload)) _ h3 in
      let exactly = of_report payload expected rows failed_count case_count out (ok_injective h4) in
      (payload, rows, failed_count, case_count, p, q, r, s, exactly)
