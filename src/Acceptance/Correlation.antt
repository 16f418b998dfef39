-- ===== src/Acceptance/Correlation.antt =====
-- backend_correlation_acceptance_v63.py: when the report of the backend's correlation is verified.
use customs_buyer_intelligen.Prelude.{
  String, Option, none, some, Bool, true, false, not, List, [], ◌∷◌, ◌≡◌, refl, ◌↔◌, ◌==◌,
}
use customs_buyer_intelligen.Python.{
  Value, str, Fields, Host, Tables, is_lower_hex, get, equals_str, is_bool, lower, Outcome, ok,
  ◌>>=◌, >>=-eq-ok,
}
use customs_buyer_intelligen.Acceptance.Scenarios.{
  Judge, Report, dict_of, rows_in, lower_text, whole_report,
}
use customs_buyer_intelligen.Acceptance.Covering.{Covers, whole_report-verified, whole_report-count}
use customs_buyer_intelligen.Acceptance.Tests.{str_of, of_str, holds_of, of_holds, same_of, of_same}

abbrev pub correlation_scenarios : List String
correlation_scenarios =
    "CANDIDATE_SUCCESS_EVENT_CORRELATED" ∷ "CANDIDATE_RECOVERY_NO_REEXECUTION"
    ∷ "OPPORTUNITY_SUCCESS_SNAPSHOT_CORRELATED" ∷ "OPPORTUNITY_RECOVERY_EXACT_SNAPSHOT"
    ∷ "ANCHOR_SUCCESS_EVENT_CORRELATED" ∷ "ANCHOR_RECOVERY_NO_REEXECUTION"
    ∷ "WRONG_CORRELATION_FAILS_CLOSED" ∷ "WRONG_REQUEST_HASH_FAILS_CLOSED"
    ∷ "AMBIGUOUS_DUPLICATE_EVENT_FAILS_CLOSED" ∷ "DIFFERENT_KEY_CANNOT_CLAIM_RESULT" ∷ []

ok_injective : {a b : Report} → ok a ≡ ok b → a ≡ b
ok_injective h = cc

-- The snapshot is another than the expected one, where one is expected.
unfoldable pub is_drifted : Tables → String → Option String → Bool
unfolding lower
is_drifted tables snapshot none = false
is_drifted tables snapshot (some expected) = not (snapshot == lower tables expected)

-- It is the expected one.
unfoldable pub IsExpected : Tables → String → Option String → Type 0
IsExpected tables snapshot none = Unit
IsExpected tables snapshot (some expected) = snapshot ≡ lower tables expected

pub is_drifted-IsExpected :
    (tables : Tables) (snapshot : String) (expected : Option String)
    → (is_drifted tables snapshot expected ≡ false) ↔ IsExpected tables snapshot expected
unfolding is_drifted IsExpected
is_drifted-IsExpected tables snapshot none = (λ _. tt, λ _. refl)
is_drifted-IsExpected tables snapshot (some expected) = (λ h. same_of h, λ h. of_same h)

module _ {F : Type 0} ⦃py : Host F⦄ where
  abbrev pub correlation_judge : Judge F
  correlation_judge = record {
    passes = λ row. equals_str (get "status" row) "PASS";
    failure = "BACKEND_CORRELATION_SCENARIO_FAILED";
    proofs = λ name row.
        (not (is_bool (get "reexecute_side_effect" row) false), "SIDE_EFFECT_REEXECUTION_OBSERVED")
        ∷ (not (is_bool (get "exact_correlation_proven" row) true), "EXACT_CORRELATION_NOT_PROVEN")
        ∷ (
          not (is_bool (get "exact_request_hash_proven" row) true),
          "EXACT_REQUEST_HASH_NOT_PROVEN",
        )
        ∷ (
          not (is_bool (get "cross_key_result_claimed" row) false),
          "CROSS_KEY_RESULT_CLAIMING_OBSERVED",
        )
        ∷ [];
  }

  abbrev pub correlation_checks : Fields F → Option String → List (Bool × String)
  correlation_checks payload expected =
      (
        not (equals_str (get "schema" payload) "cbi.v63-backend-correlation-acceptance.v1"),
        "BACKEND_CORRELATION_SCHEMA_INVALID",
      )
      ∷ (
        not (
            equals_str (get "adapter_path_exercised" payload)
              "EXISTING_PRODUCTION_INVOKE_MUTATION"),
        "PRODUCTION_ADAPTER_NOT_EXERCISED",
      )
      ∷ (
        not (
            equals_str (get "runtime_store_exercised" payload)
              "EXISTING_PRODUCTION_APPEND_ONLY_STORE"),
        "PRODUCTION_DURABLE_STORE_NOT_EXERCISED",
      )
      ∷ (
        not (is_lower_hex 64 (lower_text (get "production_source_snapshot_sha256" payload))),
        "PRODUCTION_SOURCE_SNAPSHOT_INVALID",
      )
      ∷ (
        is_drifted py.tables (lower_text (get "production_source_snapshot_sha256" payload))
            expected,
        "PRODUCTION_SOURCE_SNAPSHOT_MISMATCH",
      )
      ∷ []

  unfoldable pub correlation_report : Fields F → Option String → List (Fields F) → Report
  unfolding whole_report
  correlation_report payload expected rows =
      whole_report "scenario" correlation_judge correlation_scenarios rows
        (lower_text (get "production_source_snapshot_sha256" payload))
        (correlation_checks payload expected) "BACKEND_CORRELATION_SCENARIOS_INCOMPLETE" []

  -- `validate_v63_backend_correlation_acceptance`
  unfoldable pub validate_correlation : Value F → Option String → Outcome Report
  validate_correlation report expected = do
    payload ← dict_of report
    rows ← rows_in (get "scenarios" payload)
    ok (correlation_report payload expected rows)

  -- What is accepted.
  unfoldable pub IsCorrelated : Fields F → Option String → List (Fields F) → Type 0
  IsCorrelated payload expected rows =
      (get "schema" payload ≡ str "cbi.v63-backend-correlation-acceptance.v1")
      × (get "adapter_path_exercised" payload ≡ str "EXISTING_PRODUCTION_INVOKE_MUTATION")
      × (get "runtime_store_exercised" payload ≡ str "EXISTING_PRODUCTION_APPEND_ONLY_STORE")
      × (is_lower_hex 64 (lower_text (get "production_source_snapshot_sha256" payload)) ≡ true)
      × IsExpected py.tables (lower_text (get "production_source_snapshot_sha256" payload)) expected
      × Covers "scenario" correlation_judge correlation_scenarios rows

  correlation_report-IsCorrelated :
      (payload : Fields F) (expected : Option String) (rows : List (Fields F))
      → ((correlation_report payload expected rows).verified ≡ true)
        ↔ IsCorrelated payload expected rows
  unfolding correlation_report IsCorrelated
  correlation_report-IsCorrelated payload expected rows =
      let drift =
        is_drifted-IsExpected py.tables
          (lower_text (get "production_source_snapshot_sha256" payload)) expected in
      let both =
        whole_report-verified "scenario" correlation_judge correlation_scenarios rows
          (lower_text (get "production_source_snapshot_sha256" payload))
          (correlation_checks payload expected) "BACKEND_CORRELATION_SCENARIOS_INCOMPLETE" [] in
      (
        λ h.
            let ((a, (b, (c, (d, (e, _))))), covers, _) = both.0 h in
            (str_of a, str_of b, str_of c, holds_of d, drift.0 e, covers),
        λ (a, b, c, d, e, covers).
            both.1 ((of_str a, (of_str b, (of_str c, (of_holds d, (drift.1 e, tt))))), covers, tt),
      )

  of_report :
      (payload : Fields F) (expected : Option String) (rows : List (Fields F)) (out : Report)
      → correlation_report payload expected rows ≡ out
      → ((out.verified ≡ true) ↔ (IsCorrelated payload expected rows × (out.passed_count ≡ 10)))
  unfolding correlation_report
  of_report payload expected rows out h = rw (← h) (
    λ k. (
      (correlation_report-IsCorrelated payload expected rows).0 k,
      whole_report-count "scenario" correlation_judge correlation_scenarios rows
          (lower_text (get "production_source_snapshot_sha256" payload))
          (correlation_checks payload expected) "BACKEND_CORRELATION_SCENARIOS_INCOMPLETE" [] k,
    ),
    λ k. (correlation_report-IsCorrelated payload expected rows).1 k.0,
  )

  -- Where a report is validated, it is verified exactly when it says that it went through the
  -- production adapter to the production store, of a source snapshot that is the expected one where
  -- one is expected; and its rows are one for each required scenario and for nothing else that has a
  -- name, each passed, with the correlation and the request's hash proven, no side effect run again
  -- and no other key's result claimed, and ten are counted.
  pub validate_correlation-IsCorrelated :
      (report : Value F) (expected : Option String) (out : Report)
      → validate_correlation report expected ≡ ok out
      → (payload : Fields F) × (rows : List (Fields F)) × (dict_of report ≡ ok payload)
        × (rows_in (get "scenarios" payload) ≡ ok rows)
        × ((out.verified ≡ true) ↔ (IsCorrelated payload expected rows × (out.passed_count ≡ 10)))
  unfolding validate_correlation
  validate_correlation-IsCorrelated report expected out h =
      let (payload, p, h1) = >>=-eq-ok (dict_of report) _ h in
      let (rows, q, h2) = >>=-eq-ok (rows_in (get "scenarios" payload)) _ h1 in
      let exactly = of_report payload expected rows out (ok_injective h2) in
      (payload, rows, p, q, exactly)
