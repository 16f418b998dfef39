-- ===== src/Examples/Acceptances.antt =====
-- The validators of acceptance reports at reports that are accepted.
use customs_buyer_intelligen.Prelude.{
  ℕ, String, true, false, List, [], ◌∷◌, some, none, ◌≡◌, refl, ◌↔◌,
}
use customs_buyer_intelligen.Python.{
  Value, bool, int, str, arr, obj, Items, nil, cons, Fields, field, end, ℤ, pos, get, ok,
  equals_str, is_bool, eqb_ℤ, is_lower_hex, or_str,
}
use customs_buyer_intelligen.Chain.{zeros}
use customs_buyer_intelligen.Acceptance.Scenarios.{
  Report, dict_of, rows_in, int_or_zero, all_judged, lower_text, judged, is_sha256, named,
  is_case_set, are_known, name_of, are_there, are_single,
}
use customs_buyer_intelligen.Acceptance.Recovery.{
  required_cases, recovery_report, validate_recovery, IsRecovered, validate_recovery-IsRecovered,
}
use customs_buyer_intelligen.Acceptance.Correlation.{
  correlation_scenarios, correlation_report, is_drifted, validate_correlation, IsCorrelated,
  validate_correlation-IsCorrelated,
}
use customs_buyer_intelligen.Acceptance.Overlay.{
  overlay_scenarios, overlay_report, is_other, validate_overlay, IsOverlaid,
  validate_overlay-IsOverlaid,
}
use customs_buyer_intelligen.Examples.Codec.{naturals}

abbrev scenario_items : (String → Value ℕ) → List String → Items ℕ
scenario_items row [] = nil
scenario_items row (name ∷ names) = cons (row name) (scenario_items row names)

abbrev case_row : String → Value ℕ
case_row name = obj (
    field "case" (str name)
      (field "passed" (bool true) (field "reexecute_side_effect" (bool false) end)))

abbrev recovered : Value ℕ
recovered = obj (
    field "schema" (str "cbi.v63-recovery-acceptance.v1") (
      field "execution_origin" (str "LIVE_PRODUCTION_CHECKOUT") (
        field "adapter_path_exercised" (str "ACTIVE_PRODUCTION_SERVER_V61_RECOVERY_PATH") (
          field "reference_runner_only" (bool false) (
            field "production_source_snapshot_sha256" (str zeros) (
              field "cases" (arr (scenario_items case_row required_cases))
                (field "passed" (bool true) (field "case_count" (int (pos 10)) end))))))))

abbrev accepted : ℕ → Report
accepted n = record { verified = true; passed_count = n; snapshot = zeros; blockers = [] }

recovered-accepted : validate_recovery recovered zeros ≡ ok (accepted 10)
unfolding validate_recovery recovery_report int_or_zero eqb_ℤ dict_of rows_in get equals_str
    all_judged lower_text is_bool judged is_sha256 named is_case_set are_known name_of are_there
    are_single
recovered-accepted = refl

validate_recovery-IsRecovered_example :
    (payload : Fields ℕ) × (rows : List (Fields ℕ)) × (failed_count : ℤ) × (case_count : ℤ)
    × (dict_of recovered ≡ ok payload)
    × (rows_in (get "cases" payload) ≡ ok rows)
    × (int_or_zero (get "failed_count" payload) ≡ ok failed_count)
    × (int_or_zero (get "case_count" payload) ≡ ok case_count)
    × (((accepted 10).verified ≡ true) ↔ (
        IsRecovered payload zeros rows failed_count case_count × ((accepted 10).passed_count ≡ 10)))
validate_recovery-IsRecovered_example =
    validate_recovery-IsRecovered recovered zeros (accepted 10) recovered-accepted

abbrev scenario_row : String → Value ℕ
scenario_row name = obj (
    field "scenario" (str name) (
      field "status" (str "PASS") (
        field "reexecute_side_effect" (bool false) (
          field "exact_correlation_proven" (bool true) (
            field "exact_request_hash_proven" (bool true) (
              field "cross_key_result_claimed" (bool false) (
                field "active_overlay_handler_exercised" (bool true)
                  (field "exact_result_snapshot_proven" (bool true) end))))))))

abbrev correlated : Value ℕ
correlated = obj (
    field "schema" (str "cbi.v63-backend-correlation-acceptance.v1") (
      field "adapter_path_exercised" (str "EXISTING_PRODUCTION_INVOKE_MUTATION") (
        field "runtime_store_exercised" (str "EXISTING_PRODUCTION_APPEND_ONLY_STORE") (
          field "production_source_snapshot_sha256" (str zeros)
            (field "scenarios" (arr (scenario_items scenario_row correlation_scenarios)) end)))))

correlated-accepted : validate_correlation correlated (some zeros) ≡ ok (accepted 10)
unfolding validate_correlation correlation_report is_drifted is_lower_hex dict_of rows_in get
    equals_str all_judged lower_text is_bool judged is_sha256 named is_case_set are_known name_of
    are_there are_single
correlated-accepted = refl

validate_correlation-IsCorrelated_example :
    (payload : Fields ℕ) × (rows : List (Fields ℕ)) × (dict_of correlated ≡ ok payload)
    × (rows_in (get "scenarios" payload) ≡ ok rows)
    × (((accepted 10).verified ≡ true)
        ↔ (IsCorrelated payload (some zeros) rows × ((accepted 10).passed_count ≡ 10)))
validate_correlation-IsCorrelated_example =
    validate_correlation-IsCorrelated correlated (some zeros) (accepted 10) correlated-accepted

abbrev overlaid : Value ℕ
overlaid = obj (
    field "schema" (str "cbi.v63-recovery-overlay-acceptance.v1") (
      field "active_overlay_path_exercised" (str "ACTIVE_PRODUCTION_SERVER_V61_OVERLAY_CHAIN") (
        field "reference_runner_only" (bool false) (
          field "production_source_snapshot_sha256" (str zeros) (
            field "recovery_registry_name" (str "RECOVERY")
              (field "scenarios" (arr (scenario_items scenario_row overlay_scenarios)) end))))))

overlaid-accepted : validate_overlay overlaid (some zeros) none (some "RECOVERY") ≡ ok (accepted 7)
unfolding validate_overlay overlay_report is_drifted is_other or_str dict_of rows_in get equals_str
    all_judged lower_text is_bool judged is_sha256 named is_case_set are_known name_of are_there
    are_single
overlaid-accepted = refl

validate_overlay-IsOverlaid_example :
    (payload : Fields ℕ) × (rows : List (Fields ℕ)) × (dict_of overlaid ≡ ok payload)
    × (rows_in (get "scenarios" payload) ≡ ok rows)
    × (((accepted 7).verified ≡ true) ↔ (
        IsOverlaid payload (some zeros) none (some "RECOVERY") rows
        × ((accepted 7).passed_count ≡ 7)))
validate_overlay-IsOverlaid_example =
    validate_overlay-IsOverlaid overlaid (some zeros) none (some "RECOVERY") (accepted 7)
      overlaid-accepted
