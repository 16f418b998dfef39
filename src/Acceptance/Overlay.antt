-- ===== src/Acceptance/Overlay.antt =====
-- recovery_overlay_acceptance_v63.py: when the report of the recovery overlay is verified.
use customs_buyer_intelligen.Prelude.{
  String, Option, none, some, Bool, true, false, not, ◌&&◌, List, [], ◌∷◌, ◌≡◌, refl, ◌↔◌, ◌==◌,
}
use customs_buyer_intelligen.Python.{
  Value, bool, str, Fields, Host, or_str, get, equals_str, is_bool, Outcome, ok, ◌>>=◌, >>=-eq-ok,
}
use customs_buyer_intelligen.Acceptance.Scenarios.{
  Judge, Report, dict_of, rows_in, lower_text, is_sha256, whole_report,
}
use customs_buyer_intelligen.Acceptance.Covering.{Covers, whole_report-verified, whole_report-count}
use customs_buyer_intelligen.Acceptance.Correlation.{is_drifted, IsExpected, is_drifted-IsExpected}
use customs_buyer_intelligen.Acceptance.Tests.{
  str_of, of_str, bool_of, of_bool, holds_of, of_holds, same_of, of_same,
}

abbrev pub overlay_scenarios : List String
overlay_scenarios =
    "CANDIDATE_EXACT_EVENT_RECOVERS" ∷ "CANDIDATE_WRONG_CORRELATION_FAILS_CLOSED"
    ∷ "OPPORTUNITY_EXACT_SNAPSHOT_RECOVERS" ∷ "OPPORTUNITY_SNAPSHOT_HASH_MISMATCH_FAILS_CLOSED"
    ∷ "ANCHOR_EXACT_EVENT_RECOVERS" ∷ "AMBIGUOUS_EVENT_FAILS_CLOSED"
    ∷ "RAW_IDEMPOTENCY_KEY_REJECTED" ∷ []

ok_injective : {a b : Report} → ok a ≡ ok b → a ≡ b
ok_injective h = cc

-- The registry is another than the expected one, where one is expected.
unfoldable pub is_other : String → Option String → Bool
is_other name none = false
is_other name (some expected) = not (name == expected)

-- It is the expected one.
unfoldable pub IsNamed : String → Option String → Type 0
IsNamed name none = Unit
IsNamed name (some expected) = name ≡ expected

is_other-IsNamed :
    (name : String) (expected : Option String)
    → (is_other name expected ≡ false) ↔ IsNamed name expected
unfolding is_other IsNamed
is_other-IsNamed name none = (λ _. tt, λ _. refl)
is_other-IsNamed name (some expected) = (λ h. same_of h, λ h. of_same h)

module _ {F : Type 0} ⦃py : Host F⦄ where
  abbrev pub overlay_judge : Judge F
  overlay_judge = record {
    passes = λ row. equals_str (get "status" row) "PASS";
    failure = "RECOVERY_OVERLAY_SCENARIO_FAILED";
    proofs = λ name row.
        (
          not (is_bool (get "active_overlay_handler_exercised" row) true),
          "ACTIVE_RECOVERY_HANDLER_NOT_EXERCISED",
        )
        ∷ (
          not (is_bool (get "reexecute_side_effect" row) false),
          "SIDE_EFFECT_REEXECUTION_OBSERVED",
        )
        ∷ (not (is_bool (get "exact_correlation_proven" row) true), "EXACT_CORRELATION_NOT_PROVEN")
        ∷ (
          not (is_bool (get "exact_request_hash_proven" row) true),
          "EXACT_REQUEST_HASH_NOT_PROVEN",
        )
        ∷ (
          name == "OPPORTUNITY_EXACT_SNAPSHOT_RECOVERS"
              && not (is_bool (get "exact_result_snapshot_proven" row) true),
          "EXACT_RESULT_SNAPSHOT_NOT_PROVEN",
        )
        ∷ [];
  }

  abbrev pub overlay_checks :
      Fields F → Option String → Option String → Option String → List (Bool × String)
  overlay_checks payload expected file name =
      (
        not (equals_str (get "schema" payload) "cbi.v63-recovery-overlay-acceptance.v1"),
        "RECOVERY_OVERLAY_ACCEPTANCE_SCHEMA_INVALID",
      )
      ∷ (
        not (
            equals_str (get "active_overlay_path_exercised" payload)
              "ACTIVE_PRODUCTION_SERVER_V61_OVERLAY_CHAIN"),
        "ACTIVE_PRODUCTION_RECOVERY_OVERLAY_NOT_EXERCISED",
      )
      ∷ (
        not (is_bool (get "reference_runner_only" payload) false),
        "REFERENCE_RECOVERY_RUNNER_IS_NOT_LIVE_OVERLAY_PROOF",
      )
      ∷ (
        not (is_sha256 py.tables (lower_text (get "production_source_snapshot_sha256" payload))),
        "PRODUCTION_SOURCE_SNAPSHOT_INVALID",
      )
      ∷ (
        is_drifted py.tables (lower_text (get "production_source_snapshot_sha256" payload))
            expected,
        "PRODUCTION_SOURCE_SNAPSHOT_MISMATCH",
      )
      ∷ (
        is_other (or_str "" (get "recovery_registry_file" payload)) file,
        "RECOVERY_REGISTRY_MISMATCH",
      )
      ∷ (
        is_other (or_str "" (get "recovery_registry_name" payload)) name,
        "RECOVERY_REGISTRY_MISMATCH",
      )
      ∷ []

  unfoldable pub overlay_report :
      Fields F → Option String → Option String → Option String → List (Fields F) → Report
  unfolding whole_report
  overlay_report payload expected file name rows =
      whole_report "scenario" overlay_judge overlay_scenarios rows
        (lower_text (get "production_source_snapshot_sha256" payload))
        (overlay_checks payload expected file name) "RECOVERY_OVERLAY_SCENARIOS_INCOMPLETE" []

  -- `validate_v63_recovery_overlay_acceptance`
  unfoldable pub validate_overlay :
      Value F → Option String → Option String → Option String → Outcome Report
  validate_overlay report expected file name = do
    payload ← dict_of report
    rows ← rows_in (get "scenarios" payload)
    ok (overlay_report payload expected file name rows)

  -- What is accepted.
  unfoldable pub IsOverlaid :
      Fields F → Option String → Option String → Option String → List (Fields F) → Type 0
  IsOverlaid payload expected file name rows =
      (get "schema" payload ≡ str "cbi.v63-recovery-overlay-acceptance.v1")
      × (get "active_overlay_path_exercised" payload
          ≡ str "ACTIVE_PRODUCTION_SERVER_V61_OVERLAY_CHAIN")
      × (get "reference_runner_only" payload ≡ bool false)
      × (is_sha256 py.tables (lower_text (get "production_source_snapshot_sha256" payload)) ≡ true)
      × IsExpected py.tables (lower_text (get "production_source_snapshot_sha256" payload)) expected
      × IsNamed (or_str "" (get "recovery_registry_file" payload)) file
      × IsNamed (or_str "" (get "recovery_registry_name" payload)) name
      × Covers "scenario" overlay_judge overlay_scenarios rows

  overlay_report-IsOverlaid :
      (payload : Fields F) (expected file name : Option String) (rows : List (Fields F))
      → ((overlay_report payload expected file name rows).verified ≡ true)
        ↔ IsOverlaid payload expected file name rows
  unfolding overlay_report IsOverlaid
  overlay_report-IsOverlaid payload expected file name rows =
      let drift =
        is_drifted-IsExpected py.tables
          (lower_text (get "production_source_snapshot_sha256" payload)) expected in
      let of_file = is_other-IsNamed (or_str "" (get "recovery_registry_file" payload)) file in
      let of_name = is_other-IsNamed (or_str "" (get "recovery_registry_name" payload)) name in
      let both =
        whole_report-verified "scenario" overlay_judge overlay_scenarios rows
          (lower_text (get "production_source_snapshot_sha256" payload))
          (overlay_checks payload expected file name) "RECOVERY_OVERLAY_SCENARIOS_INCOMPLETE" [] in
      (
        λ h.
            let ((a, (b, (c, (d, (e, (f, (g, _))))))), covers, _) = both.0 h in
            (
              str_of a,
              str_of b,
              bool_of c,
              holds_of d,
              drift.0 e,
              of_file.0 f,
              of_name.0 g,
              covers,
            ),
        λ (a, b, c, d, e, f, g, covers). both.1 (
          (
            of_str a,
            (of_str b, (of_bool c, (of_holds d, (drift.1 e, (of_file.1 f, (of_name.1 g, tt)))))),
          ),
          covers,
          tt,
        ),
      )

  of_report :
      (payload : Fields F) (expected file name : Option String) (rows : List (Fields F))
      (out : Report)
      → overlay_report payload expected file name rows ≡ out
      → ((out.verified ≡ true)
          ↔ (IsOverlaid payload expected file name rows × (out.passed_count ≡ 7)))
  unfolding overlay_report
  of_report payload expected file name rows out h = rw (← h) (
    λ k. (
      (overlay_report-IsOverlaid payload expected file name rows).0 k,
      whole_report-count "scenario" overlay_judge overlay_scenarios rows
          (lower_text (get "production_source_snapshot_sha256" payload))
          (overlay_checks payload expected file name) "RECOVERY_OVERLAY_SCENARIOS_INCOMPLETE" [] k,
    ),
    λ k. (overlay_report-IsOverlaid payload expected file name rows).1 k.0,
  )

  -- Where a report is validated, it is verified exactly when it says that it went through the active
  -- overlay and not the reference runner, of a source snapshot, a registry's file and a registry's name
  -- that are the expected ones where they are expected; and its rows are one for each required
  -- scenario and for nothing else that has a name, each passed through the active handler, with the
  -- correlation, the request's hash and, of the one that needs it, the snapshot proven, and no side
  -- effect run again, and seven are counted.
  pub validate_overlay-IsOverlaid :
      (report : Value F) (expected file name : Option String) (out : Report)
      → validate_overlay report expected file name ≡ ok out
      → (payload : Fields F) × (rows : List (Fields F)) × (dict_of report ≡ ok payload)
        × (rows_in (get "scenarios" payload) ≡ ok rows)
        × ((out.verified ≡ true)
            ↔ (IsOverlaid payload expected file name rows × (out.passed_count ≡ 7)))
  unfolding validate_overlay
  validate_overlay-IsOverlaid report expected file name out h =
      let (payload, p, h1) = >>=-eq-ok (dict_of report) _ h in
      let (rows, q, h2) = >>=-eq-ok (rows_in (get "scenarios" payload)) _ h1 in
      let exactly = of_report payload expected file name rows out (ok_injective h2) in
      (payload, rows, p, q, exactly)
