-- ===== src/Production/Gate.antt =====
-- production_gate_v63.py: `evaluate_v63_production_gate`.
use customs_buyer_intelligen.Prelude.{
  ℕ, ◌+◌, String, Bool, true, false, not, ◌&&◌, ◌||◌, List, [], ◌∷◌, map, is_empty, raised_by, ◌⊕◌,
  eqb, ◌==◌, if◌then◌else◌,
}
use customs_buyer_intelligen.Python.{
  Value, bool, obj, Fields, end, field, Host, ℤ, pos, eqb_ℤ, get, get_or, truthy, to_str, or_str,
  equals_str, is_bool, Outcome, ok, ◌>>=◌,
}
use customs_buyer_intelligen.Gates.Values.{listed}
use customs_buyer_intelligen.Acceptance.Scenarios.{int_or_zero, lower_text}
use customs_buyer_intelligen.Production.Live.{
  Live, missing_from, in_both, is_object, dict_at, validate_live,
}

-- `V63_MUTATION_TOOL_NAMES`
abbrev pub mutation_tools : List String
mutation_tools =
    "append_candidate_discovery" ∷ "create_product_opportunity" ∷ "promote_opportunity_anchor" ∷ []

-- Sorted, `V63_READ_ONLY_TOOL_NAMES` and `V63_MUTATION_TOOL_NAMES`.
abbrev pub active_tools : List String
active_tools =
    "append_candidate_discovery" ∷ "assess_candidate_researchability" ∷ "create_product_opportunity"
    ∷ "derive_demand_anchor" ∷ "evaluate_capability_fit" ∷ "evaluate_expansion_saturation"
    ∷ "evaluate_product_opportunity" ∷ "evaluate_relative_opportunity" ∷ "evaluate_route_reuse"
    ∷ "evaluate_sales_readiness" ∷ "get_capability_profile" ∷ "get_portfolio_metrics"
    ∷ "get_product_profiles" ∷ "plan_candidate_expansion" ∷ "plan_contact_exhaustion"
    ∷ "plan_local_context_resolution" ∷ "plan_local_outreach" ∷ "preview_customs_seed_expansion"
    ∷ "preview_recursive_anchor_expansion" ∷ "project_legacy_peer_receipt"
    ∷ "promote_opportunity_anchor" ∷ "rank_candidate_research_queue" ∷ "schedule_expansion_research"
    ∷ []

-- `V63_PRODUCTION_RECOVERY_MAPPINGS[tool]["recovery_family"]`, by the sorted tools.
abbrev pub recovery_families : List (String × String)
recovery_families =
    ("append_candidate_discovery", "PEER_PIVOT_LIFECYCLE")
    ∷ ("create_product_opportunity", "CANONICAL_OPPORTUNITY_CREATE")
    ∷ ("promote_opportunity_anchor", "PEER_PIVOT_LIFECYCLE")
    ∷ []

-- `len(text)`
unfoldable pub count_chars : String → ℕ
count_chars String.[] = 0
count_chars (String.◌∷◌ c s) = 1 + count_chars s

-- Two snapshots that are no pair of equal digests.
unfoldable pub is_source_drift : String → String → Bool
unfolding count_chars
is_source_drift acceptance current =
    not (eqb (count_chars acceptance) 64)
    || not (eqb (count_chars current) 64)
    || not (acceptance == current)

-- The two branches on the recovery mapping.
pub data MappingState : Type 0 where
  incomplete : MappingState
  compared : (invalid : Bool) → MappingState

abbrev pub is_incomplete : MappingState → Bool
is_incomplete incomplete = true
is_incomplete (compared _) = false

abbrev pub is_invalid_mapping : MappingState → Bool
is_invalid_mapping incomplete = false
is_invalid_mapping (compared invalid) = invalid

-- The result, less the fields that repeat what was read.
pub record Gate : Type 0 where
  pub production_ready : Bool
  pub blockers : List String
  pub missing_active_mcp_tools : List String
  pub live : Live

-- What is read of the payload.
pub record Evidence (F : Type 0) : Type 0 where
  pub contract : Fields F
  pub wal : Fields F
  pub live : Live
  pub v63 : Fields F
  pub active : List String
  pub prepared_count : ℤ
  pub guarded : List String
  pub automatic : List String
  pub unreconciled : List String
  pub v63_wal : Fields F
  pub mapping : MappingState

module _ {F : Type 0} ⦃py : Host F⦄ where
  -- `{str(v) for v in (value or [])}`
  unfoldable pub texts_in : Value F → Outcome (List String)
  unfolding listed to_str
  texts_in v = do values ← listed v; ok (map to_str values)

  unfoldable pub key_names : Fields F → List String
  key_names end = []
  key_names (field k v fs) = k ∷ key_names fs

  -- The loop that stops at the first family that is not the expected one.
  unfoldable pub has_other_family : List (String × String) → Fields F → Outcome Bool
  unfolding dict_at equals_str get
  has_other_family [] mapping = ok false
  has_other_family ((tool, family) ∷ families) mapping = do
    actual ← dict_at tool mapping
    if not (equals_str (get "recovery_family" actual) family)
        then ok true
        else has_other_family families mapping

  unfoldable pub mapping_state : Fields F → Outcome MappingState
  unfolding missing_from key_names has_other_family
  mapping_state mapping =
      if not (
        is_empty (missing_from (key_names mapping) mutation_tools)
        && is_empty (missing_from mutation_tools (key_names mapping)))
      then ok incomplete
      else do invalid ← has_other_family recovery_families mapping; ok (compared invalid)

  abbrev pub object_or_empty : Value F → Fields F
  object_or_empty (obj fs) = fs
  object_or_empty _ = end

  unfoldable pub gather : Fields F → Outcome (Evidence F)
  gather payload = do
    health ← dict_at "health" payload
    contract ← dict_at "contract" payload
    wal ← dict_at "mutation_wal" health
    live ← validate_live health contract
    active ← texts_in (get "active_mcp_tool_names" payload)
    prepared_count ← int_or_zero (get "prepared_count" wal)
    guarded ← texts_in (get "guarded_mutation_tools" wal)
    automatic ← texts_in (get "automatic_reconciliation_tools" wal)
    unreconciled ← texts_in (get "unreconciled_mutation_tools" wal)
    let v63 = object_or_empty (get "demand_expansion_v6_3" contract)
    v63_wal ← dict_at "mutation_wal_v6_3" v63
    recovery_mapping ← dict_at "production_recovery_mapping_v6_3" v63
    mapping ← mapping_state recovery_mapping
    ok (record {
      contract = contract;
      wal = wal;
      live = live;
      v63 = v63;
      active = active;
      prepared_count = prepared_count;
      guarded = guarded;
      automatic = automatic;
      unreconciled = unreconciled;
      v63_wal = v63_wal;
      mapping = mapping;
    })

  unfoldable pub is_backend_policy_safe : Fields F → Bool
  unfolding or_str get is_bool
  is_backend_policy_safe v63 =
      or_str "" (get "runtime_durable_backend_schema" v63)
        == "cbi.v63-production-durable-backend.v1"
      && is_bool (get "runtime_durable_backend_parallel_store_allowed" v63) false
      && is_bool (get "runtime_durable_backend_requires_existing_mutation_correlation" v63) true
      && is_bool (get "runtime_durable_backend_raw_idempotency_key_persisted" v63) false
      && is_bool (get "runtime_durable_backend_side_effect_reexecution_allowed" v63) false

  -- The tests, in the order in which their blockers are added: the deployment's,
  abbrev pub runtime_checks : Evidence F → List (Bool × String)
  runtime_checks e =
      (not e.live.ready, "LIVE_PHASE_B_PRECONDITIONS_FAILED")
      ∷ (
        not (is_object (get "research_orchestration_v6_2" e.contract)),
        "V62_ORCHESTRATION_NOT_LIVE",
      )
      ∷ (not (is_object (get "demand_expansion_v6_3" e.contract)), "V63_DEMAND_EXPANSION_NOT_LIVE")
      ∷ (not (is_empty (missing_from e.active active_tools)), "V63_ACTIVE_MCP_SURFACE_INCOMPLETE")
      ∷ (not (eqb_ℤ e.prepared_count (pos 0)), "MUTATION_WAL_PREPARED_INTENTS")
      ∷ (truthy (get "reconciliation_required" e.wal), "MUTATION_WAL_RECONCILIATION_REQUIRED")
      ∷ (
        not (is_empty (missing_from e.guarded mutation_tools)),
        "V63_MUTATION_WAL_INVENTORY_INCOMPLETE",
      )
      ∷ (
        not (is_empty (missing_from e.automatic mutation_tools)),
        "V63_AUTOMATIC_RECONCILIATION_INVENTORY_INCOMPLETE",
      )
      ∷ (
        not (is_empty (in_both mutation_tools e.unreconciled)),
        "V63_MUTATION_RECONCILIATION_INCOMPLETE",
      )
      ∷ (
        not (truthy (get "exact_automatic_reconciliation_complete" e.wal)),
        "EXACT_AUTOMATIC_RECONCILIATION_INCOMPLETE",
      )
      ∷ []

  -- those of its bindings,
  abbrev pub binding_checks : Evidence F → List (Bool × String)
  binding_checks e =
      (
        not (
            or_str "" (get "runtime_overlay_mutation_binding" e.v63)
            == "BOUND_EXISTING_PRODUCTION_WAL"),
        "V63_PRODUCTION_WAL_NOT_BOUND",
      )
      ∷ (
        not (
            or_str "" (get "recovery_overlay_binding" e.v63)
            == "BOUND_ACTIVE_PRODUCTION_OVERLAY_CHAIN"),
        "V63_RECOVERY_OVERLAY_NOT_BOUND",
      )
      ∷ (
        not (
            or_str "" (get "runtime_durable_backend_binding" e.v63)
            == "BOUND_EXISTING_DURABLE_STORE"),
        "V63_RUNTIME_DURABLE_BACKEND_NOT_BOUND",
      )
      ∷ (not (is_backend_policy_safe e.v63), "V63_RUNTIME_DURABLE_BACKEND_POLICY_UNSAFE")
      ∷ (
        not (equals_str (get "binding_strategy" e.v63_wal) "EXTEND_EXISTING_PRODUCTION_WAL"),
        "V63_WAL_BINDING_STRATEGY_UNPROVEN",
      )
      ∷ (truthy (get_or "parallel_wal_allowed" (bool true) e.v63_wal), "PARALLEL_WAL_NOT_ALLOWED")
      ∷ (is_incomplete e.mapping, "V63_PRODUCTION_RECOVERY_MAPPING_INCOMPLETE")
      ∷ (is_invalid_mapping e.mapping, "V63_PRODUCTION_RECOVERY_MAPPING_INVALID")
      ∷ []

  -- and those of the acceptance reports.
  abbrev pub acceptance_checks : Fields F → List (Bool × String)
  acceptance_checks payload =
      let recovery =
        lower_text (get "live_v63_recovery_overlay_acceptance_snapshot_sha256" payload) in
      let correlation =
        lower_text (get "live_v63_backend_correlation_acceptance_snapshot_sha256" payload) in
      let current = lower_text (get "current_production_source_snapshot_sha256" payload) in
      (
        not (truthy (get "render_r2_pvc_acceptance_verified" payload)),
        "V63_RENDER_R2_PVC_ACCEPTANCE_NOT_VERIFIED",
      )
      ∷ (not (truthy (get "backup_retention_verified" payload)), "BACKUP_RETENTION_NOT_VERIFIED")
      ∷ (
        not (truthy (get "exact_v63_recovery_acceptance_verified" payload)),
        "V63_EXACT_RECOVERY_ACCEPTANCE_NOT_VERIFIED",
      )
      ∷ (
        not (truthy (get "live_v63_backend_correlation_acceptance_verified" payload)),
        "V63_LIVE_BACKEND_CORRELATION_ACCEPTANCE_NOT_VERIFIED",
      )
      ∷ (
        not (truthy (get "live_v63_recovery_overlay_acceptance_verified" payload)),
        "V63_LIVE_RECOVERY_OVERLAY_ACCEPTANCE_NOT_VERIFIED",
      )
      ∷ (is_source_drift correlation current, "V63_BACKEND_CORRELATION_ACCEPTANCE_SOURCE_DRIFT")
      ∷ (is_source_drift recovery current, "V63_RECOVERY_OVERLAY_ACCEPTANCE_SOURCE_DRIFT")
      ∷ []

  unfoldable pub gate_of : Fields F → Evidence F → Gate
  gate_of payload e =
      let blockers =
        raised_by (runtime_checks e)
        ⊕ (raised_by (binding_checks e) ⊕ raised_by (acceptance_checks payload)) in
      record {
        production_ready = is_empty blockers;
        blockers = blockers;
        missing_active_mcp_tools = missing_from e.active active_tools;
        live = e.live;
      }

  -- `evaluate_v63_production_gate`, of a dict.
  unfoldable pub evaluate_gate : Fields F → Outcome Gate
  evaluate_gate payload = do e ← gather payload; ok (gate_of payload e)
