-- ===== src/Examples/Deployments.antt =====
-- The production gate at a deployment that it opens for.
use customs_buyer_intelligen.Prelude.{ℕ, String, true, false, List, [], ◌∷◌, ◌≡◌, refl, ◌↔◌}
use customs_buyer_intelligen.Python.{
  Value, bool, str, arr, obj, Items, nil, cons, Fields, field, end, ok, eqb_ℤ, or_str,
}
use customs_buyer_intelligen.Acceptance.Scenarios.{int_or_zero, lower_text}
use customs_buyer_intelligen.Chain.{zeros}
use customs_buyer_intelligen.Production.Live.{
  Live, Reading, precedent_tools, peer_tools, read_live, validate_live, dict_at, texts_at,
  is_peer_safe, live_of, is_correlation_safe,
}
use customs_buyer_intelligen.Production.Gate.{
  active_tools, Gate, Evidence, gather, evaluate_gate, texts_in, mapping_state, gate_of,
  is_backend_policy_safe, is_source_drift,
}
use customs_buyer_intelligen.Production.Gathering.{IsGathered}
use customs_buyer_intelligen.Production.Bound.{IsBound}
use customs_buyer_intelligen.Production.Accepted.{IsAccepted}
use customs_buyer_intelligen.Production.Opening.{IsRunning, evaluate_gate-opens}
use customs_buyer_intelligen.Production.Seeing.{IsSeen}
use customs_buyer_intelligen.Production.Readiness.{IsLive, validate_live-IsLive}
use customs_buyer_intelligen.Examples.Codec.{naturals}

abbrev dict : List (String × Value ℕ) → Fields ℕ
dict [] = end
dict ((k, v) ∷ kvs) = field k v (dict kvs)

abbrev texts : List String → Items ℕ
texts [] = nil
texts (x ∷ xs) = cons (str x) (texts xs)

abbrev all_guarded : Value ℕ
all_guarded = arr (
    cons (str "append_candidate_discovery") (
      cons (str "create_product_opportunity")
        (cons (str "promote_opportunity_anchor") (texts precedent_tools))))

abbrev health : Fields ℕ
health = dict (
    ("status", str "READY")
    ∷ (
      "mutation_wal",
      obj (
          dict (
            ("guarded_mutation_tools", all_guarded)
            ∷ ("automatic_reconciliation_tools", all_guarded)
            ∷ ("exact_automatic_reconciliation_complete", bool true)
            ∷ [])),
    )
    ∷ ("mutation_event_correlation", obj (dict (("status", str "ENABLED") ∷ [])))
    ∷ (
      "peer_pivot_lifecycle_recovery",
      obj (
          dict (
            ("status", str "ENABLED")
            ∷ ("automatic_reconciliation_tools", arr (texts peer_tools))
            ∷ ("requires_event_correlation", bool true)
            ∷ [])),
    )
    ∷ [])

abbrev mappings : Fields ℕ
mappings = dict (
    (
      "append_candidate_discovery",
      obj (dict (("recovery_family", str "PEER_PIVOT_LIFECYCLE") ∷ [])),
    )
    ∷ (
      "create_product_opportunity",
      obj (dict (("recovery_family", str "CANONICAL_OPPORTUNITY_CREATE") ∷ [])),
    )
    ∷ (
      "promote_opportunity_anchor",
      obj (dict (("recovery_family", str "PEER_PIVOT_LIFECYCLE") ∷ [])),
    )
    ∷ [])

abbrev expansion : Fields ℕ
expansion = dict (
    ("runtime_overlay_mutation_binding", str "BOUND_EXISTING_PRODUCTION_WAL")
    ∷ ("recovery_overlay_binding", str "BOUND_ACTIVE_PRODUCTION_OVERLAY_CHAIN")
    ∷ ("runtime_durable_backend_binding", str "BOUND_EXISTING_DURABLE_STORE")
    ∷ ("runtime_durable_backend_schema", str "cbi.v63-production-durable-backend.v1")
    ∷ ("runtime_durable_backend_parallel_store_allowed", bool false)
    ∷ ("runtime_durable_backend_requires_existing_mutation_correlation", bool true)
    ∷ ("runtime_durable_backend_raw_idempotency_key_persisted", bool false)
    ∷ ("runtime_durable_backend_side_effect_reexecution_allowed", bool false)
    ∷ (
      "mutation_wal_v6_3",
      obj (
          dict (
            ("binding_strategy", str "EXTEND_EXISTING_PRODUCTION_WAL")
            ∷ ("parallel_wal_allowed", bool false)
            ∷ [])),
    )
    ∷ ("production_recovery_mapping_v6_3", obj mappings)
    ∷ [])

abbrev contract : Fields ℕ
contract = dict (
    ("research_orchestration_v6_2", obj end)
    ∷ ("demand_expansion_v6_3", obj expansion)
    ∷ (
      "production_adapter_mutation_wal",
      obj (
          dict (
            (
              "durable_event_correlation",
              obj (
                  dict (
                    ("enabled", bool true)
                    ∷ ("correlation_contains_raw_idempotency_key", bool false)
                    ∷ ("correlation_alone_authorizes_replay", bool false)
                    ∷ [])),
            )
            ∷ ("prepared_auto_replay_without_proof", bool false)
            ∷ ("automatic_reconciliation_requires_durable_proof", bool true)
            ∷ ("exact_automatic_reconciliation_complete", bool true)
            ∷ (
              "peer_pivot_lifecycle_recovery",
              obj (
                  dict (
                    ("enabled", bool true)
                    ∷ ("tools", arr (texts peer_tools))
                    ∷ ("requires_exact_event_correlation", bool true)
                    ∷ ("reexecutes_side_effect", bool false)
                    ∷ [])),
            )
            ∷ [])),
    )
    ∷ [])

abbrev deployment : Fields ℕ
deployment = dict (
    ("health", obj health)
    ∷ ("contract", obj contract)
    ∷ ("active_mcp_tool_names", arr (texts active_tools))
    ∷ ("render_r2_pvc_acceptance_verified", bool true)
    ∷ ("backup_retention_verified", bool true)
    ∷ ("exact_v63_recovery_acceptance_verified", bool true)
    ∷ ("live_v63_backend_correlation_acceptance_verified", bool true)
    ∷ ("live_v63_recovery_overlay_acceptance_verified", bool true)
    ∷ ("live_v63_backend_correlation_acceptance_snapshot_sha256", str zeros)
    ∷ ("live_v63_recovery_overlay_acceptance_snapshot_sha256", str zeros)
    ∷ ("current_production_source_snapshot_sha256", str zeros)
    ∷ [])

abbrev ready : Live
ready = record { ready = true; blockers = []; missing_precedents = [] }

abbrev open_gate : Gate
open_gate = record {
  production_ready = true;
  blockers = [];
  missing_active_mcp_tools = [];
  live = ready;
}

deployment_ready : validate_live health contract ≡ ok ready
unfolding validate_live read_live dict_at int_or_zero texts_at is_peer_safe live_of eqb_ℤ
    is_correlation_safe
deployment_ready = refl

deployment_opens : evaluate_gate deployment ≡ ok open_gate
unfolding evaluate_gate gather validate_live read_live dict_at int_or_zero texts_at is_peer_safe
    live_of eqb_ℤ is_correlation_safe texts_in mapping_state gate_of or_str is_backend_policy_safe
    is_source_drift lower_text
deployment_opens = refl

validate_live-IsLive_example :
    (r : Reading ℕ) × (health_corr : Fields ℕ) × (contract_corr : Fields ℕ) × (health_peer : Fields
      ℕ)
    × (contract_peer : Fields ℕ) × IsSeen health contract r health_corr contract_corr health_peer
        contract_peer
    × ((ready.ready ≡ true)
        ↔ IsLive health contract r health_corr contract_corr health_peer contract_peer)
validate_live-IsLive_example = validate_live-IsLive health contract ready deployment_ready

evaluate_gate-opens_example :
    (e : Evidence ℕ) × (health : Fields ℕ) × (mapping : Fields ℕ) × IsGathered deployment e health
      mapping
    × ((open_gate.production_ready ≡ true)
        ↔ (IsRunning e × IsBound e mapping × IsAccepted deployment))
evaluate_gate-opens_example = evaluate_gate-opens deployment open_gate deployment_opens
