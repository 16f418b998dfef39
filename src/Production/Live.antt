-- ===== src/Production/Live.antt =====
-- live_contract_validator_v63.py: what a live deployment must say of itself, with the tools whose
-- recovery the new mutations build on (adapter_recovery_mapping_v63.py).
use customs_buyer_intelligen.Prelude.{
  String, Bool, true, false, not, ◌&&◌, List, [], ◌∷◌, map, is_in, is_empty, raised_by,
  first_of_each, if◌then◌else◌,
}
use customs_buyer_intelligen.Python.{
  Value, arr, obj, nil, Fields, Host, ℤ, pos, eqb_ℤ, get, get_or, truthy, to_str, equals_str,
  is_bool, Outcome, ok, ◌>>=◌,
}
use customs_buyer_intelligen.Gates.Values.{iterated}
use customs_buyer_intelligen.Acceptance.Scenarios.{dict_of, int_or_zero}

-- `sorted(required_production_precedent_tools())`
abbrev pub precedent_tools : List String
precedent_tools =
    "append_information_record" ∷ "append_peer_discovery" ∷ "promote_anchor"
    ∷ "resolve_or_create_account" ∷ []

abbrev pub peer_tools : List String
peer_tools = "append_peer_discovery" ∷ "promote_anchor" ∷ []

-- `not (required - have)`, and what is missing.
unfoldable pub missing_from : List String → List String → List String
missing_from have [] = []
missing_from have (x ∷ xs) =
    let rest = missing_from have xs in if is_in x have then rest else x ∷ rest

-- `guarded & automatic`
unfoldable pub in_both : List String → List String → List String
in_both [] ys = []
in_both (x ∷ xs) ys = let rest = in_both xs ys in if is_in x ys then x ∷ rest else rest

-- The result, less the diagnostics that repeat what was read.
pub record Live : Type 0 where
  pub ready : Bool
  pub blockers : List String
  pub missing_precedents : List String

-- What is read of the two documents.
pub record Reading (F : Type 0) : Type 0 where
  pub wal : Fields F
  pub prepared_count : ℤ
  pub unreconciled : List String
  pub guarded : List String
  pub automatic : List String
  pub wal_contract : Fields F
  pub correlation_safe : Bool
  pub peer_safe : Bool

abbrev pub is_object : {F : Type 0} → Value F → Bool
is_object (obj _) = true
is_object _ = false

module _ {F : Type 0} ⦃py : Host F⦄ where
  -- `{str(v) for v in d.get(key, [])}`
  unfoldable pub texts_at : String → Fields F → Outcome (List String)
  unfolding iterated get_or to_str
  texts_at key fs = do values ← iterated (get_or key (arr nil) fs); ok (map to_str values)

  -- `d[key]` as a dict, empty where there is none.
  unfoldable pub dict_at : String → Fields F → Outcome (Fields F)
  unfolding dict_of get
  dict_at key fs = dict_of (get key fs)

  unfoldable pub is_correlation_safe : Fields F → Fields F → Bool
  unfolding equals_str is_bool truthy get
  is_correlation_safe health_corr contract_corr =
      equals_str (get "status" health_corr) "ENABLED"
      && not (truthy (get "correlation_contains_raw_idempotency_key" health_corr))
      && is_bool (get "enabled" contract_corr) true
      && is_bool (get "correlation_contains_raw_idempotency_key" contract_corr) false
      && is_bool (get "correlation_alone_authorizes_replay" contract_corr) false

  -- The chain of `and`s: what is not reached is not read.
  unfoldable pub is_peer_safe : Fields F → Fields F → Outcome Bool
  unfolding equals_str is_bool get missing_from
  is_peer_safe health_peer contract_peer =
      if not (equals_str (get "status" health_peer) "ENABLED") then ok false else do
        automatic ← texts_at "automatic_reconciliation_tools" health_peer
        if not (
              is_empty (missing_from automatic peer_tools)
              && is_bool (get "requires_event_correlation" health_peer) true
              && is_bool (get "enabled" contract_peer) true)
            then ok false
            else do
              tools ← texts_at "tools" contract_peer
              ok (
                  is_empty (missing_from tools peer_tools)
                  && is_bool (get "requires_exact_event_correlation" contract_peer) true
                  && is_bool (get "reexecutes_side_effect" contract_peer) false)

  unfoldable pub read_live : Fields F → Fields F → Outcome (Reading F)
  read_live health contract = do
    wal ← dict_at "mutation_wal" health
    prepared_count ← int_or_zero (get "prepared_count" wal)
    unreconciled ← texts_at "unreconciled_mutation_tools" wal
    guarded ← texts_at "guarded_mutation_tools" wal
    automatic ← texts_at "automatic_reconciliation_tools" wal
    health_corr ← dict_at "mutation_event_correlation" health
    wal_contract ← dict_at "production_adapter_mutation_wal" contract
    contract_corr ← dict_at "durable_event_correlation" wal_contract
    health_peer ← dict_at "peer_pivot_lifecycle_recovery" health
    contract_peer ← dict_at "peer_pivot_lifecycle_recovery" wal_contract
    peer_safe ← is_peer_safe health_peer contract_peer
    ok (record {
      wal = wal;
      prepared_count = prepared_count;
      unreconciled = unreconciled;
      guarded = guarded;
      automatic = automatic;
      wal_contract = wal_contract;
      correlation_safe = is_correlation_safe health_corr contract_corr;
      peer_safe = peer_safe;
    })

  unfoldable pub missing_precedents_of : Reading F → List String
  unfolding missing_from in_both
  missing_precedents_of r = missing_from (in_both r.guarded r.automatic) precedent_tools

  -- The tests, in the order in which their blockers are added.
  abbrev pub live_checks : Fields F → Fields F → Reading F → List (Bool × String)
  live_checks health contract r =
      (not (equals_str (get "status" health) "READY"), "LIVE_RUNTIME_NOT_READY")
      ∷ (
        not (is_object (get "research_orchestration_v6_2" contract)),
        "V62_LIVE_CONTRACT_NOT_PRESENT",
      )
      ∷ (
        not (
            eqb_ℤ r.prepared_count (pos 0)
            && not (truthy (get "reconciliation_required" r.wal))
            && is_empty r.unreconciled),
        "PRODUCTION_WAL_NOT_QUIESCENT",
      )
      ∷ (
        not (truthy (get "exact_automatic_reconciliation_complete" r.wal)),
        "EXACT_AUTOMATIC_RECONCILIATION_INCOMPLETE",
      )
      ∷ (
        truthy (get "automatic_reexecution_of_unproven_prepared" r.wal),
        "UNPROVEN_PREPARED_REPLAY_NOT_FAIL_CLOSED",
      )
      ∷ (not (is_empty (missing_precedents_of r)), "RECOVERY_PRECEDENTS_INCOMPLETE")
      ∷ (not r.correlation_safe, "MUTATION_CORRELATION_POLICY_UNSAFE")
      ∷ (
        not (is_bool (get "prepared_auto_replay_without_proof" r.wal_contract) false),
        "UNPROVEN_PREPARED_REPLAY_NOT_FAIL_CLOSED",
      )
      ∷ (
        not (is_bool (get "automatic_reconciliation_requires_durable_proof" r.wal_contract) true),
        "DURABLE_PROOF_REQUIREMENT_NOT_CONFIRMED",
      )
      ∷ (
        not (is_bool (get "exact_automatic_reconciliation_complete" r.wal_contract) true),
        "CONTRACT_EXACT_RECONCILIATION_INCOMPLETE",
      )
      ∷ (not r.peer_safe, "PEER_LIFECYCLE_RECOVERY_PRECEDENT_UNSAFE")
      ∷ []

  unfoldable pub live_of : Fields F → Fields F → Reading F → Live
  unfolding first_of_each missing_precedents_of
  live_of health contract r = record {
    ready = is_empty (first_of_each (raised_by (live_checks health contract r)));
    blockers = first_of_each (raised_by (live_checks health contract r));
    missing_precedents = missing_precedents_of r;
  }

  -- `validate_live_phase_b_preconditions`, of two dicts.
  unfoldable pub validate_live : Fields F → Fields F → Outcome Live
  validate_live health contract = do r ← read_live health contract; ok (live_of health contract r)
