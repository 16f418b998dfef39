-- ===== src/Production/Bound.antt =====
-- What the mutations of a deployment are bound to, where the gate's tests on it are silent.
use customs_buyer_intelligen.Prelude.{true, false, Clear, ◌≡◌, ◌∙◌, ap, sym, ◌↔◌, eq_iff}
use customs_buyer_intelligen.Python.{bool, str, Fields, Host, get, get_or, truthy, or_str, ok}
use customs_buyer_intelligen.Acceptance.Tests.{
  str_of, of_str, bool_of, of_bool, holds_of, of_holds, same_of, of_same,
}
use customs_buyer_intelligen.Production.Gate.{
  Evidence, is_backend_policy_safe, binding_checks, mapping_state, MappingState,
}
use customs_buyer_intelligen.Production.Mapping.{IsMapped, mapping_state-IsMapped}
use customs_buyer_intelligen.Production.Tests.{all_five, mapping-eq}

state_injective : {a b : MappingState} → ok a ≡ ok b → a ≡ b
state_injective h = cc

module _ {F : Type 0} ⦃py : Host F⦄ where
  -- The policy of the durable backend.
  unfoldable pub IsSafe : Fields F → Type 0
  IsSafe v63 =
      (or_str "" (get "runtime_durable_backend_schema" v63)
        ≡ "cbi.v63-production-durable-backend.v1")
      × (get "runtime_durable_backend_parallel_store_allowed" v63 ≡ bool false)
      × (get "runtime_durable_backend_requires_existing_mutation_correlation" v63 ≡ bool true)
      × (get "runtime_durable_backend_raw_idempotency_key_persisted" v63 ≡ bool false)
      × (get "runtime_durable_backend_side_effect_reexecution_allowed" v63 ≡ bool false)

  is_backend_policy_safe-IsSafe :
      (v63 : Fields F) → (is_backend_policy_safe v63 ≡ true) ↔ IsSafe v63
  unfolding is_backend_policy_safe IsSafe
  is_backend_policy_safe-IsSafe v63 = (
    λ h.
        let (a, b, c, d, e) = (all_five _ _ _ _ _).0 h in
        (
          (eq_iff _ _).0 a,
          bool_of (of_holds b),
          bool_of (of_holds c),
          bool_of (of_holds d),
          bool_of (of_holds e),
        ),
    λ (a, b, c, d, e). (all_five _ _ _ _ _).1 (
      (eq_iff _ _).1 a,
      holds_of (of_bool b),
      holds_of (of_bool c),
      holds_of (of_bool d),
      holds_of (of_bool e),
    ),
  )

  -- What its mutations are bound to.
  unfoldable pub IsBound : Evidence F → Fields F → Type 0
  IsBound e mapping =
      (or_str "" (get "runtime_overlay_mutation_binding" e.v63) ≡ "BOUND_EXISTING_PRODUCTION_WAL")
      × (or_str "" (get "recovery_overlay_binding" e.v63) ≡ "BOUND_ACTIVE_PRODUCTION_OVERLAY_CHAIN")
      × (or_str "" (get "runtime_durable_backend_binding" e.v63) ≡ "BOUND_EXISTING_DURABLE_STORE")
      × IsSafe e.v63
      × (get "binding_strategy" e.v63_wal ≡ str "EXTEND_EXISTING_PRODUCTION_WAL")
      × (truthy (get_or "parallel_wal_allowed" (bool true) e.v63_wal) ≡ false)
      × IsMapped mapping

  pub binding_checks-IsBound :
      (e : Evidence F) (mapping : Fields F)
      → mapping_state mapping ≡ ok e.mapping
      → Clear (binding_checks e) ↔ IsBound e mapping
  unfolding IsBound
  binding_checks-IsBound e mapping read =
      let safe = is_backend_policy_safe-IsSafe e.v63 in
      let state = mapping-eq e.mapping in
      let mapped = mapping_state-IsMapped mapping in
      (
        λ (a, (b, (c, (d, (f, (g, (h, (i, _)))))))). (
          same_of a,
          same_of b,
          same_of c,
          safe.0 (holds_of d),
          str_of f,
          g,
          mapped.0 (read ∙ ap ok (state.0 (h, i))),
        ),
        λ (a, b, c, d, f, g, m).
            let h = state_injective (sym read ∙ mapped.1 m) in
            (
              of_same a,
              (
                of_same b,
                (
                  of_same c,
                  (of_holds (safe.1 d), (of_str f, (g, ((state.1 h).0, ((state.1 h).1, tt))))),
                ),
              ),
            ),
      )
