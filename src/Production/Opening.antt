-- ===== src/Production/Opening.antt =====
-- When the production gate opens: every condition that its tests ask for, and no other.
use customs_buyer_intelligen.Prelude.{
  true, false, All, is_in, is_empty-append, raised_by, Clear, is_empty-raised_by, ◌⊕◌, ◌≡◌, [], ◌∷◌,
  ◌↔◌,
}
use customs_buyer_intelligen.Python.{Fields, Host, pos, get, truthy, ok, >>=-eq-ok}
use customs_buyer_intelligen.Acceptance.Tests.{holds_of, of_holds, number_of, of_number}
use customs_buyer_intelligen.Production.Live.{is_object}
use customs_buyer_intelligen.Production.Gate.{
  mutation_tools, active_tools, Gate, Evidence, gather, runtime_checks, binding_checks,
  acceptance_checks, gate_of, evaluate_gate, mapping_state,
}
use customs_buyer_intelligen.Production.Gathering.{IsGathered, gather-IsRead}
use customs_buyer_intelligen.Production.Bound.{IsBound, binding_checks-IsBound}
use customs_buyer_intelligen.Production.Accepted.{IsAccepted, acceptance_checks-IsAccepted}
use customs_buyer_intelligen.Production.Tests.{missing_from-All, in_both-All}

ok_injective : {a b : Gate} → ok a ≡ ok b → a ≡ b
ok_injective h = cc

module _ {F : Type 0} ⦃py : Host F⦄ where
  -- What the deployment says of its log and its tools.
  unfoldable pub IsRunning : Evidence F → Type 0
  IsRunning e =
      (e.live.ready ≡ true)
      × (is_object (get "research_orchestration_v6_2" e.contract) ≡ true)
      × (is_object (get "demand_expansion_v6_3" e.contract) ≡ true)
      × All (λ tool. is_in tool e.active ≡ true) active_tools
      × (e.prepared_count ≡ pos 0)
      × (truthy (get "reconciliation_required" e.wal) ≡ false)
      × All (λ tool. is_in tool e.guarded ≡ true)
          ("append_candidate_discovery" ∷ "create_product_opportunity"
            ∷ "promote_opportunity_anchor" ∷ [])
      × All (λ tool. is_in tool e.automatic ≡ true)
          ("append_candidate_discovery" ∷ "create_product_opportunity"
            ∷ "promote_opportunity_anchor" ∷ [])
      × All (λ tool. is_in tool e.unreconciled ≡ false)
          ("append_candidate_discovery" ∷ "create_product_opportunity"
            ∷ "promote_opportunity_anchor" ∷ [])
      × (truthy (get "exact_automatic_reconciliation_complete" e.wal) ≡ true)

  runtime_checks-IsRunning : (e : Evidence F) → Clear (runtime_checks e) ↔ IsRunning e
  unfolding IsRunning
  runtime_checks-IsRunning e =
      let active = missing_from-All e.active active_tools in
      let guarded = missing_from-All e.guarded mutation_tools in
      let automatic = missing_from-All e.automatic mutation_tools in
      let unreconciled = in_both-All mutation_tools e.unreconciled in
      (
        λ (a, (b, (c, (d, (f, (g, (h, (i, (j, (k, _)))))))))). (
          holds_of a,
          holds_of b,
          holds_of c,
          active.0 (holds_of d),
          number_of f,
          g,
          guarded.0 (holds_of h),
          automatic.0 (holds_of i),
          unreconciled.0 (holds_of j),
          holds_of k,
        ),
        λ (a, b, c, d, f, g, h, i, j, k). (
          of_holds a,
          (
            of_holds b,
            (
              of_holds c,
              (
                of_holds (active.1 d),
                (
                  of_number f,
                  (
                    g,
                    (
                      of_holds (guarded.1 h),
                      (of_holds (automatic.1 i), (of_holds (unreconciled.1 j), (of_holds k, tt))),
                    ),
                  ),
                ),
              ),
            ),
          ),
        ),
      )

  gate_of-opens :
      (payload : Fields F) (e : Evidence F) (mapping : Fields F)
      → mapping_state mapping ≡ ok e.mapping
      → ((gate_of payload e).production_ready ≡ true)
        ↔ (IsRunning e × IsBound e mapping × IsAccepted payload)
  unfolding gate_of
  gate_of-opens payload e mapping read =
      let first =
        is_empty-append (raised_by (runtime_checks e))
          (raised_by (binding_checks e) ⊕ raised_by (acceptance_checks payload)) in
      let second =
        is_empty-append (raised_by (binding_checks e)) (raised_by (acceptance_checks payload)) in
      (
        λ h.
            let (a, bc) = first.0 h in
            let (b, c) = second.0 bc in
            (
              (runtime_checks-IsRunning e).0 ((is_empty-raised_by (runtime_checks e)).0 a),
              (binding_checks-IsBound e mapping read).0
                  ((is_empty-raised_by (binding_checks e)).0 b),
              (acceptance_checks-IsAccepted payload).0
                  ((is_empty-raised_by (acceptance_checks payload)).0 c),
            ),
        λ (a, b, c). first.1 (
          (is_empty-raised_by (runtime_checks e)).1 ((runtime_checks-IsRunning e).1 a),
          second.1 (
            (is_empty-raised_by (binding_checks e)).1 ((binding_checks-IsBound e mapping read).1 b),
            (is_empty-raised_by (acceptance_checks payload)).1
                ((acceptance_checks-IsAccepted payload).1 c),
          ),
        ),
      )

  -- Where the gate is evaluated, it reads its evidence from the payload's `health` and `contract` under
  -- the keys of `IsGathered`, and it opens exactly when the live preconditions hold, both contracts are
  -- there, all of `active_tools` are active, nothing is prepared or to be reconciled, the log
  -- reconciles exactly, and each of the three mutations is guarded, reconciled automatically and not
  -- listed as unreconciled; when its mutations are bound to the existing log, overlay and store, which
  -- they extend with no parallel log, with the safe policy, and the recovery mapping has these
  -- mutations, no other name, and the recovery family of each; and when every acceptance is verified,
  -- the two live ones of the very source snapshot that runs, a digest of 64 characters.
  pub evaluate_gate-opens :
      (payload : Fields F) (gate : Gate)
      → evaluate_gate payload ≡ ok gate
      → (e : Evidence F) × (health : Fields F) × (mapping : Fields F) × IsGathered payload e health
          mapping
        × ((gate.production_ready ≡ true) ↔ (IsRunning e × IsBound e mapping × IsAccepted payload))
  unfolding evaluate_gate
  evaluate_gate-opens payload gate h =
      let (e, p, made) = >>=-eq-ok (gather payload) _ h in
      let (health, mapping, gathered) = gather-IsRead payload e p in
      (
        e,
        health,
        mapping,
        gathered,
        rw (← ok_injective made) (gate_of-opens payload e mapping gathered.is_state),
      )
