-- ===== src/Production/Readiness.antt =====
-- When a live deployment is ready for the new mutations.
use customs_buyer_intelligen.Prelude.{
  String, Bool, true, false, not, ◌&&◌, List, [], ◌∷◌, All, is_in, is_empty, is_empty-first_of_each,
  raised_by, Clear, is_empty-raised_by, ◌≡◌, refl, sym, ◌∙◌, ◌↔◌, arith,
}
use customs_buyer_intelligen.Python.{
  bool, str, Fields, Host, ℤ, pos, eqb_ℤ, get, truthy, ok, >>=-eq-ok,
}
use customs_buyer_intelligen.Acceptance.Tests.{
  str_of, of_str, bool_of, of_bool, holds_of, of_holds, number_of, of_number,
}
use customs_buyer_intelligen.Production.Live.{
  Live, Reading, in_both, is_object, precedent_tools, missing_precedents_of, live_checks, live_of,
  read_live, validate_live,
}
use customs_buyer_intelligen.Production.Policies.{
  IsCorrelationSafe, is_correlation_safe-IsCorrelationSafe, IsPeerSafe, is_peer_safe-IsPeerSafe,
}
use customs_buyer_intelligen.Production.Seeing.{IsSeen, read_live-IsRead}
use customs_buyer_intelligen.Production.Tests.{missing_from-All, All-in_both}

ok_injective : {a b : Live} → ok a ≡ ok b → a ≡ b
ok_injective h = cc

is_nil : (xs : List String) → is_empty xs ≡ true → xs ≡ []
is_nil [] h = refl
is_nil (x ∷ xs) h = cc

-- Nothing is prepared, nothing to be reconciled, and no tool unreconciled.
quiescent :
    (n : ℤ) (b : Bool) (xs : List String)
    → (eqb_ℤ n (pos 0) && not b && is_empty xs ≡ true) ↔ ((n ≡ pos 0) × (b ≡ false) × (xs ≡ []))
quiescent n b xs = (
  λ h. (number_of (of_holds (ground (arith, h))), ground (arith, h), is_nil xs (ground (arith, h))),
  λ (p, q, r). let s = holds_of (of_number p) in rw (s, q, r) refl,
)

module _ {F : Type 0} ⦃py : Host F⦄ where
  -- What is asked of the two documents, of what was read of them, and of the policies' documents.
  unfoldable pub IsLive :
      Fields F → Fields F → Reading F → Fields F → Fields F → Fields F → Fields F → Type 0
  IsLive health contract r health_corr contract_corr health_peer contract_peer =
      (get "status" health ≡ str "READY")
      × (is_object (get "research_orchestration_v6_2" contract) ≡ true)
      × (r.prepared_count ≡ pos 0)
      × (truthy (get "reconciliation_required" r.wal) ≡ false)
      × (r.unreconciled ≡ [])
      × (truthy (get "exact_automatic_reconciliation_complete" r.wal) ≡ true)
      × (truthy (get "automatic_reexecution_of_unproven_prepared" r.wal) ≡ false)
      × (All (λ tool. is_in tool r.guarded ≡ true)
            ("append_information_record" ∷ "append_peer_discovery" ∷ "promote_anchor"
              ∷ "resolve_or_create_account" ∷ [])
          × All (λ tool. is_in tool r.automatic ≡ true)
              ("append_information_record" ∷ "append_peer_discovery" ∷ "promote_anchor"
                ∷ "resolve_or_create_account" ∷ []))
      × IsCorrelationSafe health_corr contract_corr
      × (get "prepared_auto_replay_without_proof" r.wal_contract ≡ bool false)
      × (get "automatic_reconciliation_requires_durable_proof" r.wal_contract ≡ bool true)
      × (get "exact_automatic_reconciliation_complete" r.wal_contract ≡ bool true)
      × IsPeerSafe health_peer contract_peer

  module _ (health contract : Fields F) (r : Reading F)
      (health_corr contract_corr health_peer contract_peer : Fields F)
      (seen : IsSeen health contract r health_corr contract_corr health_peer contract_peer) where
    live_checks-IsLive :
        Clear (live_checks health contract r)
        ↔ IsLive health contract r health_corr contract_corr health_peer contract_peer
    unfolding IsLive missing_precedents_of
    live_checks-IsLive =
        let still =
          quiescent r.prepared_count (truthy (get "reconciliation_required" r.wal))
            r.unreconciled in
        let precedents = missing_from-All (in_both r.guarded r.automatic) precedent_tools in
        let both = All-in_both r.guarded r.automatic precedent_tools in
        let correlation = is_correlation_safe-IsCorrelationSafe health_corr contract_corr in
        let peers = is_peer_safe-IsPeerSafe health_peer contract_peer r.peer_safe seen.is_peer in
        (
          λ (a, (b, (c, (d, (e, (f, (g, (h, (i, (j, (k, _))))))))))).
              let (n, w, u) = still.0 (holds_of c) in
              (
                str_of a,
                holds_of b,
                n,
                w,
                u,
                holds_of d,
                e,
                both.0 (precedents.0 (holds_of f)),
                correlation.0 (sym seen.is_correlation ∙ holds_of g),
                bool_of h,
                bool_of i,
                bool_of j,
                peers.0 (holds_of k),
              ),
          λ (a, b, n, w, u, d, e, f, g, h, i, j, k). (
            of_str a,
            (
              of_holds b,
              (
                of_holds (still.1 (n, w, u)),
                (
                  of_holds d,
                  (
                    e,
                    (
                      of_holds (precedents.1 (both.1 f)),
                      (
                        of_holds (seen.is_correlation ∙ correlation.1 g),
                        (of_bool h, (of_bool i, (of_bool j, (of_holds (peers.1 k), tt)))),
                      ),
                    ),
                  ),
                ),
              ),
            ),
          ),
        )

    live_of-IsLive :
        ((live_of health contract r).ready ≡ true)
        ↔ IsLive health contract r health_corr contract_corr health_peer contract_peer
    unfolding live_of
    live_of-IsLive =
        let names = raised_by (live_checks health contract r) in
        let clear = is_empty-raised_by (live_checks health contract r) in
        (
          λ h. live_checks-IsLive.0 (clear.0 (sym (is_empty-first_of_each names) ∙ h)),
          λ h. is_empty-first_of_each names ∙ clear.1 (live_checks-IsLive.1 h),
        )

  -- Where a deployment is validated, the two documents are read under the keys of `IsSeen`, and it is
  -- ready exactly when its status is READY and the earlier contract is there, nothing is prepared, to
  -- be reconciled or unreconciled, the log reconciles exactly and does not replay what is unproven,
  -- every precedent tool is guarded and reconciled automatically, the contract of the log replays
  -- nothing without proof, asks for durable proof and reconciles exactly; correlation is enabled, shows
  -- no raw key and authorizes no replay; and the peers' recovery is enabled for both its tools, by
  -- exact correlation, and repeats no side effect.
  pub validate_live-IsLive :
      (health contract : Fields F) (live : Live)
      → validate_live health contract ≡ ok live
      → (r : Reading F) × (health_corr : Fields F) × (contract_corr : Fields F)
        × (health_peer : Fields F) × (contract_peer : Fields F) × IsSeen health contract r
            health_corr contract_corr health_peer contract_peer
        × ((live.ready ≡ true)
            ↔ IsLive health contract r health_corr contract_corr health_peer contract_peer)
  unfolding validate_live
  validate_live-IsLive health contract live h =
      let (r, p, made) = >>=-eq-ok (read_live health contract) _ h in
      let (health_corr, contract_corr, health_peer, contract_peer, seen) =
        read_live-IsRead health contract r p in
      (
        r,
        health_corr,
        contract_corr,
        health_peer,
        contract_peer,
        seen,
        rw (← ok_injective made) (
            live_of-IsLive health contract r health_corr contract_corr health_peer contract_peer
              seen),
      )
