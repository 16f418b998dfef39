-- ===== src/Production/Policies.antt =====
-- The two policies that a live deployment is asked for: on correlation, and on the peers' recovery.
use customs_buyer_intelligen.Prelude.{
  all_three, String, Bool, true, false, not, ◌&&◌, List, [], ◌∷◌, All, is_in, is_empty, ◌≡◌, ◌↔◌,
  refl, Bool-cases, inl, inr, ap, sym, ◌∙◌, arith,
}
use customs_buyer_intelligen.Python.{
  bool, str, Fields, Host, get, truthy, equals_str, is_bool, ok, >>=-eq-ok,
}
use customs_buyer_intelligen.Acceptance.Tests.{str_of, of_str, bool_of, of_bool, holds_of, of_holds}
use customs_buyer_intelligen.Production.Live.{
  missing_from, peer_tools, texts_at, is_correlation_safe, is_peer_safe,
}
use customs_buyer_intelligen.Production.Tests.{all_five, missing_from-All}

false_of_not : {b : Bool} → not b ≡ true → b ≡ false
false_of_not {b} h = ground arith

of_false : {b : Bool} → b ≡ false → not b ≡ true
of_false h = rw h refl

true_injective : {a b : Bool} → ok a ≡ ok b → a ≡ b
true_injective h = cc

module _ {F : Type 0} ⦃py : Host F⦄ where
  -- Correlation is enabled, shows no raw key and authorizes no replay.
  abbrev pub IsCorrelationSafe : Fields F → Fields F → Type 0
  IsCorrelationSafe health_corr contract_corr =
      (get "status" health_corr ≡ str "ENABLED")
      × (truthy (get "correlation_contains_raw_idempotency_key" health_corr) ≡ false)
      × (get "enabled" contract_corr ≡ bool true)
      × (get "correlation_contains_raw_idempotency_key" contract_corr ≡ bool false)
      × (get "correlation_alone_authorizes_replay" contract_corr ≡ bool false)

  pub is_correlation_safe-IsCorrelationSafe :
      (health_corr contract_corr : Fields F)
      → (is_correlation_safe health_corr contract_corr ≡ true)
        ↔ IsCorrelationSafe health_corr contract_corr
  unfolding is_correlation_safe
  is_correlation_safe-IsCorrelationSafe health_corr contract_corr = (
    λ h.
        let (a, b, c, d, e) = (all_five _ _ _ _ _).0 h in
        (
          str_of (of_holds a),
          false_of_not b,
          bool_of (of_holds c),
          bool_of (of_holds d),
          bool_of (of_holds e),
        ),
    λ (a, b, c, d, e). (all_five _ _ _ _ _).1 (
      holds_of (of_str a),
      of_false b,
      holds_of (of_bool c),
      holds_of (of_bool d),
      holds_of (of_bool e),
    ),
  )

  -- The peers' recovery is enabled for both tools, by exact correlation, and repeats no side effect.
  abbrev pub IsPeerSafe : Fields F → Fields F → Type 0
  IsPeerSafe health_peer contract_peer =
      (automatic : List String) × (tools : List String) × (get "status" health_peer ≡ str "ENABLED")
      × (texts_at "automatic_reconciliation_tools" health_peer ≡ ok automatic)
      × All (λ tool. is_in tool automatic ≡ true) ("append_peer_discovery" ∷ "promote_anchor" ∷ [])
      × (get "requires_event_correlation" health_peer ≡ bool true)
      × (get "enabled" contract_peer ≡ bool true)
      × (texts_at "tools" contract_peer ≡ ok tools)
      × All (λ tool. is_in tool tools ≡ true) ("append_peer_discovery" ∷ "promote_anchor" ∷ [])
      × (get "requires_exact_event_correlation" contract_peer ≡ bool true)
      × (get "reexecutes_side_effect" contract_peer ≡ bool false)

  module _ (health_peer contract_peer : Fields F) where
    abbrev first_tests : List String → Bool
    first_tests automatic =
        is_empty (missing_from automatic peer_tools)
        && is_bool (get "requires_event_correlation" health_peer) true
        && is_bool (get "enabled" contract_peer) true

    is_peer_safe-holds :
        is_peer_safe health_peer contract_peer ≡ ok true → IsPeerSafe health_peer contract_peer
    unfolding is_peer_safe
    is_peer_safe-holds h = elim (Bool-cases (equals_str (get "status" health_peer) "ENABLED")) [
      | inr disabled ↦ cc (rw disabled at h)
      | inl enabled ↦
          let (automatic, read, h1) =
            >>=-eq-ok (texts_at "automatic_reconciliation_tools" health_peer) _ (rw enabled at h) in
          elim (Bool-cases (first_tests automatic)) [
            | inr failing ↦ cc (rw failing at h1)
            | inl passing ↦
                let (tools, told, h2) =
                  >>=-eq-ok (texts_at "tools" contract_peer) _ (rw passing at h1) in
                let (p, q, r) = (all_three _ _ _).0 passing in
                let (x, y, z) = (all_three _ _ _).0 (true_injective h2) in
                (
                  automatic,
                  tools,
                  str_of (of_holds enabled),
                  read,
                  (missing_from-All automatic peer_tools).0 p,
                  bool_of (of_holds q),
                  bool_of (of_holds r),
                  told,
                  (missing_from-All tools peer_tools).0 x,
                  bool_of (of_holds y),
                  bool_of (of_holds z),
                )
          ]
    ]

    is_peer_safe_of :
        IsPeerSafe health_peer contract_peer → is_peer_safe health_peer contract_peer ≡ ok true
    unfolding is_peer_safe
    is_peer_safe_of (automatic, tools, a, b, c, d, e, f, g, i, j) =
        let enabled = holds_of (of_str a) in
        let passing : first_tests automatic ≡ true = (all_three _ _ _).1 (
          (missing_from-All automatic peer_tools).1 c,
          holds_of (of_bool d),
          holds_of (of_bool e),
        ) in
        rw (enabled, b, passing, f)
          (ap ok (
            (all_three _ _ _).1 (
              (missing_from-All tools peer_tools).1 g,
              holds_of (of_bool i),
              holds_of (of_bool j),
            )))

    pub is_peer_safe-IsPeerSafe :
        (safe : Bool)
        → is_peer_safe health_peer contract_peer ≡ ok safe
        → (safe ≡ true) ↔ IsPeerSafe health_peer contract_peer
    is_peer_safe-IsPeerSafe safe h =
        (λ p. is_peer_safe-holds (h ∙ ap ok p), λ p. true_injective (sym h ∙ is_peer_safe_of p))
