-- ===== src/Wal/Exact.antt =====
-- Which durable events `recover_prepared` takes for those of the request, and where they stand.
use customs_buyer_intelligen.Prelude.{
  all_three, String, true, false, List, [], ◌∷◌, ◌++◌, All, ◌≡◌, refl, ap, subst, ◌↔◌, eq_iff,
  Bool-cases, inl, inr,
}
use customs_buyer_intelligen.Python.{Value, Fields, Host, get, or_str, lower}
use customs_buyer_intelligen.Wal.Contract.{Binding}
use customs_buyer_intelligen.Wal.Recovering.{is_exact, exact_events}

module _ {F : Type 0} ⦃py : Host F⦄ where
  -- The event has the mutation's type, the correlation and, but for case, the hash of the request.
  abbrev pub IsFor : Binding → String → String → Fields F → Type 0
  IsFor b correlation hash e =
      (or_str "" (get "event_type" e) ≡ b.event_type)
      × (or_str "" (get "correlation_id" e) ≡ correlation)
      × (lower py.tables (or_str "" (get "request_sha256" e)) ≡ lower py.tables hash)

  module _ (digest : Value F → String) (b : Binding) (correlation hash : String) where
    is_exact-IsFor :
        (e : Fields F) → (is_exact digest b correlation hash e ≡ true) ↔ IsFor b correlation hash e
    unfolding is_exact
    is_exact-IsFor e = (
      λ h.
          let (p, q, r) = (all_three _ _ _).0 h in
          ((eq_iff _ _).0 p, (eq_iff _ _).0 q, (eq_iff _ _).0 r),
      λ (p, q, r). (all_three _ _ _).1 ((eq_iff _ _).1 p, (eq_iff _ _).1 q, (eq_iff _ _).1 r),
    )

    not_exact :
        (e : Fields F) → ¬ IsFor b correlation hash e → is_exact digest b correlation hash e ≡ false
    not_exact e other = elim (Bool-cases (is_exact digest b correlation hash e)) [
      | inl exact ↦ elim (other ((is_exact-IsFor e).0 exact)) [ ]
      | inr missed ↦ missed
    ]

    pub is_other :
        (e : Fields F) → is_exact digest b correlation hash e ≡ false → ¬ IsFor b correlation hash e
    is_other e missed same = cc (missed, (is_exact-IsFor e).1 same)

    pub exact_events_of_others :
        (es : List (Fields F))
        → All (λ e. ¬ IsFor b correlation hash e) es
        → exact_events digest b correlation hash es ≡ []
    unfolding exact_events
    exact_events_of_others [] n = refl
    exact_events_of_others (e ∷ es) n = rw (not_exact e n.0) (exact_events_of_others es n.1)

    others_of_none :
        (es : List (Fields F))
        → exact_events digest b correlation hash es ≡ []
        → All (λ e. ¬ IsFor b correlation hash e) es
    unfolding exact_events
    others_of_none [] h = tt
    others_of_none (e ∷ es) h = elim (Bool-cases (is_exact digest b correlation hash e)) [
      | inl exact ↦ cc (rw exact at h)
      | inr missed ↦ (is_other e missed, others_of_none es (rw missed at h))
    ]

    -- The event is for the request, and no other before or after it is.
    abbrev pub IsOnly : Fields F → List (Fields F) → Type 0
    IsOnly e events =
        (before : List (Fields F)) × (after : List (Fields F)) × (events ≡ before ++ e ∷ after)
        × IsFor b correlation hash e
        × All (λ o. ¬ IsFor b correlation hash o) before
        × All (λ o. ¬ IsFor b correlation hash o) after

    pub exact_events-IsOnly :
        (events : List (Fields F)) (e : Fields F)
        → exact_events digest b correlation hash events ≡ e ∷ []
        → IsOnly e events
    unfolding exact_events
    exact_events-IsOnly [] e h = cc
    exact_events-IsOnly (x ∷ xs) e h = elim (Bool-cases (is_exact digest b correlation hash x)) [
      | inl exact ↦
          let h' : x ∷ exact_events digest b correlation hash xs ≡ e ∷ [] = rw exact at h in
          let same : x ≡ e = cc in
          let none_later : exact_events digest b correlation hash xs ≡ [] = cc in
          (
            [],
            xs,
            ap (λ y. y ∷ xs) same,
            subst (IsFor b correlation hash) same ((is_exact-IsFor x).0 exact),
            tt,
            others_of_none xs none_later,
          )
      | inr missed ↦
          let (before, after, here, is_for, others, later) =
            exact_events-IsOnly xs e (rw missed at h) in
          (x ∷ before, after, ap (λ y. x ∷ y) here, is_for, (is_other x missed, others), later)
    ]
