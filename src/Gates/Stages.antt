-- ===== src/Gates/Stages.antt =====
-- Stages never go back (opportunity_domain.py).
use customs_buyer_intelligen.Prelude.{
  ℕ, suc, ◌+◌, ◌-◌, String, false, List, [], ◌∷◌, Option, none, some, ltb, ◌==◌, ◌≡◌, refl, ◌⊎◌,
  subst, arith, inl, inr, Bool-cases, Option-cases, ◌⊎◌, eq_iff, sym, ◌∙◌, ap, ap₂,
}
use customs_buyer_intelligen.Python.{Value, Host, upper_or, ok}
use customs_buyer_intelligen.Gates.Lifecycle.{
  stages, index_in, Transition, moved, transition_of, validate_transition,
}

-- An element stands at the head, or further on.
index_in-cons :
    (s x : String) (xs : List String) (i : ℕ)
    → index_in s (x ∷ xs) ≡ some i
    → ((x ≡ s) × (i ≡ 0)) ⊎ ((j : ℕ) × (index_in s xs ≡ some j) × (i ≡ suc j))
unfolding index_in
index_in-cons s x xs i h = elim (Bool-cases (x == s)) [
  | inl p ↦ inl ((eq_iff x s).0 p, cc (rw p at h))
  | inr p ↦ elim (Option-cases (index_in s xs)) [
    | inl q ↦ cc (rw q at (rw p at h))
    | inr (j, q) ↦ inr (j, q, cc (rw q at (rw p at h)))
  ]
]

index_in_nil : {A : Type 0} (s : String) (i : ℕ) → index_in s [] ≡ some i → A
unfolding index_in
index_in_nil s i h = cc

index_in_unique :
    (s t : String) (xs : List String) (i : ℕ)
    → index_in s xs ≡ some i
    → index_in t xs ≡ some i
    → s ≡ t
index_in_unique s t [] i h k = index_in_nil s i h
index_in_unique s t (x ∷ xs) i h k = elim (index_in-cons s x xs i h) [
  | inl (p, z) ↦ elim (index_in-cons t x xs i k) [
    | inl (q, _) ↦ sym p ∙ q
    | inr (j, _, w) ↦ cc (z, w)
  ]
  | inr (m, p, z) ↦ elim (index_in-cons t x xs i k) [
    | inl (_, w) ↦ cc (z, w)
    | inr (j, q, w) ↦ index_in_unique s t xs m p (cc (q, z, w))
  ]
]

-- A transition that is allowed, between two places in order.
transition_of-ok :
    (a b : String) (m n : Option ℕ) (t : Transition)
    → transition_of a b m n ≡ ok t
    → (i : ℕ) × (j : ℕ) × (m ≡ some i) × (n ≡ some j) × (ltb j i ≡ false) × (moved a b i j ≡ t)
unfolding transition_of
transition_of-ok a b none n t h = cc
transition_of-ok a b (some i) none t h = cc
transition_of-ok a b (some i) (some j) t h = elim (Bool-cases (ltb j i)) [
  | inl back ↦ cc (rw back at h)
  | inr on ↦ (i, j, refl, refl, on, cc (rw on at h))
]

some_injective : {i j : ℕ} → some i ≡ some j → i ≡ j
some_injective h = cc

-- Two steps in order are one.
ltb_trans : (i j k : ℕ) → ltb j i ≡ false → ltb k j ≡ false → ltb k i ≡ false
ltb_trans i j k h l = ground arith

deltas : (i j k : ℕ) → ltb j i ≡ false → ltb k j ≡ false → k - i ≡ (j - i) + (k - j)
deltas i j k h l = ground arith

ltb_antisym : (i j : ℕ) → ltb j i ≡ false → ltb i j ≡ false → i ≡ j
ltb_antisym i j h l = ground arith

module _ {F : Type 0} ⦃py : Host F⦄ where
  index_of : Value F → Option ℕ
  index_of a = index_in (upper_or "" a) stages

  validate_transition-ok :
      (a b : Value F) (t : Transition)
      → validate_transition a b ≡ ok t
      → (i : ℕ) × (j : ℕ) × (index_of a ≡ some i)
        × (index_of b ≡ some j)
        × (ltb j i ≡ false)
        × (moved (upper_or "" a) (upper_or "" b) i j ≡ t)
  unfolding validate_transition index_of
  validate_transition-ok a b t h =
      transition_of-ok (upper_or "" a) (upper_or "" b) (index_in (upper_or "" a) stages)
        (index_in (upper_or "" b) stages) t h

  validate_transition_of :
      (a b : Value F) (i j : ℕ)
      → index_of a ≡ some i
      → index_of b ≡ some j
      → ltb j i ≡ false
      → validate_transition a b ≡ ok (moved (upper_or "" a) (upper_or "" b) i j)
  unfolding validate_transition index_of
  validate_transition_of a b i j p q on = rw (p, q, transition_of) (rw on)

  same_place :
      (a b : Value F) (i : ℕ)
      → index_of a ≡ some i
      → index_of b ≡ some i
      → upper_or "" a ≡ upper_or "" b
  unfolding index_of
  same_place a b i p q = index_in_unique (upper_or "" a) (upper_or "" b) stages i p q

  -- Two transitions that follow each other make one that is allowed too: from the first stage to the
  -- last, over as many stages as both together.
  pub validate_transition_trans :
      (a b c : Value F) (t u : Transition)
      → validate_transition a b ≡ ok t
      → validate_transition b c ≡ ok u
      → (v : Transition) × (validate_transition a c ≡ ok v)
        × (v.current_stage ≡ t.current_stage)
        × (v.target_stage ≡ u.target_stage)
        × (v.stage_delta ≡ t.stage_delta + u.stage_delta)
  validate_transition_trans a b c t u h k =
      let (i, j, at_i, at_j, on, p) = validate_transition-ok a b t h in
      let (j', l, at_j', at_l, on', q) = validate_transition-ok b c u k in
      let same : j' ≡ j = some_injective (sym at_j' ∙ at_j) in
      let later : ltb l j ≡ false = subst (λ n. ltb l n ≡ false) same on' in
      (
        moved (upper_or "" a) (upper_or "" c) i l,
        validate_transition_of a c i l at_i at_l (ltb_trans i j l on later),
        ap (λ x. x.current_stage) p,
        ap (λ x. x.target_stage) q,
        deltas i j l on later
            ∙ ap₂ (λ x y. x + y) (ap (λ x. x.stage_delta) p)
                (ap (λ n. l - n) (sym same) ∙ ap (λ x. x.stage_delta) q),
      )

  -- Where the transitions between two stages are allowed both ways, the stages are one.
  pub validate_transition_antisym :
      (a b : Value F) (t u : Transition)
      → validate_transition a b ≡ ok t
      → validate_transition b a ≡ ok u
      → t.current_stage ≡ t.target_stage
  validate_transition_antisym a b t u h k =
      let (i, j, at_i, at_j, on, p) = validate_transition-ok a b t h in
      let (j', i', at_j', at_i', on', _) = validate_transition-ok b a u k in
      let first : i' ≡ i = some_injective (sym at_i' ∙ at_i) in
      let second : j' ≡ j = some_injective (sym at_j' ∙ at_j) in
      let same : i ≡ j =
        ltb_antisym i j on
          (subst (λ n. ltb i n ≡ false) second (subst (λ n. ltb n j' ≡ false) first on')) in
      let stage = same_place a b i at_i (at_j ∙ ap some (sym same)) in
      sym (ap (λ x. x.current_stage) p) ∙ stage ∙ ap (λ x. x.target_stage) p
