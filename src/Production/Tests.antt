-- ===== src/Production/Tests.antt =====
-- The gate's tests on sets of tools, snapshots and mappings, as what they mean.
use customs_buyer_intelligen.Prelude.{
  String, Bool, true, false, ◌&&◌, List, [], ◌∷◌, All, is_in, is_empty, ◌≡◌, refl, ◌↔◌, inl, inr,
  Bool-cases, eq_iff, arith, sym, subst, ◌==◌,
}
use customs_buyer_intelligen.Production.Live.{missing_from, in_both}
use customs_buyer_intelligen.Production.Gate.{
  count_chars, is_source_drift, MappingState, incomplete, compared, is_incomplete,
  is_invalid_mapping,
}

pub all_five :
    (a b c d e : Bool)
    → (a && b && c && d && e ≡ true)
      ↔ ((a ≡ true) × (b ≡ true) × (c ≡ true) × (d ≡ true) × (e ≡ true))
all_five true true true true true = (λ _. (refl, refl, refl, refl, refl), λ _. refl)
all_five true true true true false = (λ h. cc, λ h. h.4)
all_five true true true false e = (λ h. cc, λ h. h.3)
all_five true true false d e = (λ h. cc, λ h. h.2)
all_five true false c d e = (λ h. cc, λ h. h.1)
all_five false b c d e = (λ h. cc, λ h. h.0)

pub missing_from-All :
    (have xs : List String)
    → (is_empty (missing_from have xs) ≡ true) ↔ All (λ x. is_in x have ≡ true) xs
unfolding missing_from
missing_from-All have [] = (λ _. tt, λ _. refl)
missing_from-All have (x ∷ xs) =
    let rest = missing_from-All have xs in
    elim (Bool-cases (is_in x have)) [
      | inl p ↦ rw p (λ h. (refl, rest.0 h), λ h. rest.1 h.1)
      | inr p ↦ rw p (λ h. cc, λ h. cc (h.0))
    ]

pub in_both-All :
    (xs ys : List String) → (is_empty (in_both xs ys) ≡ true) ↔ All (λ x. is_in x ys ≡ false) xs
unfolding in_both
in_both-All [] ys = (λ _. tt, λ _. refl)
in_both-All (x ∷ xs) ys =
    let rest = in_both-All xs ys in
    elim (Bool-cases (is_in x ys)) [
      | inl p ↦ rw p (λ h. cc, λ h. cc (h.0))
      | inr p ↦ rw p (λ h. (refl, rest.0 h), λ h. rest.1 h.1)
    ]

pub is_in-in_both :
    (x : String) (xs ys : List String)
    → (is_in x (in_both xs ys) ≡ true) ↔ ((is_in x xs ≡ true) × (is_in x ys ≡ true))
unfolding in_both
is_in-in_both x [] ys = (λ h. cc, λ h. cc (h.0))
is_in-in_both x (y ∷ xs) ys =
    let rest = is_in-in_both x xs ys in
    elim (Bool-cases (is_in y ys)) [
      | inl p ↦ elim (Bool-cases (x == y)) [
        | inl same ↦
            let there : is_in x ys ≡ true =
              subst (λ z. is_in z ys ≡ true) (sym ((eq_iff x y).0 same)) p in
            rw (p, same) (λ _. (refl, there), λ _. refl)
        | inr other ↦ rw (p, other) rest
      ]
      | inr p ↦ elim (Bool-cases (x == y)) [
        | inl same ↦
            let gone : is_in x ys ≡ false =
              subst (λ z. is_in z ys ≡ false) (sym ((eq_iff x y).0 same)) p in
            rw p (λ h. cc (gone, (rest.0 h).1), λ h. cc (gone, h.1))
        | inr other ↦ rw (p, other) rest
      ]
    ]

pub All-in_both :
    (xs ys names : List String)
    → All (λ x. is_in x (in_both xs ys) ≡ true) names
      ↔ (All (λ x. is_in x xs ≡ true) names × All (λ x. is_in x ys ≡ true) names)
All-in_both xs ys [] = (λ _. (tt, tt), λ _. tt)
All-in_both xs ys (x ∷ names) =
    let rest = All-in_both xs ys names in
    let here = is_in-in_both x xs ys in
    (
      λ (h, hs). (((here.0 h).0, (rest.0 hs).0), ((here.0 h).1, (rest.0 hs).1)),
      λ ((a, as'), (b, bs)). (here.1 (a, b), rest.1 (as', bs)),
    )

pub is_source_drift-eq :
    (a c : String)
    → (is_source_drift a c ≡ false) ↔ ((count_chars a ≡ 64) × (count_chars c ≡ 64) × (a ≡ c))
unfolding is_source_drift
is_source_drift-eq a c = (
  λ h. (ground (arith, h), ground (arith, h), (eq_iff a c).0 (ground (arith, h))),
  λ (p, q, r). let s = (eq_iff a c).1 r in ground (arith, p, q, s),
)

pub mapping-eq :
    (m : MappingState)
    → ((is_incomplete m ≡ false) × (is_invalid_mapping m ≡ false)) ↔ (m ≡ compared false)
mapping-eq incomplete = (λ h. cc (h.0), λ h. cc h)
mapping-eq (compared true) = (λ h. cc (h.1), λ h. cc h)
mapping-eq (compared false) = (λ _. refl, λ _. (refl, refl))
