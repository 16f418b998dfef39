-- ===== src/Runtime/Sets.antt =====
-- The sets and queues of the state: membership after `add`, `discard` and an append, and queues in
-- which nothing stands twice.
use customs_buyer_intelligen.Prelude.{
  String, true, false, not, ◌&&◌, ◌||◌, List, [], ◌∷◌, ◌++◌, All, is_in, ◌==◌, eq_iff, ◌≡◌, refl,
  arith, inl, inr, Bool-cases,
}
use customs_buyer_intelligen.Runtime.State.{add, discard}

abbrev pub Distinct : List String → Type 0
Distinct [] = Unit
Distinct (x ∷ xs) = (is_in x xs ≡ false) × Distinct xs

-- No member of the first stands in the second.
abbrev pub Apart : List String → List String → Type 0
Apart xs ys = All (λ x. is_in x ys ≡ false) xs

-- Every member of the first stands in the second.
abbrev pub Within : List String → List String → Type 0
Within xs ys = All (λ x. is_in x ys ≡ true) xs

pub is_in-append :
    (x : String) (xs ys : List String) → is_in x (xs ++ ys) ≡ (is_in x xs || is_in x ys)
is_in-append x [] ys = refl
is_in-append x (y ∷ xs) ys = ground (arith, is_in-append x xs ys)

pub is_in-add : (x y : String) (xs : List String) → is_in x (add y xs) ≡ (x == y || is_in x xs)
unfolding add
is_in-add x y xs = ground (arith, is_in-append x xs (y ∷ []), eq_iff x y)

pub is_in-discard :
    (x y : String) (xs : List String) → is_in x (discard y xs) ≡ (not (y == x) && is_in x xs)
unfolding discard
is_in-discard x y [] = ground arith
is_in-discard x y (z ∷ zs) =
    ground (arith, is_in-discard x y zs, eq_iff y z, eq_iff x z, eq_iff y x)

pub discard-Distinct : (y : String) (xs : List String) → Distinct xs → Distinct (discard y xs)
unfolding discard
discard-Distinct y [] h = tt
discard-Distinct y (x ∷ xs) h = elim (Bool-cases (y == x)) [
  | inl p ↦ rw p (discard-Distinct y xs h.1)
  | inr p ↦ rw p (ground (arith, is_in-discard x y xs, h.0), discard-Distinct y xs h.1)
]

pub discard-Apart :
    (y : String) (xs ys : List String) → Apart xs ys → Apart (discard y xs) (add y ys)
unfolding discard
discard-Apart y [] ys h = tt
discard-Apart y (x ∷ xs) ys h = elim (Bool-cases (y == x)) [
  | inl p ↦ rw p (discard-Apart y xs ys h.1)
  | inr p ↦
      rw p
        (ground (arith, is_in-add x y ys, h.0, eq_iff x y, eq_iff y x), discard-Apart y xs ys h.1)
]

pub append-Distinct :
    (xs : List String) (x : String) → Distinct xs → is_in x xs ≡ false → Distinct (xs ++ x ∷ [])
append-Distinct [] x h new = (refl, tt)
append-Distinct (y ∷ xs) x h new = (
  ground (arith, is_in-append y xs (x ∷ []), h.0, new, eq_iff x y, eq_iff y x),
  append-Distinct xs x h.1 (ground (arith, new)),
)

pub append-Apart :
    (xs ys : List String) (x : String) → Apart xs ys → is_in x ys ≡ false → Apart (xs ++ x ∷ []) ys
append-Apart [] ys x h new = (new, tt)
append-Apart (y ∷ xs) ys x h new = (h.0, append-Apart xs ys x h.1 new)
