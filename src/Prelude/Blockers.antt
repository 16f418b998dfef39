-- ===== src/Prelude/Blockers.antt =====
-- Lists of blockers: `if test: blockers.append(name)`, one after the other, and `not blockers`.
use mathlib.Core.Path.{◌≡◌, refl}
use mathlib.Core.Logic.{◌↔◌}
use mathlib.Core.Bool.{Bool, true, false, not}
use mathlib.Core.List.{List, [], ◌∷◌, ◌++◌}
use Prim.Native.String.{String}
use text.Mathlib.Text.{◌==◌}
use customs_buyer_intelligen.Prelude.Tests.{if◌then◌else◌}

-- `if test: blockers.append(name)`
abbrev pub when : Bool → String → List String
when true name = name ∷ []
when false name = []

infixr 65 ◌⊕◌
abbrev pub ◌⊕◌ : List String → List String → List String
xs ⊕ ys = xs ++ ys

-- `not blockers`
abbrev pub is_empty : List String → Bool
is_empty [] = true
is_empty (_ ∷ _) = false

pub is_empty-append :
    (xs ys : List String)
    → (is_empty (xs ⊕ ys) ≡ true) ↔ ((is_empty xs ≡ true) × (is_empty ys ≡ true))
is_empty-append [] ys = (λ h. (refl, h), λ h. h.1)
is_empty-append (x ∷ xs) ys = (λ h. (cc, cc), λ h. cc)

pub is_empty-when : (b : Bool) (x : String) → (is_empty (when b x) ≡ true) ↔ (b ≡ false)
is_empty-when true x = (λ h. cc, λ h. cc)
is_empty-when false x = (λ _. refl, λ _. refl)

-- The blocker of a test that must hold.
pub is_empty-unless : (b : Bool) (x : String) → (is_empty (when (not b) x) ≡ true) ↔ (b ≡ true)
is_empty-unless true x = (λ _. refl, λ _. refl)
is_empty-unless false x = (λ h. cc, λ h. cc)

-- A sequence of `if test: blockers.append(name)`.
abbrev pub raised_by : List (Bool × String) → List String
raised_by [] = []
raised_by ((test, name) ∷ checks) = when test name ⊕ raised_by checks

-- `list(dict.fromkeys(blockers))`
unfoldable pub without_text : String → List String → List String
without_text x [] = []
without_text x (y ∷ ys) = let rest = without_text x ys in if x == y then rest else y ∷ rest

unfoldable pub first_of_each : List String → List String
unfolding without_text
first_of_each [] = []
first_of_each (x ∷ xs) = x ∷ without_text x (first_of_each xs)

pub is_empty-first_of_each : (xs : List String) → is_empty (first_of_each xs) ≡ is_empty xs
unfolding first_of_each
is_empty-first_of_each [] = refl
is_empty-first_of_each (x ∷ xs) = refl

-- No test of the sequence holds.
abbrev pub Clear : List (Bool × String) → Type 0
Clear [] = Unit
Clear ((test, name) ∷ checks) = (test ≡ false) × Clear checks

pub is_empty-raised_by :
    (checks : List (Bool × String)) → (is_empty (raised_by checks) ≡ true) ↔ Clear checks
is_empty-raised_by [] = (λ _. tt, λ _. refl)
is_empty-raised_by ((true, name) ∷ checks) = (λ h. cc, λ h. cc)
is_empty-raised_by ((false, name) ∷ checks) =
    (λ h. (refl, (is_empty-raised_by checks).0 h), λ h. (is_empty-raised_by checks).1 h.1)
