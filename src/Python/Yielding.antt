-- ===== src/Python/Yielding.antt =====
-- What holds of the value that a chain of steps returns, where none of them raises.
use customs_buyer_intelligen.Prelude.{Bool, true, false, ◌≡◌, refl, subst, if◌then◌else◌}
use customs_buyer_intelligen.Python.Raising.{Exception, Outcome, ok, raise, ◌>>=◌}

module _ {A : Type 0} where
  -- The value, where there is one, has the property.
  unfoldable pub Yields : (A → Type 0) → Outcome A → Type 0
  Yields P (raise x) = Unit
  Yields P (ok v) = P v

  pub ok-Yields : (P : A → Type 0) (v : A) → P v → Yields P (ok v)
  unfolding Yields
  ok-Yields P v h = h

  pub Yields-ok : (P : A → Type 0) (r : Outcome A) (v : A) → Yields P r → r ≡ ok v → P v
  unfolding Yields
  Yields-ok P (raise x) v h done = cc
  Yields-ok P (ok w) v h done = subst P (same done) h
    where
      same : {a b : A} → ok a ≡ ok b → a ≡ b
      same q = cc

  -- A test that raises, and what is yielded where it does not.
  pub if-Yields :
      (P : A → Type 0) (test : Bool) (x : Exception) (next : Outcome A)
      → (test ≡ false → Yields P next)
      → Yields P (if test then raise x else next)
  unfolding Yields
  if-Yields P true x next h = tt
  if-Yields P false x next h = h refl

  -- A test that either answers or goes on.
  pub else-Yields :
      (P : A → Type 0) (test : Bool) (here next : Outcome A)
      → (test ≡ true → Yields P here)
      → (test ≡ false → Yields P next)
      → Yields P (if test then here else next)
  else-Yields P true here next h k = h refl
  else-Yields P false here next h k = k refl

-- A step, and what the rest yields of any value that the step returns.
pub step-Yields :
    {A B : Type 0} (P : B → Type 0) (step : Outcome A) (next : A → Outcome B)
    → ((v : A) → step ≡ ok v → Yields P (next v))
    → Yields P (step >>= next)
unfolding Yields
step-Yields P (raise x) next h = tt
step-Yields P (ok v) next h = h v refl
