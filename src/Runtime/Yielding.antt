-- ===== src/Runtime/Yielding.antt =====
-- What holds of the value that a chain of fallible steps returns.
use customs_buyer_intelligen.Prelude.{◌≡◌, refl, subst}
use customs_buyer_intelligen.Chain.{Result, ok, err, ok_injective, ◌>>=◌}

module _ {A : Type 0} where
  -- The value, where there is one, has the property.
  unfoldable pub Yields : (A → Type 0) → Result A → Type 0
  Yields P (err x) = Unit
  Yields P (ok v) = P v

  pub ok-Yields : (P : A → Type 0) (v : A) → P v → Yields P (ok v)
  unfolding Yields
  ok-Yields P v h = h

  pub Yields-ok : (P : A → Type 0) (r : Result A) (v : A) → Yields P r → r ≡ ok v → P v
  unfolding Yields
  Yields-ok P (err x) v h done = cc
  Yields-ok P (ok w) v h done = subst P (ok_injective done) h

-- A step, and what the rest yields of any value that the step returns.
pub step-Yields :
    {A B : Type 0} (P : B → Type 0) (step : Result A) (next : A → Result B)
    → ((v : A) → step ≡ ok v → Yields P (next v))
    → Yields P (step >>= next)
unfolding Yields
step-Yields P (err x) next h = tt
step-Yields P (ok v) next h = h v refl
