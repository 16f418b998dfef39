-- ===== src/Chain/Outcome.antt =====
-- What the log's operations raise, and the chain of fallible steps.
use customs_buyer_intelligen.Prelude.{ℕ, String, ◌≡◌, refl, ◌⊎◌, inl, inr}

pub data Error : Type 0 where
  -- `ValidationError` at a line: corrupt JSONL, hash chain broken, event hash mismatch
  corrupt broken mismatch : ℕ → Error
  -- `.get` on a line's JSON that is no object
  attribute_error : Error
  -- any other `ValidationError`, by its message
  invalid : String → Error
  -- any other exception, by its text
  other : String → Error

pub data Result (A : Type 0) : Type 0 where
  ok : A → Result A
  err : Error → Result A

infixl 5 ◌>>=◌
abbrev pub ◌>>=◌ : {A B : Type 0} → Result A → (A → Result B) → Result B
err x >>= next = err x
ok v >>= next = next v

-- A chain that came to its end: every step of it did.
pub >>=-eq-ok :
    {A B : Type 0} (step : Result A) (next : A → Result B) {out : B}
    → (step >>= next) ≡ ok out
    → (v : A) × (step ≡ ok v) × (next v ≡ ok out)
>>=-eq-ok (err x) next done = cc
>>=-eq-ok (ok v) next done = (v, refl, done)

pub ok_injective : {A : Type 0} {a b : A} → ok a ≡ ok b → a ≡ b
ok_injective h = cc

pub Result-cases :
    {A : Type 0} (r : Result A) → ((v : A) × (r ≡ ok v)) ⊎ ((x : Error) × (r ≡ err x))
Result-cases (err x) = inr (x, refl)
Result-cases (ok v) = inl (v, refl)
