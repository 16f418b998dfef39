-- ===== src/Python/Raising.antt =====
-- Exceptions as values: what a function of the program returns, or the exception that leaves it.
use customs_buyer_intelligen.Prelude.{String, ◌≡◌, refl}

pub data Exception : Type 0 where
  -- `d[key]` of a missing key
  key_error : String → Exception
  -- `int(…)`
  int_error : Exception
  -- iteration over a value that has no elements
  type_error : Exception
  value_error runtime_error : String → Exception

pub data Outcome (A : Type 0) : Type 0 where
  ok : A → Outcome A
  raise : Exception → Outcome A

infixl 5 ◌>>=◌
abbrev pub ◌>>=◌ : {A B : Type 0} → Outcome A → (A → Outcome B) → Outcome B
raise x >>= next = raise x
ok v >>= next = next v

pub >>=-eq-ok :
    {A B : Type 0} (step : Outcome A) (next : A → Outcome B) {out : B}
    → (step >>= next) ≡ ok out
    → (v : A) × (step ≡ ok v) × (next v ≡ ok out)
>>=-eq-ok (raise x) next done = cc
>>=-eq-ok (ok v) next done = (v, refl, done)
