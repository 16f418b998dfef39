-- ===== src/Chain/Subscript.antt =====
-- What is asked of a dict that was read from a file, with the exceptions as errors.
use customs_buyer_intelligen.Prelude.{String, none, some, ◌≡◌}
use customs_buyer_intelligen.Python.{Value, str, obj, Fields, find}
use customs_buyer_intelligen.Chain.Outcome.{Result, ok, err, attribute_error, other}

module _ {F : Type 0} where
  -- `d[k]`
  unfoldable pub need : String → Fields F → Result (Value F)
  unfolding find
  need k fs = elim (find k fs) [ none ↦ err (other "KeyError") | some v ↦ ok v ]

  pub need-find : (k : String) (fs : Fields F) (v : Value F) → find k fs ≡ some v → need k fs ≡ ok v
  unfolding need find
  need-find k fs v h = rw (h, need)

  -- `.get` and item access want a dict.
  unfoldable pub as_object : Value F → Result (Fields F)
  as_object (obj fs) = ok fs
  as_object _ = err attribute_error

  -- The identifiers that the program writes are texts.
  unfoldable pub as_text : Value F → Result String
  as_text (str s) = ok s
  as_text _ = err (other "TypeError")
