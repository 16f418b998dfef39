-- ===== src/Gates/Values.antt =====
-- What the gates share: iteration over a JSON value, and the product profiles
-- of unified_runtime/product_profiles.py.
use customs_buyer_intelligen.Prelude.{String, Bool, List, [], ◌∷◌, is_in, if◌then◌else◌}
use customs_buyer_intelligen.Python.{
  Outcome, ok, raise, type_error, Value, str, arr, obj, Fields, field, end, Host, items, truthy,
  strip, upper, Tables,
}

module _ {F : Type 0} where
  unfoldable pub keys : Fields F → List (Value F)
  keys end = []
  keys (field k v fs) = str k ∷ keys fs

  unfoldable pub chars : String → List (Value F)
  chars String.[] = []
  chars (String.◌∷◌ c s) = str (String.◌∷◌ c String.[]) ∷ chars s

  -- `for x in v`: the elements of a list, the keys of a dict, the characters of a text.
  unfoldable pub iterated : Value F → Outcome (List (Value F))
  unfolding items keys chars
  iterated (arr vs) = ok (items vs)
  iterated (obj fs) = ok (keys fs)
  iterated (str s) = ok (chars s)
  iterated v = raise type_error

module _ {F : Type 0} ⦃py : Host F⦄ where
  -- `list(v or [])`
  unfoldable pub listed : Value F → Outcome (List (Value F))
  unfolding truthy iterated
  listed v = if truthy v then iterated v else ok []

-- `get_product_profile` of a profile's name: whether the registry has it.
unfoldable pub is_profile : Tables → String → Bool
unfolding strip upper
is_profile tables name =
    is_in (upper tables (strip name)) ("PVC" ∷ "WPC" ∷ "SPC" ∷ "ACRYLIC_PMMA" ∷ [])
