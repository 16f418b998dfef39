-- ===== src/Runtime/Inputs.antt =====
-- unified_runtime/core.py: the checks on what a caller gives, and on times.
use Prim.Native.Char.{code}
use Prim.Native.String
use customs_buyer_intelligen.Prelude.{
  ℕ, String, List, [], ◌∷◌, Option, none, some, is_in, eqb, ◌==◌, if◌then◌else◌,
}
use customs_buyer_intelligen.Python.{Value, str, Fields, end, field, strip}
use customs_buyer_intelligen.Chain.{Result, ok, err, invalid}

infixr 65 ◌&◌
abbrev pub ◌&◌ : String → String → String
s & t = String.◌++◌ s t

-- `nonempty`
unfoldable pub nonempty : {F : Type 0} → Value F → String → Result String
unfolding strip
nonempty (str s) name =
    if strip s == "" then err (invalid (name & ": non-empty string required")) else ok (strip s)
nonempty _ name = err (invalid (name & ": non-empty string required"))

-- `text.replace("Z", "+00:00")`
unfoldable pub with_offset : String → String
with_offset String.[] = ""
with_offset (String.◌∷◌ c s) =
    let rest = with_offset s in if eqb (code c) 90 then "+00:00" & rest else String.◌∷◌ c rest

-- `datetime.fromisoformat` of a text: `none` where it raises, `some none` for a time without an
-- offset, and else the microseconds that the time is after the first one there is.
abbrev pub IsoTimes : Type 0
IsoTimes = String → Option (Option ℕ)

unfoldable pub aware : String → Option (Option ℕ) → Result ℕ
aware name none = err (invalid (name & ": invalid ISO-8601 timestamp"))
aware name (some none) = err (invalid (name & ": timezone offset required"))
aware name (some (some time)) = ok time

-- `parse_time`
unfoldable pub parse_time : {F : Type 0} → IsoTimes → Value F → String → Result ℕ
unfolding strip with_offset aware
parse_time iso (str s) name =
    if strip s == ""
    then err (invalid (name & ": timezone-aware timestamp required"))
    else aware name (iso (with_offset (strip s)))
parse_time iso _ name = err (invalid (name & ": timezone-aware timestamp required"))

-- `",".join(texts)`
unfoldable pub joined : List String → String
joined [] = ""
joined (s ∷ []) = s
joined (s ∷ t ∷ ts) = s & "," & joined (t ∷ ts)

-- `set(fields) - allowed`
unfoldable pub unexpected : {F : Type 0} → List String → Fields F → List String
unexpected allowed end = []
unexpected allowed (field k v fs) =
    let rest = unexpected allowed fs in if is_in k allowed then rest else k ∷ rest
