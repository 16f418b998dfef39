-- ===== src/Journal/Files.antt =====
-- The journal's directory, and the names in it.
use Prim.Native.Nat.{Ordering}
use Prim.Native.Char.{code}
use Prim.Native.String
use customs_buyer_intelligen.Prelude.{
  String, Bool, true, false, ◌&&◌, ◌||◌, List, [], ◌∷◌, Option, none, some, leb, eqb, ◌==◌,
  if◌then◌else◌,
}
use customs_buyer_intelligen.Python.{is_lower_hex}
use customs_buyer_intelligen.Chain.{Text, Result, ok, err, invalid}

abbrev pub allowed_targets : List String
allowed_targets =
    "append_information_record" ∷ "append_execution_receipt" ∷ "append_provider_receipt"
    ∷ "append_peer_receipt" ∷ "append_crm_writeback_receipt" ∷ []

-- The journal's directory: the texts of the files `PEND-*.json` by their names, as `sorted` lists
-- them, and the state of the event log.
pub record Store (L : Type 0) : Type 0 where
  pub files : List (String × Text)
  pub log : L

-- `PENDING_ID_RE.fullmatch`: `PEND-[0-9TZ-]+-[0-9a-f]{12}`
unfoldable pub is_suffix : String → Bool
unfolding is_lower_hex
is_suffix String.[] = false
is_suffix (String.◌∷◌ c s) = eqb (code c) 45 && is_lower_hex 12 s

unfoldable pub is_stamped : String → Bool
unfolding is_suffix
is_stamped String.[] = false
is_stamped (String.◌∷◌ c s) =
    ((leb 48 (code c) && leb (code c) 57) || eqb (code c) 84 || eqb (code c) 90 || eqb (code c) 45)
    && (is_suffix s || is_stamped s)

unfoldable pub is_pending_id : String → Bool
unfolding is_stamped
is_pending_id (String.◌∷◌ a (String.◌∷◌ b (String.◌∷◌ c (String.◌∷◌ d (String.◌∷◌ e s))))) =
    eqb (code a) 80
    && eqb (code b) 69
    && eqb (code c) 78
    && eqb (code d) 68
    && eqb (code e) 45
    && is_stamped s
is_pending_id _ = false

-- `path`: the file's name.
unfoldable pub path_of : String → Result String
unfolding is_pending_id
path_of journal_id =
    if is_pending_id journal_id
    then ok (String.◌++◌ journal_id ".json")
    else err (invalid "journal_id: invalid")

abbrev pub file_at : String → List (String × Text) → Option Text
file_at name [] = none
file_at name ((n, text) ∷ files) = if n == name then some text else file_at name files

-- A new file where `sorted` lists it; names are compared by code points.
abbrev is_before : Ordering → Bool
is_before Ordering.lt = true
is_before Ordering.eq = false
is_before Ordering.gt = false

abbrev pub comes_first : String → String → Bool
comes_first a b = is_before (String.compare a b)

unfoldable pub add_file : String → Text → List (String × Text) → List (String × Text)
add_file name text [] = (name, text) ∷ []
add_file name text ((n, t) ∷ files) =
    let rest = add_file name text files in
    if comes_first n name then (n, t) ∷ rest else (name, text) ∷ (n, t) ∷ files
