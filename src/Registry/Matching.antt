-- ===== src/Registry/Matching.antt =====
-- `resolve` of the registry: which known account a candidate is, by the rows that `entries` gives.
use Prim.Native.Nat.{Ordering}
use Prim.Native.Char.{Char, code}
use Prim.Native.String
use customs_buyer_intelligen.Prelude.{
  ℕ, zero, String, Bool, true, false, not, ◌&&◌, ◌||◌, List, [], ◌∷◌, is_in, ltb, leb, eqb, max,
  suc, when, ◌⊕◌, is_empty, ◌==◌, if◌then◌else◌,
}
use customs_buyer_intelligen.Python.{
  Value, null, str, arr, Fields, Host, Tables, ◌>>=◌, items, get, or_value, truthy, to_str, strip,
  casefold, Outcome, ok, raise, value_error,
}

-- What the module asks of `unicodedata`: NFKC, and whether a character's category is L, N or M.
pub record Unicode : Type 0 where
  pub nfkc : String → String
  pub is_kept : Char → Bool

-- The dict of sets that `_keys` returns.
pub record Keys : Type 0 where
  pub names : List String
  pub tax_ids : List String
  pub addresses : List String
  pub external_ids : List String
  pub countries : List String

pub record Match : Type 0 where
  pub account_id : String
  pub score : ℕ
  pub reasons : List String
  pub origin : String

unfoldable pub kept : (Char → Bool) → String → String
kept keep String.[] = ""
kept keep (String.◌∷◌ c s) = let rest = kept keep s in if keep c then String.◌∷◌ c rest else rest

-- Whether two sets have an element in common.
unfoldable pub intersects : List String → List String → Bool
intersects [] ys = false
intersects (x ∷ xs) ys = is_in x ys || intersects xs ys

-- `_match_score`
unfoldable pub match_score : Tables → Keys → Keys → String → String → ℕ × List String
unfolding casefold intersects
match_score tables candidate row requested_id row_id =
    let exact =
      not (requested_id == "") && casefold tables requested_id == casefold tables row_id in
    let same_tax = intersects candidate.tax_ids row.tax_ids in
    let same_country =
      is_empty candidate.countries
      || is_empty row.countries
      || intersects candidate.countries row.countries in
    let same_name = same_country && intersects candidate.names row.names in
    let same_address = same_country && intersects candidate.addresses row.addresses in
    let same_external = intersects candidate.external_ids row.external_ids in
    (
      max (if exact then 100 else 0) (
          max (if same_tax then 95 else 0) (
            max (if same_name then 85 else 0)
              (max (if same_address then 80 else 0) (if same_external then 90 else 0)))),
      when same_address "ADDRESS_COUNTRY"
          ⊕ when exact "EXACT_ACCOUNT_ID"
          ⊕ when same_external "EXTERNAL_ID"
          ⊕ when same_name "NAME_COUNTRY"
          ⊕ when same_tax "TAX_ID",
    )

-- `ACCOUNT_ID_RE.fullmatch`
unfoldable pub is_id_start : ℕ → Bool
is_id_start c = (leb 48 c && leb c 57) || (leb 65 c && leb c 90) || (leb 97 c && leb c 122)

unfoldable pub is_id_rest : ℕ → String → Bool
unfolding is_id_start
is_id_rest n String.[] = true
is_id_rest zero (String.◌∷◌ c s) = false
is_id_rest (suc n) (String.◌∷◌ c s) =
    (is_id_start (code c)
      || eqb (code c) 46
      || eqb (code c) 95
      || eqb (code c) 58
      || eqb (code c) 45)
    && is_id_rest n s

unfoldable pub is_account_id : String → Bool
unfolding is_id_start is_id_rest
is_account_id String.[] = false
is_account_id (String.◌∷◌ c s) = is_id_start (code c) && is_id_rest 127 s

abbrev is_less : Ordering → Bool
is_less Ordering.lt = true
is_less Ordering.eq = false
is_less Ordering.gt = false

-- The order of the sort's key `(-score, account_id.casefold())`.
unfoldable pub precedes : Tables → Match → Match → Bool
unfolding casefold
precedes tables a b =
    ltb b.score a.score
    || (eqb a.score b.score
        && is_less (String.compare (casefold tables a.account_id) (casefold tables b.account_id)))

-- `list.sort`, which is stable: a match goes before the later ones that do not precede it.
unfoldable pub insert : Tables → Match → List Match → List Match
insert tables m [] = m ∷ []
insert tables m (x ∷ xs) =
    let rest = insert tables m xs in if precedes tables x m then x ∷ rest else m ∷ x ∷ xs

unfoldable pub sorted : Tables → List Match → List Match
unfolding insert
sorted tables [] = []
sorted tables (m ∷ ms) = insert tables m (sorted tables ms)

unfoldable pub with_score : ℕ → List Match → List Match
with_score n [] = []
with_score n (m ∷ ms) = let rest = with_score n ms in if eqb m.score n then m ∷ rest else rest

-- The matches of the top score have more than one `account_id.casefold()`: one of them is another
-- than the first one's.
unfoldable pub has_other : Tables → String → List Match → Bool
unfolding casefold
has_other tables id [] = false
has_other tables id (m ∷ ms) =
    not (casefold tables id == casefold tables m.account_id) || has_other tables id ms

pub data Resolved : Type 0 where
  not_found : Resolved
  ambiguous : (candidates : List Match) → Resolved
  matched : (match : Match) → (candidates : List Match) → Resolved

-- What the sorted matches come to.
unfoldable pub outcome_of : Tables → List Match → Resolved
unfolding with_score has_other
outcome_of tables [] = not_found
outcome_of tables (m ∷ ms) =
    let top = with_score m.score (m ∷ ms) in
    if has_other tables m.account_id top then ambiguous top else matched m (m ∷ ms)

-- The guards of `resolve`.
unfoldable pub is_invalid : String → Bool
unfolding is_account_id
is_invalid requested = not (requested == "") && not (is_account_id requested)

unfoldable pub says_nothing : String → Keys → Bool
says_nothing requested keys =
    requested == ""
    && is_empty keys.names
    && is_empty keys.tax_ids
    && is_empty keys.addresses
    && is_empty keys.external_ids

-- A row of `entries`.
pub record Entry (F : Type 0) : Type 0 where
  pub account_id : String
  pub account : Fields F
  pub origin : String

module _ {F : Type 0} ⦃py : Host F⦄ (unicode : Unicode) where
  -- `normalize_scalar`
  unfoldable pub normalize_scalar : Value F → String
  unfolding to_str casefold strip kept
  normalize_scalar null = ""
  normalize_scalar v = kept unicode.is_kept (strip (casefold py.tables (unicode.nfkc (to_str v))))

  unfoldable pub normalized : List (Value F) → List String
  unfolding normalize_scalar
  normalized [] = []
  normalized (v ∷ vs) =
      let rest = normalized vs in
      if normalize_scalar v == "" then rest else normalize_scalar v ∷ rest

  -- `normalized_values`
  unfoldable pub normalized_values : Value F → List String
  unfolding normalized items
  normalized_values null = []
  normalized_values (arr vs) = normalized (items vs)
  normalized_values v = normalized (v ∷ [])

  -- `account.get("aliases") or []`, as a list.
  unfoldable pub aliases_of : Value F → Outcome (List (Value F))
  unfolding truthy items
  aliases_of (str s) = ok (if s == "" then [] else str s ∷ [])
  aliases_of (arr vs) = ok (items vs)
  aliases_of v =
      if truthy v then raise (value_error "account.aliases: string array required") else ok []

  -- `_keys`
  unfoldable pub keys_of : Fields F → Outcome Keys
  unfolding aliases_of get normalized normalized_values or_value
  keys_of account = do
    aliases ← aliases_of (get "aliases" account)
    ok (record {
      names = normalized (get "name" account ∷ aliases);
      tax_ids = normalized_values (or_value (get "tax_ids" account) (get "tax_id" account));
      addresses = normalized_values (or_value (get "addresses" account) (get "address" account));
      external_ids = normalized_values (get "external_ids" account);
      countries = normalized_values (get "country" account);
    })

  -- The loop over the rows.
  unfoldable pub matches_of : Keys → String → List (Entry F) → Outcome (List Match)
  unfolding match_score
  matches_of candidate requested [] = ok []
  matches_of candidate requested (row ∷ rows) = do
    keys ← keys_of row.account
    rest ← matches_of candidate requested rows
    let found = match_score py.tables candidate keys requested row.account_id
    ok (
        if eqb found.0 0
        then rest
        else record {
          account_id = row.account_id;
          score = found.0;
          reasons = found.1;
          origin = row.origin;
        }
          ∷ rest)

  -- `resolve`; the `ValidationError`s are `value_error`s here.
  unfoldable pub resolve : Fields F → String → List (Entry F) → Outcome Resolved
  resolve candidate requested_account_id rows =
      let requested = strip requested_account_id in
      if is_invalid requested then raise (value_error "requested_account_id: invalid") else do
        keys ← keys_of candidate
        if says_nothing requested keys
            then raise (value_error "candidate requires a name, tax ID, address, or external ID")
            else do
              found ← matches_of keys requested rows
              ok (outcome_of py.tables (sorted py.tables found))
