-- ===== src/Registry/Accounts.antt =====
-- The registry's file and the sessions' headers: `entries`, and `resolve_or_create`, which writes.
use Prim.Native.Char.{code}
use Prim.Native.String
use customs_buyer_intelligen.Prelude.{
  ℕ, ◌+◌, ◌*◌, ◌-◌, String, Bool, false, ◌&&◌, ◌||◌, List, [], ◌∷◌, Option, none, some, leb, ltb,
  eqb, max, ◌==◌, if◌then◌else◌,
}
use customs_buyer_intelligen.Python.{
  Value, str, arr, obj, Items, nil, cons, Fields, end, field, Host, pos, get, stripped, casefold,
  or_value, show_int, Outcome, key_error, int_error, type_error, value_error, runtime_error, raise,
  sorted_texts,
}
use customs_buyer_intelligen.Python.{ok as returned}
use customs_buyer_intelligen.Chain.{
  Text, universal, Result, ok, err, invalid, other, ◌>>=◌, need, as_object, as_text, Codec,
}
use customs_buyer_intelligen.Registry.Matching.{Keys, Entry, Resolved}

module _ {F : Type 0} where
  -- `rows[account_id] = …`: a key that is there keeps its place.
  unfoldable pub set_entry : Entry F → List (Entry F) → List (Entry F)
  set_entry e [] = e ∷ []
  set_entry e (row ∷ rows) =
      let rest = set_entry e rows in if row.account_id == e.account_id then e ∷ rows else row ∷ rest

  -- `rows.setdefault(account_id, …)`
  unfoldable pub set_default : Entry F → List (Entry F) → List (Entry F)
  set_default e [] = e ∷ []
  set_default e (row ∷ rows) =
      let rest = set_default e rows in
      if row.account_id == e.account_id then row ∷ rows else row ∷ rest

  unfoldable pub set_defaults : List (Entry F) → List (Entry F) → List (Entry F)
  unfolding set_default
  set_defaults [] rows = rows
  set_defaults (e ∷ es) rows = set_defaults es (set_default e rows)

  -- One round of the loop over the registry's events, for identifiers that are texts. An account that
  -- is no dict is refused here; in the program `_keys` fails on it.
  unfoldable pub note_account : List (Entry F) → Fields F → Result (List (Entry F))
  note_account rows event = do
    v ← need "payload" event
    payload ← as_object v
    id ← need "account_id" payload
    account_id ← as_text id
    a ← need "account" payload
    account ← as_object a
    _ ← need "seq" event
    ok (
        set_entry
          (record { account_id = account_id; account = account; origin = "CANONICAL_REGISTRY" })
          rows)

  unfoldable pub registered : List (Entry F) → List (Fields F) → Result (List (Entry F))
  registered rows [] = ok rows
  registered rows (event ∷ events) = do next ← note_account rows event; registered next events

-- `readline`, on a text with no CR.
unfoldable pub read_line : Text → Text
read_line [] = []
read_line (c ∷ cs) = let rest = read_line cs in if eqb c 10 then c ∷ [] else c ∷ rest

-- The digits of `\d`: `decimal` is the digit that a character from U+0080 on stands for.
unfoldable pub digit_of : (ℕ → Option ℕ) → ℕ → Option ℕ
digit_of decimal c =
    if leb 48 c && leb c 57 then some (c - 48) else if ltb c 128 then none else decimal c

-- `int(…)` of digits, where all of them are.
unfoldable pub number_from : (ℕ → Option ℕ) → ℕ → String → Option ℕ
unfolding digit_of
number_from decimal n String.[] = some n
number_from decimal n (String.◌∷◌ c s) = elim (digit_of decimal (code c)) [
  | none ↦ none
  | some d ↦ number_from decimal (n * 10 + d) s
]

-- `re.fullmatch(r"C(\d+)", account_id, flags=re.I)`, with its number.
unfoldable pub account_number : (ℕ → Option ℕ) → String → Option ℕ
unfolding number_from
account_number decimal (String.◌∷◌ c (String.◌∷◌ d s)) =
    let number = number_from decimal 0 (String.◌∷◌ d s) in
    if eqb (code c) 67 || eqb (code c) 99 then number else none
account_number decimal _ = none

-- `max(numbers, default=0)`
unfoldable pub highest : {F : Type 0} → (ℕ → Option ℕ) → List (Entry F) → ℕ
unfolding account_number
highest decimal [] = 0
highest decimal (row ∷ rows) = elim (account_number decimal row.account_id) [
  | none ↦ highest decimal rows
  | some n ↦ max n (highest decimal rows)
]

-- `f"C{n:03d}"`
unfoldable pub numbered_id : ℕ → String
unfolding show_int
numbered_id n =
    String.◌++◌ (if ltb n 10 then "C00" else if ltb n 100 then "C0" else "C") (show_int (pos n))

abbrev text_items : {F : Type 0} → List String → Items F
text_items [] = nil
text_items (x ∷ xs) = cons (str x) (text_items xs)

-- `{key: sorted(value) for key, value in self._keys(account).items()}`
unfoldable pub keys_value : {F : Type 0} → Keys → Value F
unfolding sorted_texts
keys_value keys = obj (
    field "names" (arr (text_items (sorted_texts keys.names))) (
      field "tax_ids" (arr (text_items (sorted_texts keys.tax_ids))) (
        field "addresses" (arr (text_items (sorted_texts keys.addresses))) (
          field "external_ids" (arr (text_items (sorted_texts keys.external_ids)))
            (field "countries" (arr (text_items (sorted_texts keys.countries))) end)))))

-- An exception of `resolve` or `_keys`; the `ValidationError`s stand there as `value_error`s.
unfoldable pub lifted : {A : Type 0} → Outcome A → Result A
lifted (returned v) = ok v
lifted (raise (value_error s)) = err (invalid s)
lifted (raise (runtime_error s)) = err (other s)
lifted (raise (key_error s)) = err (other "KeyError")
lifted (raise int_error) = err (other "ValueError")
lifted (raise type_error) = err (other "TypeError")

-- What `resolve_or_create` returns.
pub data Answer : Type 0 where
  resolved : Resolved → Answer
  created : (account_id : String) → Answer

-- What it does: answer, or append an event.
pub data Plan (F : Type 0) : Type 0 where
  answers : Resolved → Plan F
  creates : (account_id : String) → (payload : Value F) → Plan F

module _ {F : Type 0} ⦃py : Host F⦄ where
  -- `any(row["account_id"].casefold() == account_id.casefold() for row in entries)`
  unfoldable pub is_taken : String → List (Entry F) → Bool
  unfolding casefold
  is_taken account_id [] = false
  is_taken account_id (row ∷ rows) =
      casefold py.tables row.account_id == casefold py.tables account_id || is_taken account_id rows

  module _ (codec : Codec F) where
    -- One round of the loop over the sessions' files.
    unfoldable pub session_account : Text → Result (Option (Entry F))
    unfolding universal read_line or_value get stripped as_object
    session_account text = elim (codec.loads (read_line (universal false text))) [
      | none ↦ ok none
      | some v ↦ do
        event ← as_object v
        payload ← as_object (or_value (get "payload" event) (obj end))
        account ← as_object (or_value (get "account" payload) (obj end))
        let account_id = stripped (get "account_id" account)
        ok (
            if account_id == ""
            then none
            else some
                (record { account_id = account_id; account = account; origin = "SESSION_HEADER" }))
    ]

    -- `_session_accounts`, on the texts of the files `INV-*.jsonl` in the order of their names.
    unfoldable pub session_accounts : List Text → Result (List (Entry F))
    unfolding session_account
    session_accounts [] = ok []
    session_accounts (text ∷ texts) = do
      found ← session_account text
      rows ← session_accounts texts
      ok (elim found [ none ↦ rows | some row ↦ row ∷ rows ])
