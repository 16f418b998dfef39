-- ===== src/Runtime/Unicode.antt =====
-- unified_runtime/core.py: `_sanitize_unicode_scalars` and the check that `unicode_safe_entrypoint` makes
-- with it, on arguments that come out of JSON: their texts are code points, surrogates among them,
-- and a dict's keys are texts, no two the same.
use customs_buyer_intelligen.Prelude.{
  ℕ, suc, ◌+◌, Bool, true, false, ◌&&◌, ◌||◌, List, [], ◌∷◌, ◌++◌, eqb, leb, if◌then◌else◌,
}
use customs_buyer_intelligen.Chain.{Text, Result, ok, err, invalid, ◌>>=◌}

mutual
  -- The leaves that are no texts are left as they are.
  pub data Raw (S : Type 0) : Type 0 where
    scalar : S → Raw S
    text : Text → Raw S
    list : RawItems S → Raw S
    dict : RawEntries S → Raw S

  pub data RawItems (S : Type 0) : Type 0 where
    no_items : RawItems S
    more_items : Raw S → RawItems S → RawItems S

  pub data RawEntries (S : Type 0) : Type 0 where
    no_entries : RawEntries S
    more_entries : Text → Raw S → RawEntries S → RawEntries S

-- One part of a path, which the code writes as `.<key>`, `[index]` or `["key"]`.
pub data Place : Type 0 where
  key : Place
  index : ℕ → Place
  member : Text → Place

pub data Issue : Type 0 where
  isolated_surrogate : List Place → (count : ℕ) → (code_units : List (ℕ × ℕ)) → Issue
  nfc_normalized : List Place → (before_sha256 after_sha256 : Text) → Issue

-- `unicodedata.normalize("NFC", text)` and the hexadecimal SHA-256 of a text's UTF-8.
pub record Forms : Type 0 where
  pub nfc : Text → Text
  pub sha256 : Text → Text

unfoldable pub eq_text : Text → Text → Bool
eq_text [] [] = true
eq_text (a ∷ as') (b ∷ bs) = eqb a b && eq_text as' bs
eq_text _ _ = false

unfoldable pub is_surrogate : ℕ → Bool
is_surrogate c = leb 55296 c && leb c 57343

-- `code_units[label] = code_units.get(label, 0) + 1`; a label is the four digits of its code point.
unfoldable pub count_unit : ℕ → List (ℕ × ℕ) → List (ℕ × ℕ)
count_unit c [] = (c, 1) ∷ []
count_unit c ((d, n) ∷ units) =
    let rest = count_unit c units in if eqb c d then (d, n + 1) ∷ units else (d, n) ∷ rest

unfoldable pub code_units : Text → List (ℕ × ℕ) → List (ℕ × ℕ)
unfolding is_surrogate count_unit
code_units [] units = units
code_units (c ∷ cs) units = code_units cs (if is_surrogate c then count_unit c units else units)

-- `sum(code_units.values())`
unfoldable pub total : List (ℕ × ℕ) → ℕ
total [] = 0
total ((c, n) ∷ units) = n + total units

-- `sorted(code_units.items())`
unfoldable pub insert_unit : ℕ × ℕ → List (ℕ × ℕ) → List (ℕ × ℕ)
insert_unit u [] = u ∷ []
insert_unit (c, n) ((d, m) ∷ units) =
    let rest = insert_unit (c, n) units in
    if leb c d then (c, n) ∷ (d, m) ∷ units else (d, m) ∷ rest

unfoldable pub sorted_units : List (ℕ × ℕ) → List (ℕ × ℕ)
unfolding insert_unit
sorted_units [] = []
sorted_units (u ∷ units) = insert_unit u (sorted_units units)

-- `cleaned_key in original_keys`: another key of the dict had the same clean form.
unfoldable pub is_taken_key : Text → List Text → Bool
unfolding eq_text
is_taken_key k [] = false
is_taken_key k (j ∷ js) = eq_text k j || is_taken_key k js

unfoldable pub fresh_key : Text → List Text → Result Unit
unfolding is_taken_key
fresh_key k seen =
    if is_taken_key k seen then err (invalid "Unicode key sanitization collision") else ok tt

module _ (forms : Forms) where
  -- The branch for a text, once it has no surrogates.
  unfoldable pub normalized_text : List Place → Text → Text × List Issue
  unfolding eq_text
  normalized_text path t =
      let n = forms.nfc t in
      if eq_text n t
      then (t, [])
      else (n, nfc_normalized path (forms.sha256 t) (forms.sha256 n) ∷ [])

  unfoldable pub clean_text : List Place → Text → Text × List Issue
  unfolding code_units total sorted_units normalized_text
  clean_text path t = elim (code_units t []) [
    | [] ↦ normalized_text path t
    | unit ∷ units ↦
        (t, isolated_surrogate path (total (unit ∷ units)) (sorted_units (unit ∷ units)) ∷ [])
  ]

  module _ {S : Type 0} where
    unfoldable mutual
      unfolding clean_text fresh_key

      pub sanitize : List Place → Raw S → Result (Raw S × List Issue)
      sanitize path (scalar s) = ok (scalar s, [])
      sanitize path (text t) = let (u, issues) = clean_text path t in ok (text u, issues)
      sanitize path (list vs) = do (ws, issues) ← sanitize_items path 0 vs; ok (list ws, issues)
      sanitize path (dict es) = do (fs, issues) ← sanitize_entries path [] es; ok (dict fs, issues)

      pub sanitize_items : List Place → ℕ → RawItems S → Result (RawItems S × List Issue)
      sanitize_items path n no_items = ok (no_items, [])
      sanitize_items path n (more_items v vs) = do
        (w, here) ← sanitize (index n ∷ path) v
        (ws, later) ← sanitize_items path (suc n) vs
        ok (more_items w ws, here ++ later)

      pub sanitize_entries :
          List Place → List Text → RawEntries S → Result (RawEntries S × List Issue)
      sanitize_entries path seen no_entries = ok (no_entries, [])
      sanitize_entries path seen (more_entries k v es) = do
        let (j, of_key) = clean_text (key ∷ path) k
        checked ← fresh_key j seen
        (w, here) ← sanitize (member j ∷ path) v
        (fs, later) ← sanitize_entries path (j ∷ seen) es
        ok (more_entries j w fs, of_key ++ (here ++ later))

-- `issue_type == "ISOLATED_UTF16_SURROGATE"`, of one of them
unfoldable pub has_invalid : List Issue → Bool
has_invalid [] = false
has_invalid (isolated_surrogate path count units ∷ issues) = true
has_invalid (nfc_normalized path before after ∷ issues) = has_invalid issues

-- What the entry point hands to the method, with the issues that it reports.
unfoldable pub accept : {S : Type 0} → Forms → Raw S → Result (Raw S × List Issue)
unfolding sanitize has_invalid
accept forms v = do
  (w, issues) ← sanitize forms [] v
  if has_invalid issues then err (invalid "INVALID_UNICODE_SURROGATE") else ok (w, issues)
