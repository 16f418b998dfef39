-- ===== src/Journal/Finding.antt =====
-- A request is found by its row: in the rows of other events, and after a file was added.
use customs_buyer_intelligen.Prelude.{
  String, true, false, List, [], ◌∷◌, Option, none, some, ◌≡◌, refl, sym, ◌∙◌, ap, inl, inr,
  Bool-cases, eq_iff, ◌==◌,
}
use customs_buyer_intelligen.Python.{Value, Fields, Host, equals_str}
use customs_buyer_intelligen.Chain.{Text, ok, >>=-eq-ok, Codec}
use customs_buyer_intelligen.Journal.Files.{path_of, add_file, comes_first}
use customs_buyer_intelligen.Journal.Defs.{
  Row, latest_row, row_at, row_of_envelope, envelope_of, rows_of, find_request,
}
use customs_buyer_intelligen.Journal.Recording.{row_of_envelope-row_at}

pub ok_injective : {A : Type 0} {a b : A} → ok a ≡ ok b → a ≡ b
ok_injective h = cc

-- The identifier of a file is not empty.
pub path_of-nonempty : (id name : String) → path_of id ≡ ok name → (id == "") ≡ false
unfolding path_of
path_of-nonempty id name h = elim (Bool-cases (id == "")) [
  | inl p ↦ let q : id ≡ "" = (eq_iff id "").0 p in let no = rw q at h in cc
  | inr p ↦ p
]

add_file-later :
    (name : String) (text : Text) (n : String) (t : Text) (files : List (String × Text))
    → comes_first n name ≡ true
    → add_file name text ((n, t) ∷ files) ≡ (n, t) ∷ add_file name text files
unfolding add_file
add_file-later name text n t files h = rw h refl

module _ {F : Type 0} ⦃py : Host F⦄ where
  row_at-request :
      (id : String) (i t r q : Value F) (name : String) (last : Fields F)
      → (row_at id i t r q name last).request_sha256 ≡ r
  unfolding row_at
  row_at-request id i t r q name last = refl

  -- The hash that a row holds does not come from the events.
  row_of_envelope-request :
      (latest later : List (String × Fields F)) (name : String) (envelope : Fields F) (row : Row F)
      → row_of_envelope latest name envelope ≡ ok row
      → (row' : Row F) × (row_of_envelope later name envelope ≡ ok row')
        × (row'.request_sha256 ≡ row.request_sha256)
  row_of_envelope-request latest later name envelope row h =
      let (id, i, t, r, q, made, any) = row_of_envelope-row_at latest name envelope row h in
      (
        row_at id i t r q name (latest_row id later),
        any later,
        row_at-request id i t r q name (latest_row id later)
            ∙ sym (row_at-request id i t r q name (latest_row id latest))
            ∙ ap (λ x. x.request_sha256) made,
      )

  find_request-none :
      (hash : String) (row : Row F) (rows : List (Row F))
      → find_request hash (row ∷ rows) ≡ none
      → (equals_str row.request_sha256 hash ≡ false) × (find_request hash rows ≡ none)
  unfolding find_request
  find_request-none hash row rows h = elim (Bool-cases (equals_str row.request_sha256 hash)) [
    | inl p ↦ let no = rw (p, find_request) at h in cc
    | inr p ↦ (p, rw (p, find_request) at h)
  ]

  find_request-later :
      (hash : String) (row : Row F) (rows : List (Row F)) (found : Option (Row F))
      → equals_str row.request_sha256 hash ≡ false
      → find_request hash rows ≡ found
      → find_request hash (row ∷ rows) ≡ found
  unfolding find_request
  find_request-later hash row rows found h k = rw (h, find_request) k

  find_request-first :
      (hash : String) (row : Row F) (rows : List (Row F))
      → equals_str row.request_sha256 hash ≡ true
      → find_request hash (row ∷ rows) ≡ some row
  unfolding find_request
  find_request-first hash row rows h = rw (h, find_request) refl

  rows_of-cons :
      (codec : Codec F) (latest : List (String × Fields F)) (name : String) (text : Text)
      (files : List (String × Text)) (envelope : Fields F) (row : Row F) (rows : List (Row F))
      → envelope_of codec name text ≡ ok envelope
      → row_of_envelope latest name envelope ≡ ok row
      → rows_of codec latest files ≡ ok rows
      → rows_of codec latest ((name, text) ∷ files) ≡ ok (row ∷ rows)
  unfolding rows_of
  rows_of-cons codec latest name text files envelope row rows h k l = rw (h, k, l) refl

  pub rows_of-other :
      (codec : Codec F) (hash : String) (latest later : List (String × Fields F))
      (files : List (String × Text)) (rows : List (Row F))
      → rows_of codec latest files ≡ ok rows
      → find_request hash rows ≡ none
      → (rows' : List (Row F)) × (rows_of codec later files ≡ ok rows')
        × (find_request hash rows' ≡ none)
  unfolding rows_of find_request
  rows_of-other codec hash latest later [] rows h k = ([], refl, refl)
  rows_of-other codec hash latest later ((name, text) ∷ files) rows h k =
      let (envelope, p, h1) = >>=-eq-ok (envelope_of codec name text) _ h in
      let (row, q, h2) = >>=-eq-ok (row_of_envelope latest name envelope) _ h1 in
      let (others, r, h3) = >>=-eq-ok (rows_of codec latest files) _ h2 in
      let made : row ∷ others ≡ rows = ok_injective h3 in
      let (differs, rest) =
        find_request-none hash row others (ap (λ rs. find_request hash rs) made ∙ k) in
      let (row', s, same) = row_of_envelope-request latest later name envelope row q in
      let (others', t, rest') = rows_of-other codec hash latest later files others r rest in
      (
        row' ∷ others',
        rows_of-cons codec later name text files envelope row' others' p s t,
        find_request-later hash row' others' none (ap (λ v. equals_str v hash) same ∙ differs)
            rest',
      )

  pub rows_of-add_file :
      (codec : Codec F) (hash : String) (latest : List (String × Fields F)) (name : String)
      (text : Text) (envelope : Fields F) (row : Row F) (files : List (String × Text))
      (rows : List (Row F))
      → envelope_of codec name text ≡ ok envelope
      → row_of_envelope latest name envelope ≡ ok row
      → equals_str row.request_sha256 hash ≡ true
      → rows_of codec latest files ≡ ok rows
      → find_request hash rows ≡ none
      → (rows' : List (Row F)) × (rows_of codec latest (add_file name text files) ≡ ok rows')
        × (find_request hash rows' ≡ some row)
  unfolding rows_of add_file find_request
  rows_of-add_file codec hash latest name text envelope row [] rows e m q h k =
      (row ∷ [], rw (e, m) refl, find_request-first hash row [] q)
  rows_of-add_file codec hash latest name text envelope row ((n, t) ∷ files) rows e m q h k =
      elim (Bool-cases (comes_first n name)) [
        | inl p ↦
            let (envelope', e', h1) = >>=-eq-ok (envelope_of codec n t) _ h in
            let (row', m', h2) = >>=-eq-ok (row_of_envelope latest n envelope') _ h1 in
            let (others, h', h3) = >>=-eq-ok (rows_of codec latest files) _ h2 in
            let made : row' ∷ others ≡ rows = ok_injective h3 in
            let (differs, rest) =
              find_request-none hash row' others (ap (λ rs. find_request hash rs) made ∙ k) in
            let (rows', t', found) =
              rows_of-add_file codec hash latest name text envelope row files others e m q h'
                rest in
            (
              row' ∷ rows',
              rw (add_file-later name text n t files p) (
                  rows_of-cons codec latest n t (add_file name text files) envelope' row' rows' e'
                    m' t'),
              find_request-later hash row' rows' (some row) differs found,
            )
        | inr p ↦ (row ∷ rows, rw (p, e, m, h) refl, find_request-first hash row rows q)
      ]
