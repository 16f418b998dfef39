-- ===== src/Registry/Entries.antt =====
-- The entry of an identifier, and what storing another one does to it.
use customs_buyer_intelligen.Prelude.{
  String, false, List, [], ◌∷◌, ◌++◌, Option, none, some, ◌≡◌, refl, sym, ◌∙◌, inl, inr, Bool-cases,
  eq_iff, ◌==◌, if◌then◌else◌,
}
use customs_buyer_intelligen.Python.{Value, str, obj, Fields, find}
use customs_buyer_intelligen.Chain.{ok, >>=-eq-ok, need-find, as_object, as_text}
use customs_buyer_intelligen.Registry.Matching.{Entry}
use customs_buyer_intelligen.Registry.Accounts.{
  set_entry, set_default, set_defaults, note_account, registered,
}

pub ok_injective : {A : Type 0} {a b : A} → ok a ≡ ok b → a ≡ b
ok_injective h = cc

module _ {F : Type 0} where
  -- The entry of an identifier.
  unfoldable pub entry_of : String → List (Entry F) → Option (Entry F)
  entry_of id [] = none
  entry_of id (row ∷ rows) = if row.account_id == id then some row else entry_of id rows

  pub entry_of-set_entry :
      (id : String) (e : Entry F) (rows : List (Entry F))
      → entry_of id (set_entry e rows) ≡ (if e.account_id == id then some e else entry_of id rows)
  unfolding entry_of set_entry
  entry_of-set_entry id e [] = refl
  entry_of-set_entry id e (row ∷ rows) = elim (Bool-cases (row.account_id == e.account_id)) [
    | inl same ↦
        let p : row.account_id ≡ e.account_id = (eq_iff row.account_id e.account_id).0 same in
        rw (same, p)
          (elim (Bool-cases (e.account_id == id)) [ inl q ↦ rw q refl | inr q ↦ rw q refl ])
    | inr differs ↦
        rw (differs, entry_of-set_entry id e rows)
          (elim (Bool-cases (e.account_id == id)) [
            | inl q ↦ elim (Bool-cases (row.account_id == id)) [
              | inl r ↦
                  let p : row.account_id ≡ e.account_id =
                    (eq_iff row.account_id id).0 r ∙ sym ((eq_iff e.account_id id).0 q) in
                  let no = (eq_iff row.account_id e.account_id).1 p in cc
              | inr r ↦ rw (q, r) refl
            ]
            | inr q ↦ rw q refl
          ])
  ]

  abbrev or_else : Option (Entry F) → Option (Entry F) → Option (Entry F)
  or_else none d = d
  or_else (some e) d = some e

  or_else-none : (o : Option (Entry F)) → o ≡ or_else o none
  or_else-none none = refl
  or_else-none (some e) = refl

  entry_of-set_default :
      (id : String) (e : Entry F) (rows : List (Entry F))
      → entry_of id (set_default e rows)
        ≡ or_else (entry_of id rows) (if e.account_id == id then some e else none)
  unfolding entry_of set_default
  entry_of-set_default id e [] = refl
  entry_of-set_default id e (row ∷ rows) = elim (Bool-cases (row.account_id == id)) [
    | inl r ↦ elim (Bool-cases (row.account_id == e.account_id)) [
      | inl same ↦ rw (same, r) refl
      | inr differs ↦ rw (differs, r) refl
    ]
    | inr r ↦ elim (Bool-cases (row.account_id == e.account_id)) [
      | inl same ↦
          let p = (eq_iff row.account_id e.account_id).0 same in
          let q : e.account_id == id ≡ false = rw p at r in
          rw (same, r, q) (or_else-none (entry_of id rows))
      | inr differs ↦ rw (differs, r) (entry_of-set_default id e rows)
    ]
  ]

  -- Defaults keep what two lists agree on.
  pub entry_of-set_defaults :
      (id : String) (found rows rows' : List (Entry F))
      → entry_of id rows ≡ entry_of id rows'
      → entry_of id (set_defaults found rows) ≡ entry_of id (set_defaults found rows')
  unfolding set_defaults
  entry_of-set_defaults id [] rows rows' h = h
  entry_of-set_defaults id (e ∷ es) rows rows' h =
      entry_of-set_defaults id es (set_default e rows) (set_default e rows')
        (rw (entry_of-set_default id e rows, entry_of-set_default id e rows', h) refl)

  -- An entry that is there stays.
  pub entry_of-set_defaults-some :
      (id : String) (found rows : List (Entry F)) (e : Entry F)
      → entry_of id rows ≡ some e
      → entry_of id (set_defaults found rows) ≡ some e
  unfolding set_defaults
  entry_of-set_defaults-some id [] rows e h = h
  entry_of-set_defaults-some id (d ∷ ds) rows e h =
      entry_of-set_defaults-some id ds (set_default d rows) e
        (rw (entry_of-set_default id d rows, h) refl)

  pub registered-append :
      (rows rows' rows'' : List (Entry F)) (es : List (Fields F)) (e : Fields F)
      → registered rows es ≡ ok rows'
      → note_account rows' e ≡ ok rows''
      → registered rows (es ++ e ∷ []) ≡ ok rows''
  unfolding registered
  registered-append rows rows' rows'' [] e h k = let p : rows ≡ rows' = ok_injective h in rw (p, k)
  registered-append rows rows' rows'' (x ∷ es) e h k =
      let (next, first, rest) = >>=-eq-ok (note_account rows x) (λ l. registered l es) h in
      rw first (registered-append next rows' rows'' es e rest k)

abbrev pub registry_entry : {F : Type 0} → String → Fields F → Entry F
registry_entry id account = record {
  account_id = id;
  account = account;
  origin = "CANONICAL_REGISTRY";
}

module _ {F : Type 0} where
  pub note_account-payload :
      (rows : List (Entry F)) (e account payload : Fields F) (id : String) (seq : Value F)
      → find "payload" e ≡ some (obj payload)
      → find "account_id" payload ≡ some (str id)
      → find "account" payload ≡ some (obj account)
      → find "seq" e ≡ some seq
      → note_account rows e ≡ ok (set_entry (registry_entry id account) rows)
  unfolding note_account as_object as_text
  note_account-payload rows e account payload id seq h k l m =
      rw
        (
          need-find "payload" e (obj payload) h,
          need-find "account_id" payload (str id) k,
          need-find "account" payload (obj account) l,
          need-find "seq" e seq m,
        )
        refl
