-- ===== src/Journal/Selecting.antt =====
-- A receipt whose result is recorded as done is not selected again.
use customs_buyer_intelligen.Prelude.{
  String, true, false, List, [], ◌∷◌, map, some, ◌≡◌, refl, ◌⊎◌, inl, inr, Bool-cases, ◌==◌,
  if◌then◌else◌,
}
use customs_buyer_intelligen.Python.{Value, str, obj, Fields, Host, find, equals_str}
use customs_buyer_intelligen.Chain.{ok, Codec}
use customs_buyer_intelligen.Chain.Log.{EventLog, Appends}
use customs_buyer_intelligen.Journal.Files.{Store}
use customs_buyer_intelligen.Journal.Defs.{Row, entries, sync_payload, record_sync}
use customs_buyer_intelligen.Journal.Sync.{is_open, open_rows}
use customs_buyer_intelligen.Journal.Recording.{with_result, record_sync-entries}

module _ {F : Type 0} where
  -- The rows of other receipts.
  unfoldable pub rows_without : String → List (Row F) → List (Row F)
  rows_without journal_id [] = []
  rows_without journal_id (row ∷ rows) =
      let rest = rows_without journal_id rows in
      if journal_id == row.journal_id then rest else row ∷ rest

-- The statuses that `sync` leaves out.
unfoldable pub IsDone : String → Type 0
IsDone status = (status ≡ "SYNCED") ⊎ (status ≡ "DEDUPLICATED")

module _ {F : Type 0} ⦃py : Host F⦄ where
  is_open-with_result :
      (journal_id status now : String) (row : Row F)
      → IsDone status
      → (journal_id == row.journal_id) ≡ true
      → is_open (with_result journal_id status now row) ≡ false
  unfolding is_open with_result IsDone equals_str
  is_open-with_result journal_id status now row (inl p) h = rw (h, p) refl
  is_open-with_result journal_id status now row (inr p) h = rw (h, p) refl

  with_result-other :
      (journal_id status now : String) (row : Row F)
      → (journal_id == row.journal_id) ≡ false
      → with_result journal_id status now row ≡ row
  unfolding with_result
  with_result-other journal_id status now row h = rw h refl

  open_rows-with_result :
      (journal_id status now : String) (rows : List (Row F))
      → IsDone status
      → open_rows (map (with_result journal_id status now) rows)
        ≡ rows_without journal_id (open_rows rows)
  unfolding open_rows rows_without
  open_rows-with_result journal_id status now [] done = refl
  open_rows-with_result journal_id status now (row ∷ rows) done =
      let ih = open_rows-with_result journal_id status now rows done in
      elim (Bool-cases (journal_id == row.journal_id)) [
        | inl same ↦
            rw (is_open-with_result journal_id status now row done same, ih)
              (elim (Bool-cases (is_open row)) [ inl p ↦ rw (p, same) refl | inr p ↦ rw p refl ])
        | inr differs ↦
            rw (with_result-other journal_id status now row differs, ih)
              (elim (Bool-cases (is_open row)) [ inl p ↦ rw (p, differs) refl | inr p ↦ rw p refl ])
      ]

module _ {F L : Type 0} ⦃py : Host F⦄ (codec : Codec F) (log : EventLog F L)
    (laws : Appends log) where
  -- Where `SYNCED` or `DEDUPLICATED` is recorded for an envelope that holds the identifier
  -- `journal_id`, and the event fits the log, the rows that `sync` still selects from are the ones
  -- before without the rows of that identifier.
  pub record_sync-open_rows :
      (envelope payload : Fields F) (journal_id status now error : String) (result : Value F)
      (store : Store L) (rows : List (Row F))
      → IsDone status
      → entries codec log store ≡ ok rows
      → find "journal_id" envelope ≡ some (str journal_id)
      → (journal_id == "") ≡ false
      → sync_payload codec envelope status result error ≡ ok payload
      → laws.Fits "PENDING_RECEIPT_SYNC_RESULT" now (obj payload) store.log
      → (after : Store L) × (rows' : List (Row F)) × (record_sync codec log envelope status result
            error now store
          ≡ ok after)
        × (entries codec log after ≡ ok rows')
        × (open_rows rows' ≡ rows_without journal_id (open_rows rows))
  record_sync-open_rows envelope payload journal_id status now error result store rows done h found
        named made fits =
      let (after, recorded, later) =
        record_sync-entries codec log laws envelope payload journal_id status now error result store
          rows h found named made fits in
      (
        after,
        map (with_result journal_id status now) rows,
        recorded,
        later,
        open_rows-with_result journal_id status now rows done,
      )
