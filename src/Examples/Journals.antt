-- ===== src/Examples/Journals.antt =====
-- The journal's theorems at one kept receipt.
use customs_buyer_intelligen.Prelude.{
  ℕ, suc, Bool, String, List, [], ◌∷◌, map, Option, none, some, true, false, ◌≡◌, refl, inl, ◌≤◌,
  length,
}
use customs_buyer_intelligen.Python.{
  get_or, Value, null, str, obj, Fields, end, pos, set_field, equals_str, get, find,
}
use customs_buyer_intelligen.Chain.{
  need, need-find, as_object, as_text, read, signed, Text, IsPlain, unlines, read_lines, is_break,
  Error, Result, ok, err, universal, digest, unsigned_digest, zeros,
}
use customs_buyer_intelligen.Chain.Extending.{next_event}
use customs_buyer_intelligen.Chain.Log.{chain_log, FitsFile, chain_appends}
use customs_buyer_intelligen.Journal.{
  sync_within, sync_rows, note_event, store_row, update, path_of, attempt, count_status, failed,
  handler_of, is_open, report_of, rows_for, settle, sync_row, row_of_envelope, row_at, latest_row,
  Store, Row, Texts, Handler, Run, Report, entries, record_sync, sync, sync_payload, result_payload,
  request_hash, new_envelope, file_text, parsed, latest_from, rows_of, envelope_of, selected,
  open_rows,
}
use customs_buyer_intelligen.Journal.Recording.{with_result, record_sync-entries}
use customs_buyer_intelligen.Journal.Selecting.{IsDone, rows_without, record_sync-open_rows}
use customs_buyer_intelligen.Journal.Bounds.{sync-dry_run, sync-outcomes}
use customs_buyer_intelligen.Examples.Plain.{plain?, plain?_sound}
use customs_buyer_intelligen.Examples.Codec.{
  codec, codec-RoundTrips, naturals, print, load, checksum,
}
use customs_buyer_intelligen.Examples.Logs.{note}

abbrev receipt_id : String
receipt_id = "PEND-1-0123456789ab"

abbrev pub tool : String
tool = "append_information_record"

abbrev kept_envelope : Fields ℕ
kept_envelope =
    new_envelope receipt_id tool "INV-1" note "2026-01-01T00:00:00Z"
      (request_hash codec (str tool) note)

abbrev pub store : Store (Option Text)
store = record {
  files = ("PEND-1-0123456789ab.json", file_text codec (obj kept_envelope)) ∷ [];
  log = none;
}

abbrev pub kept_row : Row ℕ
kept_row = record {
  journal_id = receipt_id;
  investigation_id = str "INV-1";
  target_tool = str tool;
  request_sha256 = str (request_hash codec (str tool) note);
  queued_at = str "2026-01-01T00:00:00Z";
  status = str "PENDING";
  last_event_type = str "PENDING_RECEIPT_QUEUED";
  last_recorded_at = str "2026-01-01T00:00:00Z";
  path = "PEND-1-0123456789ab.json";
}

pub store_entries : entries codec (chain_log codec) store ≡ ok (kept_row ∷ [])
unfolding entries chain_log read latest_from rows_of envelope_of load print new_envelope checksum
    row_of_envelope need as_text row_at latest_row
store_entries = refl

abbrev synced : Fields ℕ
synced =
    result_payload (str receipt_id) (str "INV-1") (str tool)
      (str (request_hash codec (str tool) note)) "SYNCED" (digest codec (obj end)) ""

kept_envelope-sync_payload : sync_payload codec kept_envelope "SYNCED" null "" ≡ ok synced
unfolding sync_payload need new_envelope
kept_envelope-sync_payload = refl

synced-FitsFile :
    FitsFile codec "PENDING_RECEIPT_SYNC_RESULT" "2026-01-02T00:00:00Z" (obj synced) none
unfolding chain_appends read plain? print checksum result_payload signed request_hash
synced-FitsFile = (
  [],
  [],
  refl,
  refl,
  plain?_sound
      (print (
        obj
          (next_event codec [] "PENDING_RECEIPT_SYNC_RESULT" "2026-01-02T00:00:00Z" (obj synced))))
      refl,
)

record_sync-entries_example :
    (after : Store (Option Text)) × (record_sync codec
        (chain_log codec)
        kept_envelope
        "SYNCED"
        null
        ""
        "2026-01-02T00:00:00Z"
        store
      ≡ ok after)
    × (entries codec (chain_log codec) after
        ≡ ok (map (with_result receipt_id "SYNCED" "2026-01-02T00:00:00Z") (kept_row ∷ [])))
unfolding find new_envelope chain_appends
record_sync-entries_example =
    record_sync-entries codec (chain_log codec) (chain_appends codec codec-RoundTrips) kept_envelope
      synced receipt_id "SYNCED" "2026-01-02T00:00:00Z" "" null store (kept_row ∷ []) store_entries
      refl refl kept_envelope-sync_payload synced-FitsFile

record_sync-open_rows_example :
    (after : Store (Option Text)) × (rows' : List (Row ℕ)) × (record_sync codec
        (chain_log codec)
        kept_envelope
        "SYNCED"
        null
        ""
        "2026-01-02T00:00:00Z"
        store
      ≡ ok after)
    × (entries codec (chain_log codec) after ≡ ok rows')
    × (open_rows rows' ≡ rows_without receipt_id (open_rows (kept_row ∷ [])))
unfolding find new_envelope chain_appends IsDone
record_sync-open_rows_example =
    record_sync-open_rows codec (chain_log codec) (chain_appends codec codec-RoundTrips)
      kept_envelope synced receipt_id "SYNCED" "2026-01-02T00:00:00Z" "" null store (kept_row ∷ [])
      (inl refl) store_entries refl refl kept_envelope-sync_payload synced-FitsFile

-- A tool that takes every payload, and counts them.
abbrev counting : String → Option (Handler ℕ ℕ)
counting name = some (λ payload n. (suc n, ok payload))

abbrev texts : Texts
texts = record { message = λ x. "message"; described = λ x. "described" }

abbrev always : Value ℕ → Value ℕ → ℕ → Bool
always _ payload n = true

sync-dry_run_example :
    ((sync codec
        (chain_log codec)
        texts
        (λ id. id)
        counting
        always
        true
        "INV-1"
        (pos 10)
        store
        0).0.store
      ≡ store)
    × ((sync codec
          (chain_log codec)
          texts
          (λ id. id)
          counting
          always
          true
          "INV-1"
          (pos 10)
          store
          0).0.world
        ≡ 0)
sync-dry_run_example =
    sync-dry_run codec (chain_log codec) texts (λ id. id) counting always "INV-1" (pos 10) store 0

-- The event's payload, with the digest of the result.
abbrev synced_now : Fields ℕ
synced_now =
    result_payload (str receipt_id) (str "INV-1") (str tool)
      (str (request_hash codec (str tool) note)) "SYNCED" (digest codec note) ""

abbrev synced_log : Option Text
synced_log = some (
    unlines (
      print (obj (next_event codec [] "PENDING_RECEIPT_SYNC_RESULT" receipt_id (obj synced_now)))
      ∷ []))

abbrev synced_run : Run ℕ (Option Text) ℕ
synced_run = record {
  store = record { files = store.files; log = synced_log };
  world = 1;
  outcomes = record { journal_id = receipt_id; status = "SYNCED"; detail = note } ∷ [];
}

abbrev synced_report : Report ℕ
synced_report = record {
  dry_run = false;
  processed = 1;
  counts = ("SYNCED", 1) ∷ [];
  outcomes = record { journal_id = receipt_id; status = "SYNCED"; detail = note } ∷ [];
}

syncs :
    sync codec (chain_log codec) texts (λ id. id) counting always false "INV-1" (pos 10) store 0
    ≡ (synced_run, ok synced_report)
unfolding sync sync_within entries chain_log read latest_from rows_of envelope_of load print
    new_envelope checksum row_of_envelope need as_text sync_rows selected row_at
    customs_buyer_intelligen.Chain.append customs_buyer_intelligen.Chain.decode digest
    customs_buyer_intelligen.Chain.last_hash customs_buyer_intelligen.Chain.read_event
    customs_buyer_intelligen.Chain.read_from signed unsigned_digest
    customs_buyer_intelligen.Chain.unsigned customs_buyer_intelligen.Chain.verify is_break
    read_lines as_object get_or latest_row customs_buyer_intelligen.Journal.load note_event parsed
    record_sync request_hash result_payload store_row sync_payload update path_of attempt
    count_status failed handler_of is_open open_rows report_of rows_for settle sync_row get find
    set_field equals_str
syncs = refl

sync-outcomes_example :
    (rows : List (Row ℕ)) × (entries codec (chain_log codec) store ≡ ok rows)
    × (map (λ o. o.journal_id) synced_report.outcomes
        ≡ map (λ row. row.journal_id) (selected "INV-1" 10 rows))
    × (synced_report.processed ≡ length synced_report.outcomes)
    × (synced_report.processed ≤ 10)
    × (1 ≤ 10)
    × (10 ≤ 1000)
sync-outcomes_example =
    sync-outcomes codec (chain_log codec) texts (λ id. id) counting always false "INV-1" 10 store 0
      synced_run synced_report syncs
