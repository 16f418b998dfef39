-- ===== src/Journal/Defs.antt =====
-- What the journal reads from its files and events, and what it records.
use Prim.Native.String
use customs_buyer_intelligen.Prelude.{
  String, false, not, List, [], ◌∷◌, ◌++◌, Option, none, some, ◌==◌, if◌then◌else◌,
}
use customs_buyer_intelligen.Python.{
  get_or, Value, str, arr, obj, Fields, end, field, Host, get, set_field, truthy, equals_str,
  or_value,
}
use customs_buyer_intelligen.Chain.{
  need, as_object, as_text, Text, universal, Error, Result, ok, err, invalid, other, ◌>>=◌, Codec,
  digest,
}
use customs_buyer_intelligen.Chain.Log.{EventLog}
use customs_buyer_intelligen.Journal.Files.{Store, path_of, file_at}

-- A row of `entries`.
pub record Row (F : Type 0) : Type 0 where
  pub journal_id : String
  pub investigation_id : Value F
  pub target_tool : Value F
  pub request_sha256 : Value F
  pub queued_at : Value F
  pub status : Value F
  pub last_event_type : Value F
  pub last_recorded_at : Value F
  pub path : String

-- `{**base, **update}`
module _ {F : Type 0} where
  unfoldable pub update : Fields F → Fields F → Fields F
  unfolding set_field
  update base end = base
  update base (field k v fs) = update (set_field k v base) fs

  -- `latest.get(journal_id, {})`, over the rows in the order in which they were stored.
  unfoldable pub latest_row : String → List (String × Fields F) → Fields F
  latest_row journal_id [] = end
  latest_row journal_id ((j, row) ∷ rows) =
      if j == journal_id then row else latest_row journal_id rows

abbrev pub file_text : {F : Type 0} → Codec F → Value F → Text
file_text codec v = codec.dumps v ++ (10 ∷ [])

module _ {F : Type 0} ⦃py : Host F⦄ where
  -- `latest[journal_id] = row`; a key that is no text is the key of no envelope.
  unfoldable pub store_row :
      Value F → Fields F → List (String × Fields F) → Result (List (String × Fields F))
  store_row (str s) row latest = ok ((s, row) ∷ latest)
  store_row (arr vs) row latest = err (other "TypeError")
  store_row (obj fs) row latest = err (other "TypeError")
  store_row _ row latest = ok latest

  -- One round of the loop over the events, in `entries`.
  unfoldable pub note_event :
      List (String × Fields F) → Fields F → Result (List (String × Fields F))
  note_event latest e = do
    v ← need "payload" e
    payload ← as_object v
    if not (truthy (get "journal_id" payload)) then ok latest else do
      event_type ← need "event_type" e
      recorded_at ← need "recorded_at" e
      store_row (get "journal_id" payload)
          (update
            (field "journal_id" (get "journal_id" payload)
              (field "event_type" event_type (field "recorded_at" recorded_at end)))
            payload)
          latest

  unfoldable pub latest_from :
      List (String × Fields F) → List (Fields F) → Result (List (String × Fields F))
  latest_from latest [] = ok latest
  latest_from latest (e ∷ es) = do latest' ← note_event latest e; latest_from latest' es

  -- The row, from the values that are read and from the last event about the receipt.
  unfoldable pub row_at : String → Value F → Value F → Value F → Value F → String → Fields F → Row F
  unfolding get_or
  row_at journal_id investigation_id target_tool request_sha256 queued_at name last = record {
    journal_id = journal_id;
    investigation_id = investigation_id;
    target_tool = target_tool;
    request_sha256 = request_sha256;
    queued_at = queued_at;
    status = get_or "status" (str "PENDING") last;
    last_event_type = get_or "event_type" (str "PENDING_RECEIPT_QUEUED") last;
    last_recorded_at = get_or "recorded_at" queued_at last;
    path = name;
  }

  -- A row of an envelope whose hash is right.
  unfoldable pub row_of_envelope : List (String × Fields F) → String → Fields F → Result (Row F)
  row_of_envelope latest name envelope = do
    id ← need "journal_id" envelope
    journal_id ← as_text id
    investigation_id ← need "investigation_id" envelope
    target_tool ← need "target_tool" envelope
    request_sha256 ← need "request_sha256" envelope
    queued_at ← need "queued_at" envelope
    ok (
        row_at journal_id investigation_id target_tool request_sha256 queued_at name
          (latest_row journal_id latest))

  -- The first row with the request's hash.
  unfoldable pub find_request : String → List (Row F) → Option (Row F)
  unfolding equals_str
  find_request hash [] = none
  find_request hash (row ∷ rows) =
      if equals_str row.request_sha256 hash then some row else find_request hash rows

unfoldable pub new_envelope :
    {F : Type 0} → String → String → String → Value F → String → String → Fields F
new_envelope journal_id target_tool investigation_id payload now hash =
    field "schema" (str "cbi.pending-receipt.v5.4") (
      field "journal_id" (str journal_id) (
        field "investigation_id" (str investigation_id) (
          field "target_tool" (str target_tool) (
            field "payload" payload (
              field "queued_at" (str now)
                (field "request_sha256" (str hash) (field "status" (str "PENDING") end)))))))

unfoldable pub result_payload :
    {F : Type 0} → Value F → Value F → Value F → Value F → String → String → String → Fields F
result_payload journal_id investigation_id target_tool request_sha256 status result_digest error =
    field "journal_id" journal_id (
      field "investigation_id" investigation_id (
        field "target_tool" target_tool (
          field "request_sha256" request_sha256 (
            field "status" (str status)
              (field "result_digest" (str result_digest) (field "error" (str error) end))))))

module _ {F : Type 0} ⦃py : Host F⦄ (codec : Codec F) where
  -- `digest({"target_tool": …, "payload": …})`
  unfoldable pub request_hash : Value F → Value F → String
  unfolding digest
  request_hash target_tool payload =
      digest codec (obj (field "target_tool" target_tool (field "payload" payload end)))

  -- `json.loads(path.read_text())`, with what is raised where the text is no JSON.
  unfoldable pub parsed : Error → Text → Result (Value F)
  unfolding universal
  parsed x text = elim (codec.loads (universal false text)) [ none ↦ err x | some v ↦ ok v ]

  -- The envelope of a file, with its hash checked.
  unfoldable pub envelope_of : String → Text → Result (Fields F)
  unfolding parsed as_object get equals_str request_hash
  envelope_of name text = do
    v ← parsed (invalid (String.◌++◌ name ": corrupt pending receipt envelope")) text
    envelope ← as_object v
    if not (
          equals_str (get "request_sha256" envelope)
            (request_hash (get "target_tool" envelope) (get "payload" envelope)))
        then err (invalid (String.◌++◌ name ": pending receipt hash mismatch"))
        else ok envelope

  unfoldable pub rows_of : List (String × Fields F) → List (String × Text) → Result (List (Row F))
  rows_of latest [] = ok []
  rows_of latest ((name, text) ∷ files) = do
    envelope ← envelope_of name text
    row ← row_of_envelope latest name envelope
    rows ← rows_of latest files
    ok (row ∷ rows)

  -- The payload of a result's event, with its status.
  unfoldable pub sync_payload : Fields F → String → Value F → String → Result (Fields F)
  unfolding digest or_value
  sync_payload envelope status result error = do
    journal_id ← need "journal_id" envelope
    investigation_id ← need "investigation_id" envelope
    target_tool ← need "target_tool" envelope
    request_sha256 ← need "request_sha256" envelope
    ok (
        result_payload journal_id investigation_id target_tool request_sha256 status
          (digest codec (or_value result (obj end))) error)

  -- `load`
  unfoldable pub load : {L : Type 0} → String → Store L → Result (Fields F)
  unfolding path_of parsed as_object need equals_str get request_hash
  load journal_id store = do
    name ← path_of journal_id
    text ← elim (file_at name store.files) [
      | none ↦ err (invalid "pending journal entry not found")
      | some text ↦ ok text
    ]
    v ← parsed (other "JSONDecodeError") text
    envelope ← as_object v
    target_tool ← need "target_tool" envelope
    payload ← need "payload" envelope
    if not (equals_str (get "request_sha256" envelope) (request_hash target_tool payload))
        then err (invalid (String.◌++◌ journal_id ": pending receipt hash mismatch"))
        else ok envelope

module _ {F L : Type 0} ⦃py : Host F⦄ (codec : Codec F) (log : EventLog F L) where
  -- `entries`
  unfoldable pub entries : Store L → Result (List (Row F))
  entries store = do
    events ← log.read store.log
    latest ← latest_from [] events
    rows_of codec latest store.files

  -- `record_sync`; `now` is what the clock says, and `result` is `null` where none is given.
  unfoldable pub record_sync :
      Fields F → String → Value F → String → String → Store L → Result (Store L)
  record_sync envelope status result error now store = do
    payload ← sync_payload codec envelope status result error
    (after, _) ← log.append "PENDING_RECEIPT_SYNC_RESULT" now (obj payload) store.log
    ok (record { files = store.files; log = after })
