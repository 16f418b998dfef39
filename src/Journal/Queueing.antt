-- ===== src/Journal/Queueing.antt =====
-- A receipt that was queued is not queued again: the next call with the same request finds it.
use customs_buyer_intelligen.Prelude.{
  String, true, false, List, [], ◌∷◌, ◌++◌, none, some, ◌≡◌, refl, sym, ◌∙◌, eq_refl,
}
use customs_buyer_intelligen.Python.{
  Value, str, obj, Fields, field, end, Host, find, get, equals_str, get_or, set_field,
}
use customs_buyer_intelligen.Chain.{
  Text, Error, ok, universal, >>=-eq-ok, need, as_object, as_text, Codec,
}
use customs_buyer_intelligen.Chain.Log.{EventLog}
use customs_buyer_intelligen.Journal.Files.{Store, path_of, add_file}
use customs_buyer_intelligen.Journal.Defs.{
  update, Row, file_text, latest_row, latest_from, row_at, row_of_envelope, envelope_of, entries,
  parsed, request_hash, new_envelope, find_request,
}
use customs_buyer_intelligen.Journal.Recording.{latest_from-append, note_event-stored, stored}
use customs_buyer_intelligen.Journal.Finding.{
  ok_injective, path_of-nonempty, rows_of-other, rows_of-add_file,
}

module _ {F : Type 0} ⦃py : Host F⦄ where
  module _ (codec : Codec F) (id tool investigation_id now : String) (payload : Fields F) where
    abbrev pub hash_of : String
    hash_of = request_hash codec (str tool) (obj payload)

    -- The envelope that is written, and the payload of its event.
    abbrev pub kept_envelope : Fields F
    kept_envelope = new_envelope id tool investigation_id (obj payload) now hash_of

    abbrev pub queued_payload : Fields F
    queued_payload = field "journal_id" (str id) (
        field "investigation_id" (str investigation_id)
          (field "target_tool" (str tool) (field "request_sha256" (str hash_of) end)))

    abbrev kept_row : String → List (String × Fields F) → Row F
    kept_row name latest =
        row_at id (str investigation_id) (str tool) (str hash_of) (str now) name
          (latest_row id latest)

    pub parsed-loads :
        (x : Error) (text : Text) (v : Value F)
        → codec.loads (universal false text) ≡ some v
        → parsed codec x text ≡ ok v
    unfolding parsed
    parsed-loads x text v h = rw (h, parsed) refl

    pub has_hash : equals_str (get "request_sha256" kept_envelope) hash_of ≡ true
    unfolding new_envelope get equals_str
    has_hash = eq_refl hash_of

    has_request :
        request_hash codec (get "target_tool" kept_envelope) (get "payload" kept_envelope) ≡ hash_of
    unfolding new_envelope get
    has_request = refl

    envelope_of-kept :
        (name : String)
        → codec.loads (universal false (file_text codec (obj kept_envelope)))
          ≡ some (obj kept_envelope)
        → envelope_of codec name (file_text codec (obj kept_envelope)) ≡ ok kept_envelope
    unfolding envelope_of as_object
    envelope_of-kept name h =
        rw
          (
            parsed-loads _ (file_text codec (obj kept_envelope)) (obj kept_envelope) h,
            has_request,
            has_hash,
            envelope_of,
          )
          refl

    row_of_envelope-kept :
        (name : String) (latest : List (String × Fields F))
        → row_of_envelope latest name kept_envelope ≡ ok (kept_row name latest)
    unfolding row_of_envelope new_envelope need as_text
    row_of_envelope-kept name latest = refl

    kept_row-request :
        (name : String) (latest : List (String × Fields F))
        → equals_str (kept_row name latest).request_sha256 hash_of ≡ true
    unfolding row_at equals_str
    kept_row-request name latest = eq_refl hash_of

    kept_row-status :
        (name : String) (latest : List (String × Fields F))
        → (kept_row name
            ((id, stored id "PENDING_RECEIPT_QUEUED" now queued_payload) ∷ latest)).status
          ≡ str "PENDING"
    unfolding row_at latest_row update get_or set_field
    kept_row-status name latest = rw (eq_refl id) refl

    kept_row-path :
        (name : String) (latest : List (String × Fields F))
        → ((kept_row name latest).journal_id ≡ id) × ((kept_row name latest).path ≡ name)
    unfolding row_at
    kept_row-path name latest = (refl, refl)

module _ {F L : Type 0} ⦃py : Host F⦄ (codec : Codec F) (log : EventLog F L) where
  pub entries-read :
      (store : Store L) (rows : List (Row F))
      → entries codec log store ≡ ok rows
      → (events : List (Fields F)) × (log.read store.log ≡ ok events)
  unfolding entries
  entries-read store rows h = let (events, p, _) = >>=-eq-ok (log.read store.log) _ h in (events, p)

  -- After the file and the event are written, a row has the request.
  pub entries-kept :
      (id tool investigation_id now name : String) (payload : Fields F) (store : Store L)
      (rows : List (Row F)) (after : L) (events : List (Fields F)) (e : Fields F)
      → path_of id ≡ ok name
      → entries codec log store ≡ ok rows
      → find_request (request_hash codec (str tool) (obj payload)) rows ≡ none
      → codec.loads (
          universal false
            (file_text codec (obj (kept_envelope codec id tool investigation_id now payload))))
        ≡ some (obj (kept_envelope codec id tool investigation_id now payload))
      → log.read store.log ≡ ok events
      → log.read after ≡ ok (events ++ e ∷ [])
      → find "event_type" e ≡ some (str "PENDING_RECEIPT_QUEUED")
      → find "recorded_at" e ≡ some (str now)
      → find "payload" e ≡ some (obj (queued_payload codec id tool investigation_id now payload))
      → (rows' : List (Row F)) × (row : Row F) × (entries codec log (record {
        files =
            add_file name
              (file_text codec (obj (kept_envelope codec id tool investigation_id now payload)))
              store.files;
        log = after;
      })
          ≡ ok rows')
        × (find_request (request_hash codec (str tool) (obj payload)) rows' ≡ some row)
        × (row.journal_id ≡ id)
        × (row.path ≡ name)
        × (row.status ≡ str "PENDING")
  unfolding entries get
  entries-kept id tool investigation_id now name payload store rows after events e valid h fresh
        loads p b x y z =
      let hash = request_hash codec (str tool) (obj payload) in
      let envelope = kept_envelope codec id tool investigation_id now payload in
      let queued = queued_payload codec id tool investigation_id now payload in
      let (read, p', h1) = >>=-eq-ok (log.read store.log) _ h in
      let (latest, q, h2) = >>=-eq-ok (latest_from [] read) _ h1 in
      let same : read ≡ events = ok_injective (sym p' ∙ p) in
      let later = (id, stored id "PENDING_RECEIPT_QUEUED" now queued) ∷ latest in
      let (others, t, none_there) =
        rows_of-other codec hash latest later store.files rows h2 fresh in
      let (rows', u, found) =
        rows_of-add_file codec hash later name (file_text codec (obj envelope)) envelope
          (kept_row codec id tool investigation_id now payload name later) store.files others
          (envelope_of-kept codec id tool investigation_id now payload name loads)
          (row_of_envelope-kept codec id tool investigation_id now payload name later)
          (kept_row-request codec id tool investigation_id now payload name later) t none_there in
      (
        rows',
        kept_row codec id tool investigation_id now payload name later,
        rw
            (
              b,
              latest_from-append [] latest later events e (rw same at q) (
                  note_event-stored latest e queued id "PENDING_RECEIPT_QUEUED" now x y z refl
                    (path_of-nonempty id name valid)),
            )
            u,
        found,
        (kept_row-path codec id tool investigation_id now payload name later).0,
        (kept_row-path codec id tool investigation_id now payload name later).1,
        kept_row-status codec id tool investigation_id now payload name latest,
      )
