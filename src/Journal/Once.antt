-- ===== src/Journal/Once.antt =====
-- `queue` twice with one request: the second call changes nothing.
use customs_buyer_intelligen.Prelude.{
  String, true, false, List, none, some, is_in, ◌≡◌, refl, ap, ◌∙◌, ◌==◌, if◌then◌else◌,
}
use customs_buyer_intelligen.Python.{bool, str, obj, Fields, Host, get, set_field, stripped, strip}
use customs_buyer_intelligen.Chain.{ok, universal, Codec}
use customs_buyer_intelligen.Chain.Log.{EventLog, Appends}
use customs_buyer_intelligen.Journal.Files.{Store, allowed_targets, path_of, file_at, add_file}
use customs_buyer_intelligen.Journal.Defs.{Row, file_text, entries, request_hash, find_request}
use customs_buyer_intelligen.Journal.Queue.{write_envelope, queue_new, queue_again, queue}
use customs_buyer_intelligen.Journal.Loading.{file_at-add_file, queue_again-kept}
use customs_buyer_intelligen.Journal.Queueing.{
  kept_envelope, queued_payload, entries-read, entries-kept,
}

-- The identifier that is given, or the one that is made up.
abbrev pub receipt_id : String → String → String
receipt_id journal_id fresh = if strip journal_id == "" then fresh else strip journal_id

module _ {F L : Type 0} ⦃py : Host F⦄ (codec : Codec F) (log : EventLog F L) where
  queue-queue_again :
      (tool journal_id fresh now : String) (payload : Fields F) (store : Store L)
      (rows : List (Row F)) (row : Row F)
      → is_in tool allowed_targets ≡ true
      → (stripped (get "investigation_id" payload) == "") ≡ false
      → entries codec log store ≡ ok rows
      → find_request (request_hash codec (str tool) (obj payload)) rows ≡ some row
      → queue codec log tool payload journal_id fresh now store
        ≡ (store, queue_again codec log row store)
  unfolding queue
  queue-queue_again tool journal_id fresh now payload store rows row h k l m =
      rw (h, k, l, m, queue) refl

  queue-queue_new :
      (tool journal_id fresh now : String) (payload : Fields F) (store : Store L)
      (rows : List (Row F))
      → is_in tool allowed_targets ≡ true
      → (stripped (get "investigation_id" payload) == "") ≡ false
      → entries codec log store ≡ ok rows
      → find_request (request_hash codec (str tool) (obj payload)) rows ≡ none
      → queue codec log tool payload journal_id fresh now store
        ≡ queue_new codec log
            (receipt_id journal_id fresh)
            tool
            (stripped (get "investigation_id" payload))
            payload
            now
            (request_hash codec (str tool) (obj payload))
            store
  unfolding queue
  queue-queue_new tool journal_id fresh now payload store rows h k l m = rw (h, k, l, m, queue) refl

  -- The reply to a request that was written.
  abbrev written : String → Fields F → Fields F
  written name envelope =
      set_field "path" (str name)
        (set_field "deduplicated" (bool false) (set_field "queued" (bool true) envelope))

  queue_new-written :
      (id tool investigation_id now name : String) (payload : Fields F) (store : Store L)
      (after : L) (e : Fields F)
      → path_of id ≡ ok name
      → file_at name store.files ≡ none
      → log.append "PENDING_RECEIPT_QUEUED" now
          (obj (queued_payload codec id tool investigation_id now payload))
          store.log
        ≡ ok (after, e)
      → queue_new codec log id tool investigation_id payload now
          (request_hash codec (str tool) (obj payload))
          store
        ≡ (
          record {
            files =
                add_file name
                  (file_text codec (obj (kept_envelope codec id tool investigation_id now payload)))
                  store.files;
            log = after;
          },
          ok (written name (kept_envelope codec id tool investigation_id now payload)),
        )
  unfolding queue_new write_envelope
  queue_new-written id tool investigation_id now name payload store after e h k l =
      rw (h, k, l, queue_new, write_envelope) refl

  module _ (laws : Appends log) where
    -- Where a request is allowed and new, its identifier is valid and no file has it, its envelope is
    -- read back from its file, and its event fits the log, `queue` writes it and says so. A call with
    -- the same request right after it, under whatever identifier and at whatever time, leaves the
    -- journal as it is and answers with the envelope that was written, as PENDING, deduplicated and
    -- not queued, under the path of its file.
    pub queue-queue :
        (tool journal_id fresh now name : String) (payload : Fields F) (store : Store L)
        (rows : List (Row F)) (journal_id' fresh' now' : String)
        → is_in tool allowed_targets ≡ true
        → (stripped (get "investigation_id" payload) == "") ≡ false
        → entries codec log store ≡ ok rows
        → find_request (request_hash codec (str tool) (obj payload)) rows ≡ none
        → path_of (receipt_id journal_id fresh) ≡ ok name
        → file_at name store.files ≡ none
        → codec.loads (
            universal false (
              file_text codec (
                obj (
                  kept_envelope codec
                    (receipt_id journal_id fresh)
                    tool
                    (stripped (get "investigation_id" payload))
                    now
                    payload))))
          ≡ some (
              obj (
                kept_envelope codec
                  (receipt_id journal_id fresh)
                  tool
                  (stripped (get "investigation_id" payload))
                  now
                  payload))
        → laws.Fits "PENDING_RECEIPT_QUEUED" now
            (obj (
              queued_payload codec
                (receipt_id journal_id fresh)
                tool
                (stripped (get "investigation_id" payload))
                now
                payload))
            store.log
        → (after : Store L) × (rows' : List (Row F)) × (row : Row F) × (queue codec log tool payload
              journal_id fresh now store
            ≡ (
              after,
              ok (
                  set_field "path" (str name) (
                    set_field "deduplicated" (bool false) (
                      set_field "queued" (bool true) (
                        kept_envelope codec
                          (receipt_id journal_id fresh)
                          tool
                          (stripped (get "investigation_id" payload))
                          now
                          payload)))),
            ))
          × (entries codec log after ≡ ok rows')
          × (find_request (request_hash codec (str tool) (obj payload)) rows' ≡ some row)
          × (queue codec log tool payload journal_id' fresh' now' after ≡ (
            after,
            ok (
                set_field "path" (str name) (
                  set_field "deduplicated" (bool true) (
                    set_field "queued" (bool false) (
                      set_field "status" (str "PENDING") (
                        kept_envelope codec
                          (receipt_id journal_id fresh)
                          tool
                          (stripped (get "investigation_id" payload))
                          now
                          payload))))),
          ))
    queue-queue tool journal_id fresh now name payload store rows journal_id' fresh' now' allowed
          named h new valid free loads fits =
        let id = receipt_id journal_id fresh in
        let investigation_id = stripped (get "investigation_id" payload) in
        let envelope = kept_envelope codec id tool investigation_id now payload in
        let (events, p) = entries-read codec log store rows h in
        let (after, e, a, b, x, y, z, _, _) =
          laws.append-read "PENDING_RECEIPT_QUEUED" now
            (obj (queued_payload codec id tool investigation_id now payload)) store.log events fits
            p in
        let kept : Store L = record {
          files = add_file name (file_text codec (obj envelope)) store.files;
          log = after;
        } in
        let (rows', row, later, found, own, at_name, pending) =
          entries-kept codec log id tool investigation_id now name payload store rows after events e
            valid h new loads p b x y z in
        (
          kept,
          rows',
          row,
          queue-queue_new tool journal_id fresh now payload store rows allowed named h new
              ∙ queue_new-written id tool investigation_id now name payload store after e valid free
                  a,
          later,
          found,
          queue-queue_again tool journal_id' fresh' now' payload kept rows' row allowed named later
                found
              ∙ ap (λ reply. (kept, reply))
                  (queue_again-kept codec log id tool investigation_id now name payload kept row own
                    at_name pending valid
                    (file_at-add_file name (file_text codec (obj envelope)) store.files free)
                    loads),
        )
