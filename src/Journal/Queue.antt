-- ===== src/Journal/Queue.antt =====
-- `queue` of the journal: a receipt is kept, once.
use customs_buyer_intelligen.Prelude.{
  String, true, false, not, none, some, is_in, ◌==◌, if◌then◌else◌,
}
use customs_buyer_intelligen.Python.{
  Value, bool, str, obj, Fields, end, field, Host, get, set_field, stripped, strip, equals_str,
}
use customs_buyer_intelligen.Chain.{as_object, Text, Result, ok, err, invalid, other, ◌>>=◌, Codec}
use customs_buyer_intelligen.Chain.Log.{EventLog}
use customs_buyer_intelligen.Journal.Files.{Store, allowed_targets, path_of, file_at, add_file}
use customs_buyer_intelligen.Journal.Defs.{
  Row, file_text, request_hash, parsed, entries, load, find_request, new_envelope,
}

module _ {F : Type 0} ⦃py : Host F⦄ where
  -- The reply for a request that is there already.
  unfoldable pub deduplicated : Fields F → String → Fields F
  unfolding set_field
  deduplicated existing name =
      set_field "path" (str name)
        (set_field "deduplicated" (bool true) (set_field "queued" (bool false) existing))

module _ {F L : Type 0} ⦃py : Host F⦄ (codec : Codec F) (log : EventLog F L) where
  -- The part of `queue` that writes: the journal afterwards, and the reply. A file that was written
  -- stays where the event cannot be appended.
  unfoldable pub write_envelope :
      String → String → Fields F → Value F → Store L → Store L × Result (Fields F)
  unfolding add_file set_field
  write_envelope name now new event store =
      let kept : Store L = record {
        files = add_file name (file_text codec (obj new)) store.files;
        log = store.log;
      } in
      elim (log.append "PENDING_RECEIPT_QUEUED" now event store.log) [
        | err x ↦ (kept, err x)
        | ok (after, _) ↦ (
          record { files = kept.files; log = after },
          ok (
              set_field "path" (str name)
                (set_field "deduplicated" (bool false) (set_field "queued" (bool true) new))),
        )
      ]

  -- The file of that name is there: it must hold the same request.
  unfoldable pub reuse_file : String → String → Text → Result (Fields F)
  unfolding parsed as_object get equals_str deduplicated
  reuse_file hash name text = do
    v ← parsed codec (other "JSONDecodeError") text
    existing ← as_object v
    if not (equals_str (get "request_sha256" existing) hash)
        then err (invalid "journal_id collision with different payload")
        else ok (deduplicated existing name)

  -- What `queue` does when no row has the request.
  unfoldable pub queue_new :
      String → String → String → Fields F → String → String → Store L → Store L × Result (Fields F)
  unfolding write_envelope reuse_file new_envelope path_of
  queue_new journal_id tool investigation_id payload now hash store = elim (path_of journal_id) [
    | err x ↦ (store, err x)
    | ok name ↦ elim (file_at name store.files) [
      | some text ↦ (store, reuse_file hash name text)
      | none ↦
          write_envelope name now
            (new_envelope journal_id tool investigation_id (obj payload) now hash)
            (obj (
              field "journal_id" (str journal_id) (
                field "investigation_id" (str investigation_id)
                  (field "target_tool" (str tool) (field "request_sha256" (str hash) end)))))
            store
    ]
  ]

  -- The reply for a row with the request.
  unfoldable pub queue_again : Row F → Store L → Result (Fields F)
  unfolding load set_field
  queue_again row store = do
    existing ← load codec row.journal_id store
    ok (
        set_field "path" (str row.path) (
          set_field "deduplicated" (bool true)
            (set_field "queued" (bool false) (set_field "status" row.status existing))))

  -- `queue`, for a payload that is a dict. `fresh` is the identifier that is made where none is given.
  unfoldable pub queue :
      String → Fields F → String → String → String → Store L → Store L × Result (Fields F)
  queue tool payload journal_id fresh now store =
      let investigation_id = stripped (get "investigation_id" payload) in
      let hash = request_hash codec (str tool) (obj payload) in
      let id = if strip journal_id == "" then fresh else strip journal_id in
      if not (is_in tool allowed_targets)
      then (store, err (invalid "target_tool is not a journal-safe append operation"))
      else if investigation_id == ""
      then (store, err (invalid "payload.investigation_id required"))
      else elim (entries codec log store) [
        | err x ↦ (store, err x)
        | ok rows ↦ elim (find_request hash rows) [
          | some row ↦ (store, queue_again row store)
          | none ↦ queue_new id tool investigation_id payload now hash store
        ]
      ]
