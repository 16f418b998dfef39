-- ===== src/Examples/Queues.antt =====
-- `queue` twice, on a journal that keeps another receipt.
use customs_buyer_intelligen.Prelude.{
  ℕ, true, false, String, List, [], ◌∷◌, Option, none, some, ◌≡◌, refl,
}
use customs_buyer_intelligen.Python.{
  bool, set_field, str, obj, Fields, end, field, get, stripped, equals_str,
}
use customs_buyer_intelligen.Chain.{Text, ok, read, signed, universal}
use customs_buyer_intelligen.Chain.Extending.{next_event}
use customs_buyer_intelligen.Chain.Log.{chain_log, FitsFile, chain_appends}
use customs_buyer_intelligen.Journal.{
  Store, Row, entries, queue, request_hash, new_envelope, file_text, find_request, path_of,
}
use customs_buyer_intelligen.Journal.Queueing.{kept_envelope, queued_payload}
use customs_buyer_intelligen.Journal.Once.{queue-queue}
use customs_buyer_intelligen.Examples.Plain.{plain?, plain?_sound}
use customs_buyer_intelligen.Examples.Codec.{
  codec, codec-RoundTrips, naturals, print, load, checksum,
}
use customs_buyer_intelligen.Examples.Journals.{store, kept_row, store_entries, tool}

abbrev request : Fields ℕ
request = field "investigation_id" (str "INV-2") (field "note" (str "second") end)

abbrev new_id : String
new_id = "PEND-2-0123456789ab"

abbrev new_event : Fields ℕ
new_event = queued_payload codec new_id tool "INV-2" "2026-01-03T00:00:00Z" request

abbrev envelope : Fields ℕ
envelope = kept_envelope codec new_id tool "INV-2" "2026-01-03T00:00:00Z" request

no_row : find_request (request_hash codec (str tool) (obj request)) (kept_row ∷ []) ≡ none
unfolding find_request request_hash checksum print equals_str
no_row = refl

new_path : path_of new_id ≡ ok "PEND-2-0123456789ab.json"
unfolding path_of
new_path = refl

envelope_loads : load (universal false (file_text codec (obj envelope))) ≡ some (obj envelope)
unfolding load universal print new_envelope request_hash checksum
envelope_loads = refl

new_event-FitsFile :
    FitsFile codec "PENDING_RECEIPT_QUEUED" "2026-01-03T00:00:00Z" (obj new_event) none
unfolding chain_appends read plain? print checksum signed request_hash
new_event-FitsFile = (
  [],
  [],
  refl,
  refl,
  plain?_sound
      (print
        (obj (next_event codec [] "PENDING_RECEIPT_QUEUED" "2026-01-03T00:00:00Z" (obj new_event))))
      refl,
)

queue-queue_example :
    (after : Store (Option Text)) × (rows : List (Row ℕ)) × (row : Row ℕ) × (queue codec
        (chain_log codec)
        tool
        request
        new_id
        ""
        "2026-01-03T00:00:00Z"
        store
      ≡ (
        after,
        ok (
            set_field "path"
              (str "PEND-2-0123456789ab.json")
              (set_field "deduplicated" (bool false) (set_field "queued" (bool true) envelope))),
      ))
    × (entries codec (chain_log codec) after ≡ ok rows)
    × (find_request (request_hash codec (str tool) (obj request)) rows ≡ some row)
    × (queue codec
          (chain_log codec)
          tool
          request
          ""
          "PEND-3-0123456789ab"
          "2026-01-04T00:00:00Z"
          after
        ≡ (
          after,
          ok (
              set_field "path" (str "PEND-2-0123456789ab.json") (
                set_field "deduplicated"
                  (bool true)
                  (set_field "queued" (bool false) (set_field "status" (str "PENDING") envelope)))),
        ))
unfolding chain_appends stripped get
queue-queue_example =
    queue-queue codec (chain_log codec) (chain_appends codec codec-RoundTrips) tool new_id ""
      "2026-01-03T00:00:00Z" "PEND-2-0123456789ab.json" request store (kept_row ∷ []) ""
      "PEND-3-0123456789ab" "2026-01-04T00:00:00Z" refl refl store_entries no_row new_path refl
      envelope_loads new_event-FitsFile
