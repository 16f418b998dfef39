-- ===== src/Journal/Recording.antt =====
-- Recording a result changes one row of `entries`, and no other.
use customs_buyer_intelligen.Prelude.{
  String, false, List, [], ◌∷◌, ◌++◌, map, some, ◌≡◌, refl, Bool-cases, inl, inr, ◌==◌,
  if◌then◌else◌,
}
use customs_buyer_intelligen.Python.{
  get_or, Value, str, obj, Fields, field, end, Host, find, get, truthy, or_value,
}
use customs_buyer_intelligen.Chain.{
  need, need-find, as_object, as_text, Text, ok, >>=-eq-ok, Codec, digest,
}
use customs_buyer_intelligen.Chain.Log.{EventLog, Appends}
use customs_buyer_intelligen.Journal.Files.{Store}
use customs_buyer_intelligen.Journal.Defs.{
  Row, update, latest_row, store_row, note_event, latest_from, row_at, row_of_envelope, envelope_of,
  rows_of, entries, result_payload, sync_payload, record_sync,
}

ok_injective : {A : Type 0} {a b : A} → ok a ≡ ok b → a ≡ b
ok_injective h = cc

module _ {F : Type 0} ⦃py : Host F⦄ where
  -- The row with a result's event, where the event is about it.
  unfoldable pub with_result : String → String → String → Row F → Row F
  with_result journal_id status now row =
      if journal_id == row.journal_id
      then record row {
        status = str status;
        last_event_type = str "PENDING_RECEIPT_SYNC_RESULT";
        last_recorded_at = str now;
      }
      else row

  pub latest_from-append :
      (latest latest' latest'' : List (String × Fields F)) (es : List (Fields F)) (e : Fields F)
      → latest_from latest es ≡ ok latest'
      → note_event latest' e ≡ ok latest''
      → latest_from latest (es ++ e ∷ []) ≡ ok latest''
  unfolding latest_from
  latest_from-append latest latest' latest'' [] e h k = let p : latest ≡ latest' = cc h in rw (p, k)
  latest_from-append latest latest' latest'' (x ∷ es) e h k =
      let (next, first, rest) = >>=-eq-ok (note_event latest x) (λ l. latest_from l es) h in
      rw first (latest_from-append next latest' latest'' es e rest k)

  -- What an event stores in `latest`.
  abbrev pub stored : String → String → String → Fields F → Fields F
  stored journal_id event_type now payload =
      update
        (field "journal_id" (str journal_id)
          (field "event_type" (str event_type) (field "recorded_at" (str now) end)))
        payload

  -- What `record_sync` leaves in `latest`.
  abbrev result_row :
      String → String → String → String → String → Value F → Value F → Value F → String × Fields F
  result_row journal_id now status error d i t r = (
    journal_id,
    stored journal_id "PENDING_RECEIPT_SYNC_RESULT" now
        (result_payload (str journal_id) i t r status d error),
  )

  pub note_event-stored :
      (latest : List (String × Fields F)) (e payload : Fields F)
      (journal_id event_type now : String)
      → find "event_type" e ≡ some (str event_type)
      → find "recorded_at" e ≡ some (str now)
      → find "payload" e ≡ some (obj payload)
      → get "journal_id" payload ≡ str journal_id
      → (journal_id == "") ≡ false
      → note_event latest e ≡ ok ((journal_id, stored journal_id event_type now payload) ∷ latest)
  unfolding note_event as_object truthy store_row
  note_event-stored latest e payload journal_id event_type now h k l m n = rw (
    need-find "payload" e (obj payload) l,
    m,
    n,
    need-find "event_type" e (str event_type) h,
    need-find "recorded_at" e (str now) k,
  )

  -- The payload of a result's event, for an envelope with that identifier.
  sync_payload-result_payload :
      (codec : Codec F) (envelope payload : Fields F) (journal_id status error : String)
      (result : Value F)
      → sync_payload codec envelope status result error ≡ ok payload
      → find "journal_id" envelope ≡ some (str journal_id)
      → (i : Value F) × (t : Value F) × (r : Value F) × (d : String) × (result_payload
            (str journal_id)
            i
            t
            r
            status
            d
            error
          ≡ payload)
  unfolding sync_payload
  sync_payload-result_payload codec envelope payload journal_id status error result h k =
      let (i, _, h2) =
        >>=-eq-ok (need "investigation_id" envelope) _
          (rw (need-find "journal_id" envelope (str journal_id) k) at h) in
      let (t, _, h3) = >>=-eq-ok (need "target_tool" envelope) _ h2 in
      let (r, _, h4) = >>=-eq-ok (need "request_sha256" envelope) _ h3 in
      (i, t, r, digest codec (or_value result (obj end)), ok_injective h4)

  -- The row that it makes.
  row_at-result_payload :
      (id journal_id now status error d : String) (i t r i' t' r' q' : Value F) (name : String)
      (last : Fields F)
      → row_at id i' t' r' q' name (
          stored journal_id "PENDING_RECEIPT_SYNC_RESULT" now
            (result_payload (str journal_id) i t r status d error))
        ≡ record (row_at id i' t' r' q' name last) {
          status = str status;
          last_event_type = str "PENDING_RECEIPT_SYNC_RESULT";
          last_recorded_at = str now;
        }
  unfolding row_at result_payload update get_or
  row_at-result_payload id journal_id now status error d i t r i' t' r' q' name last = refl

  -- The row of an envelope, from what is read of it.
  row_of_envelope_of :
      (latest : List (String × Fields F)) (name : String) (envelope : Fields F) (v : Value F)
      (id : String) (i t r q : Value F)
      → need "journal_id" envelope ≡ ok v
      → as_text v ≡ ok id
      → need "investigation_id" envelope ≡ ok i
      → need "target_tool" envelope ≡ ok t
      → need "request_sha256" envelope ≡ ok r
      → need "queued_at" envelope ≡ ok q
      → row_of_envelope latest name envelope ≡ ok (row_at id i t r q name (latest_row id latest))
  unfolding row_of_envelope
  row_of_envelope_of latest name envelope v id i t r q h0 h1 h2 h3 h4 h5 =
      rw (h0, h1, h2, h3, h4, h5)

  -- A row of an envelope, whatever the events say.
  pub row_of_envelope-row_at :
      (latest : List (String × Fields F)) (name : String) (envelope : Fields F) (row : Row F)
      → row_of_envelope latest name envelope ≡ ok row
      → (id : String) × (i : Value F) × (t : Value F) × (r : Value F) × (q : Value F) × (row_at id i
            t r q name
            (latest_row id latest)
          ≡ row)
        × ((other : List (String × Fields F))
            → row_of_envelope other name envelope
              ≡ ok (row_at id i t r q name (latest_row id other)))
  unfolding row_of_envelope
  row_of_envelope-row_at latest name envelope row h =
      let (v, p0, h0) = >>=-eq-ok (need "journal_id" envelope) _ h in
      let (id, p1, h1) = >>=-eq-ok (as_text v) _ h0 in
      let (i, p2, h2) = >>=-eq-ok (need "investigation_id" envelope) _ h1 in
      let (t, p3, h3) = >>=-eq-ok (need "target_tool" envelope) _ h2 in
      let (r, p4, h4) = >>=-eq-ok (need "request_sha256" envelope) _ h3 in
      let (q, p5, h5) = >>=-eq-ok (need "queued_at" envelope) _ h4 in
      (
        id,
        i,
        t,
        r,
        q,
        ok_injective h5,
        λ other. row_of_envelope_of other name envelope v id i t r q p0 p1 p2 p3 p4 p5,
      )

  -- A row of an envelope, with a result recorded for `journal_id`.
  row_of_envelope-with_result :
      (journal_id now status error d : String) (i t r : Value F) (latest : List (String × Fields F))
      (name : String) (envelope : Fields F) (row : Row F)
      → row_of_envelope latest name envelope ≡ ok row
      → row_of_envelope (result_row journal_id now status error d i t r ∷ latest) name envelope
        ≡ ok (with_result journal_id status now row)
  unfolding latest_row with_result row_at
  row_of_envelope-with_result journal_id now status error d i t r latest name envelope row h =
      let (id, i', t', r', q', made, any) = row_of_envelope-row_at latest name envelope row h in
      rw (any (result_row journal_id now status error d i t r ∷ latest), ← made)
        (elim (Bool-cases (journal_id == id)) [
          | inl same ↦
              rw
                (
                  same,
                  row_at-result_payload id journal_id now status error d i t r i' t' r' q' name
                      (latest_row id latest),
                )
                refl
          | inr differs ↦ rw differs refl
        ])

  rows_of-with_result :
      (codec : Codec F) (journal_id now status error d : String) (i t r : Value F)
      (latest : List (String × Fields F)) (files : List (String × Text)) (rows : List (Row F))
      → rows_of codec latest files ≡ ok rows
      → rows_of codec (result_row journal_id now status error d i t r ∷ latest) files
        ≡ ok (map (with_result journal_id status now) rows)
  unfolding rows_of
  rows_of-with_result codec journal_id now status error d i t r latest [] rows h =
      let p : [] ≡ rows = ok_injective h in rw (← p) refl
  rows_of-with_result codec journal_id now status error d i t r latest ((name, text) ∷ files) rows
        h =
      let (envelope, p, h1) = >>=-eq-ok (envelope_of codec name text) _ h in
      let (row, q, h2) = >>=-eq-ok (row_of_envelope latest name envelope) _ h1 in
      let (others, k, h3) = >>=-eq-ok (rows_of codec latest files) _ h2 in
      let made : row ∷ others ≡ rows = ok_injective h3 in
      rw
        (
          ← made,
          p,
          row_of_envelope-with_result journal_id now status error d i t r latest name envelope row
              q,
          rows_of-with_result codec journal_id now status error d i t r latest files others k,
        )
        refl

module _ {F L : Type 0} ⦃py : Host F⦄ (codec : Codec F) (log : EventLog F L)
    (laws : Appends log) where
  -- Recording a result, for an envelope that holds the identifier `journal_id` and the fields that the
  -- event repeats, succeeds where the event fits the log. The rows of `entries` are then the ones
  -- before, in order, with the result's status, type and time in each row of that identifier.
  pub record_sync-entries :
      (envelope payload : Fields F) (journal_id status now error : String) (result : Value F)
      (store : Store L) (rows : List (Row F))
      → entries codec log store ≡ ok rows
      → find "journal_id" envelope ≡ some (str journal_id)
      → (journal_id == "") ≡ false
      → sync_payload codec envelope status result error ≡ ok payload
      → laws.Fits "PENDING_RECEIPT_SYNC_RESULT" now (obj payload) store.log
      → (after : Store L) × (record_sync codec log envelope status result error now store
          ≡ ok after)
        × (entries codec log after ≡ ok (map (with_result journal_id status now) rows))
  unfolding entries record_sync result_payload get
  record_sync-entries envelope payload journal_id status now error result store rows h found named
        made fits =
      let (events, p, h1) = >>=-eq-ok (log.read store.log) _ h in
      let (latest, q, h2) = >>=-eq-ok (latest_from [] events) _ h1 in
      let (i, t, r, d, same) =
        sync_payload-result_payload codec envelope payload journal_id status error result made
          found in
      let (after, e, a, b, x, y, z, _, _) =
        laws.append-read "PENDING_RECEIPT_SYNC_RESULT" now (obj payload) store.log events fits p in
      (
        record { files = store.files; log = after },
        rw (made, a) refl,
        rw
            (
              b,
              latest_from-append [] latest (result_row journal_id now status error d i t r ∷ latest)
                  events e q
                  (note_event-stored latest e (result_payload (str journal_id) i t r status d error)
                    journal_id "PENDING_RECEIPT_SYNC_RESULT" now x y (rw same z) refl named),
            )
            (rows_of-with_result codec journal_id now status error d i t r latest store.files rows
              h2),
      )
