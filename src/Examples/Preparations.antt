-- ===== src/Examples/Preparations.antt =====
-- The preparation of an outreach, at a concrete investigation: a receipt with evidence, then a closure.
use customs_buyer_intelligen.Prelude.{ℕ, true, false, [], ◌∷◌, ◌++◌, some, ◌≡◌, refl}
use customs_buyer_intelligen.Python.{
  Value, null, bool, int, pos, str, arr, nil, cons, obj, Fields, end, field, get, set_field,
  stripped, upper, equals_int,
}
use customs_buyer_intelligen.Chain.{
  Text, IsPlain, unlines, read_lines, is_break, read_event, ok, zeros, unsigned_digest, digest,
}
use customs_buyer_intelligen.Session.{Row, event, read}
use customs_buyer_intelligen.Session.Appending.{IsLog, next_event, append-eq, read_after_append}
use customs_buyer_intelligen.Examples.Plain.{plain?, plain?_sound}
use customs_buyer_intelligen.Examples.Codec.{
  codec, codec-RoundTrips, naturals, print, load, checksum,
}
use customs_buyer_intelligen.Examples.Runtimes.{before}
use customs_buyer_intelligen.Runtime.Events.{on_execution, on_closure}
use customs_buyer_intelligen.Runtime.Replay.{RuntimeState, initial, state_from, state}
use customs_buyer_intelligen.Runtime.Inputs.{nonempty}
use customs_buyer_intelligen.Runtime.Routes.{Patterns}
use customs_buyer_intelligen.Runtime.Preparing.{
  Desk, prepared_for_render, sends, plan_outreach, carry_out, prepare, prepared_row, payload_of,
  all_issues,
}
use customs_buyer_intelligen.Runtime.Prepared.{IsCleared, prepare-IsCleared}

abbrev start : Fields ℕ
start = field "anchor_queue" (arr (cons (str "A1") nil)) (
    field "account" (obj (field "account_id" (str "A1") end)) (
      field "opt_out" (bool false) (
        field "history_digest" (str "h")
          (field "authority_digest" (str "a") (field "authority_claims" (arr nil) end)))))

abbrev opening : Row ℕ
opening = record { now = "1"; event_type = "INVESTIGATION_STARTED"; payload = obj start }

abbrev email_evidence : Fields ℕ
email_evidence =
    field "evidence_id" (str "E1")
      (field "owner_id" (str "A1") (field "claim_key" (str "email") end))

abbrev first_attempt : Fields ℕ
first_attempt = field "attempt_id" (str "T1") (field "execution_id" (str "X1") end)

abbrev receipt : Row ℕ
receipt = record {
  now = "2";
  event_type = "EXECUTION_RECEIPT_APPENDED";
  payload = obj (
      field "attempt" (obj first_attempt) (
        field "evidence" (arr (cons (obj email_evidence) nil))
          (field "pivots_generated" (arr nil) (field "pivots_consumed" (arr nil) end))));
}

abbrev dimensions : Fields ℕ
dimensions = field "research_complete" (bool true) (
    field "network_complete" (bool true) (
      field "crm_sync_complete" (bool true)
        (field "outreach_prerequisites_complete" (bool true) end)))

abbrev closure : Fields ℕ
closure =
    field "closure_id" (str "C1")
      (field "expires_at" (str "9") (field "state_dimensions" (obj dimensions) end))

abbrev closing : Row ℕ
closing = record { now = "3"; event_type = "CLOSURE_ISSUED"; payload = obj closure }

abbrev header : Fields ℕ
header = event codec null 1 (str zeros) opening

abbrev received : Fields ℕ
received = next_event codec null (header ∷ []) receipt

abbrev issued : Fields ℕ
issued = next_event codec null (header ∷ received ∷ []) closing

abbrev opened_session : Text
opened_session = unlines (print (obj header) ∷ [])

abbrev received_session : Text
received_session = opened_session ++ (print (obj received) ++ (10 ∷ []))

abbrev session : Text
session = received_session ++ (print (obj issued) ++ (10 ∷ []))

header-IsPlain : IsPlain (print (obj header))
unfolding plain? print event checksum
header-IsPlain = plain?_sound (print (obj header)) refl

received-IsPlain : IsPlain (print (obj received))
unfolding plain? print event checksum unsigned_digest
received-IsPlain = plain?_sound (print (obj received)) refl

issued-IsPlain : IsPlain (print (obj issued))
unfolding plain? print event checksum unsigned_digest
issued-IsPlain = plain?_sound (print (obj issued)) refl

opened_reads : read codec (some opened_session) ≡ ok (header ∷ [])
unfolding read event print load checksum read_lines is_break read_event equals_int
opened_reads = refl

received-IsLog :
    IsLog received_session (print (obj header) ∷ print (obj received) ∷ [])
    × (read codec (some received_session) ≡ ok (header ∷ received ∷ []))
received-IsLog =
    let (_, log, reads) =
      read_after_append codec codec-RoundTrips null receipt opened_session (print (obj header) ∷ [])
        (header ∷ []) (refl, (header-IsPlain, tt)) opened_reads received-IsPlain in
    (log, reads)

session-IsLog :
    IsLog session (print (obj header) ∷ print (obj received) ∷ print (obj issued) ∷ [])
    × (read codec (some session) ≡ ok (header ∷ received ∷ issued ∷ []))
session-IsLog =
    let (log, reads) = received-IsLog in
    let (_, log_too, reads_too) =
      read_after_append codec codec-RoundTrips null closing received_session
        (print (obj header) ∷ print (obj received) ∷ []) (header ∷ received ∷ []) log reads
        issued-IsPlain in
    (log_too, reads_too)

abbrev closed_state : RuntimeState ℕ
closed_state = record {
  events = header ∷ received ∷ issued ∷ [];
  start = start;
  progress = record before {
    attempts = field "T1" (obj first_attempt) end;
    executions = "X1" ∷ [];
    evidence = field "E1" (obj email_evidence) end;
    closures = field "C1" (obj (set_field "seq" (int (pos 3)) closure)) end;
  };
}

closed_from : state_from (header ∷ received ∷ issued ∷ []) ≡ ok closed_state
unfolding state_from initial event on_execution on_closure set_field
closed_from = refl

session-state : state codec (some session) ≡ ok closed_state
unfolding state
session-state = rw session-IsLog.1 closed_from

abbrev patterns : Patterns
patterns = record {
  is_email = λ s. true;
  is_url = λ s. true;
  is_phone = λ s. true;
  is_masked = λ s. false;
  is_leak = λ s. false;
  has_claim = λ name s. false;
  count_words = λ s. 90;
  count_links = λ s. 0;
}

abbrev desk : Desk ℕ
desk = record {
  patterns = patterns;
  now = 4;
  now_text = "4";
  sanitization = null;
  iso = λ t. some (some 9);
  iso_utc = λ n. "9";
  prepared_id = "PREP-1";
  render_token = "RENDER-1";
}

abbrev email : Fields ℕ
email = field "kind" (str "EMAIL") (
    field "value" (str "a@b.c") (
      field "verified" (bool true) (
        field "current" (bool true) (
          field "owned_by_account" (bool true) (
            field "owner_entity_id" (str "A1")
              (field "evidence_ids" (arr (cons (str "E1") nil)) end))))))

abbrev args : Fields ℕ
args = field "investigation_id" (str "INV-1") (
    field "closure_id" (str "C1") (
      field "history_digest" (str "h") (
        field "authority_digest" (str "a") (
          field "route" (obj email) (
            field "subject" (str "S") (
              field "body" (str "B")
                (field "stage" (str "first_touch") (field "expires_at" (str "9") end))))))))

no_issues : all_issues desk "C1" args closed_state ≡ ok []
unfolding all_issues event set_field stripped
no_issues = refl

abbrev content : Fields ℕ
content =
    field "subject" (str "S")
      (field "body" (str "B") (field "stage" (str "FIRST_TOUCH") (field "route" (obj email) end)))

abbrev payload : Value ℕ
payload = obj (
    field "prepared_id" (str "PREP-1") (
      field "render_token" (str "RENDER-1") (
        field "closure_id" (str "C1") (
          field "investigation_id" (str "INV-1") (
            field "account_id" (str "A1") (
              field "route" (obj email) (
                field "history_digest" (str "h") (
                  field "authority_digest" (str "a") (
                    field "subject" (str "S") (
                      field "body" (str "B") (
                        field "chinese_translation" (str "") (
                          field "stage" (str "FIRST_TOUCH") (
                            field "issued_at" (str "4") (
                              field "expires_at" (str "9") (
                                field "content_sha256" (str (digest codec (obj content)))
                                  end)))))))))))))))

planned : plan_outreach desk codec args (some session) ≡ ok (sends payload "9")
unfolding plan_outreach payload_of stripped upper
planned = rw (session-state, no_issues) refl

abbrev prepared : Fields ℕ
prepared = next_event codec null (header ∷ received ∷ issued ∷ []) (prepared_row desk payload)

first_prepare : prepare desk codec args (some session) ≡ (
  some (session ++ (print (obj prepared) ++ (10 ∷ []))),
  ok (prepared_for_render "PREP-1" "RENDER-1" "9"),
)
unfolding prepare
first_prepare =
    let (log, reads) = session-IsLog in
    rw
      (
        planned,
        carry_out,
        append-eq codec null (prepared_row desk payload) session
            (print (obj header) ∷ print (obj received) ∷ print (obj issued) ∷ [])
            (header ∷ received ∷ issued ∷ []) log reads,
      )
      refl

prepare-IsCleared_example : IsCleared desk args "C1" closed_state
unfolding nonempty get
prepare-IsCleared_example =
    prepare-IsCleared desk codec args (some session)
      (some (session ++ (print (obj prepared) ++ (10 ∷ [])))) closed_state "C1" "PREP-1" "RENDER-1"
      "9" session-state refl first_prepare
