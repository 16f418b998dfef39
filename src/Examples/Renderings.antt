-- ===== src/Examples/Renderings.antt =====
-- The rendering of an outreach card, at a concrete investigation.
use customs_buyer_intelligen.Prelude.{ℕ, [], ◌∷◌, ◌++◌, some, ◌≡◌, refl}
use customs_buyer_intelligen.Python.{null, int, pos, str, obj, Fields, end, field, get, set_field}
use customs_buyer_intelligen.Chain.{Text, IsPlain, ok, unsigned_digest}
use customs_buyer_intelligen.Session.{Row, event, read, append}
use customs_buyer_intelligen.Session.Appending.{IsLog, next_event, read_after_append}
use customs_buyer_intelligen.Examples.Plain.{plain?, plain?_sound}
use customs_buyer_intelligen.Examples.Codec.{codec, codec-RoundTrips, naturals, print, checksum}
use customs_buyer_intelligen.Examples.Runtimes.{
  header, session, before, start, session-IsLog, session_reads,
}
use customs_buyer_intelligen.Runtime.Events.{on_prepared}
use customs_buyer_intelligen.Runtime.Replay.{RuntimeState, initial, state_from, state}
use customs_buyer_intelligen.Runtime.Inputs.{nonempty}
use customs_buyer_intelligen.Runtime.Rendering.{
  World, Card, sendable_draft, spends, verdict, perform, render, rendered_row, card_of,
}
use customs_buyer_intelligen.Runtime.Once.{IsRefusal, render-render}

abbrev world : World ℕ
world = record {
  now = 4;
  now_text = "4";
  sanitization = null;
  iso = λ t. some (some 9);
  quote = λ safe t. t;
}

abbrev email : Fields ℕ
email = field "kind" (str "email") (field "value" (str "a@b") end)

abbrev prepared : Fields ℕ
prepared = field "prepared_id" (str "P1") (
    field "render_token" (str "T1") (
      field "closure_id" (str "C1") (
        field "route" (obj email) (
          field "subject" (str "S") (
            field "body" (str "B") (
              field "chinese_translation" (str "")
                (field "stage" (str "FIRST_TOUCH") (field "expires_at" (str "9") end))))))))

abbrev preparing : Row ℕ
preparing = record { now = "3"; event_type = "OUTREACH_PREPARED"; payload = obj prepared }

abbrev ready : Fields ℕ
ready = next_event codec null (header ∷ []) preparing

abbrev ready_session : Text
ready_session = session ++ (print (obj ready) ++ (10 ∷ []))

abbrev ready_state : RuntimeState ℕ
ready_state = record {
  events = header ∷ ready ∷ [];
  start = start;
  progress = record before {
    preparations = field "P1" (obj (set_field "seq" (int (pos 2)) prepared)) end;
  };
}

abbrev args : Fields ℕ
args =
    field "investigation_id" (str "INV-1")
      (field "prepared_id" (str "P1") (field "render_token" (str " T1") end))

abbrev rendering : Fields ℕ
rendering = next_event codec null (header ∷ ready ∷ []) (rendered_row world "P1" "T1")

abbrev rendered_session : Text
rendered_session = ready_session ++ (print (obj rendering) ++ (10 ∷ []))

abbrev card : Card ℕ
card = record {
  recipient = str "a@b";
  route_kind = str "email";
  subject = str "S";
  body = str "B";
  chinese_translation = str "";
  stage = str "FIRST_TOUCH";
  url = "mailto:a@b?subject=S&body=B";
}

ready-IsPlain : IsPlain (print (obj ready))
unfolding plain? print event checksum unsigned_digest
ready-IsPlain = plain?_sound (print (obj ready)) refl

rendering-IsPlain : IsPlain (print (obj rendering))
unfolding plain? print event checksum unsigned_digest
rendering-IsPlain = plain?_sound (print (obj rendering)) refl

ready-IsLog :
    IsLog ready_session (print (obj header) ∷ print (obj ready) ∷ [])
    × (read codec (some ready_session) ≡ ok (header ∷ ready ∷ []))
ready-IsLog =
    let (_, log, reads) =
      read_after_append codec codec-RoundTrips null preparing session (print (obj header) ∷ [])
        (header ∷ []) session-IsLog session_reads ready-IsPlain in
    (log, reads)

ready_of : state_from (header ∷ ready ∷ []) ≡ ok ready_state
unfolding state_from initial event on_prepared set_field
ready_of = refl

ready_session-state : state codec (some ready_session) ≡ ok ready_state
unfolding state
ready_session-state = rw ready-IsLog.1 ready_of

written :
    (append codec null (rendered_row world "P1" "T1") (some ready_session)
      ≡ ok (rendered_session, rendering))
    × (read codec (some rendered_session) ≡ ok (header ∷ ready ∷ rendering ∷ []))
written =
    let (appended, _, reads) =
      read_after_append codec codec-RoundTrips null (rendered_row world "P1" "T1") ready_session
        (print (obj header) ∷ print (obj ready) ∷ []) (header ∷ ready ∷ []) ready-IsLog.0
        ready-IsLog.1 rendering-IsPlain in
    (appended, reads)

spending :
    verdict world codec args (some ready_session)
    ≡ ok (
        spends "P1" "T1"
          (set_field "seq" (int (pos 2)) prepared)
          email
          "mailto:a@b?subject=S&body=B")
unfolding verdict set_field
spending = rw ready_session-state refl

first_render :
    render world codec args (some ready_session) ≡ (some rendered_session, ok (sendable_draft card))
unfolding render set_field card_of
first_render = rw (spending, perform, written.0) refl

render-render_example :
    IsRefusal (some rendered_session) (render world codec args (some rendered_session))
unfolding nonempty get
render-render_example =
    render-render codec codec-RoundTrips world world args args ready_session
      (print (obj header) ∷ print (obj ready) ∷ []) ready_state "P1" "T1" card
      (some rendered_session) (some rendered_session) (header ∷ ready ∷ rendering ∷ []) []
      ready-IsLog.0 ready_session-state refl refl rendering-IsPlain first_render written.1 written.1
      refl
