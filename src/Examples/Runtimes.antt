-- ===== src/Examples/Runtimes.antt =====
-- The runtime's theorems at a concrete investigation.
use customs_buyer_intelligen.Prelude.{ℕ, [], ◌∷◌, ◌++◌, some, ◌≡◌, refl}
use customs_buyer_intelligen.Python.{
  null, int, pos, str, arr, nil, cons, obj, Fields, end, field, equals_str, equals_int,
}
use customs_buyer_intelligen.Chain.{
  Text, IsPlain, unlines, read_lines, is_break, read_event, ok, ◌>>=◌, zeros, unsigned_digest, need,
  as_object,
}
use customs_buyer_intelligen.Session.{Row, event, read, append}
use customs_buyer_intelligen.Session.Appending.{IsLog, next_event, read_after_append}
use customs_buyer_intelligen.Examples.Plain.{plain?, plain?_sound}
use customs_buyer_intelligen.Examples.Codec.{
  codec, codec-RoundTrips, naturals, print, load, checksum,
}
use customs_buyer_intelligen.Runtime.State.{Findings, id_at}
use customs_buyer_intelligen.Runtime.Replay.{RuntimeState, initial, step_event, state_from, state}
use customs_buyer_intelligen.Runtime.Events.{on_anchor_closed}
use customs_buyer_intelligen.Runtime.Sets.{Apart, Within}
use customs_buyer_intelligen.Runtime.Advancing.{IsSound}
use customs_buyer_intelligen.Runtime.Growing.{append-state}
use customs_buyer_intelligen.Runtime.Anchors.{state-IsSound}
use customs_buyer_intelligen.Runtime.Closing.{closing-state}

abbrev pub start : Fields ℕ
start =
    field "anchor_queue" (arr (cons (str "A1") nil))
      (field "account" (obj (field "account_id" (str "A1") end)) end)

abbrev opening : Row ℕ
opening = record { now = "1"; event_type = "INVESTIGATION_STARTED"; payload = obj start }

abbrev closing : Row ℕ
closing = record {
  now = "2";
  event_type = "ANCHOR_EXPANSION_CLOSED";
  payload = obj (field "anchor_id" (str "A1") end);
}

abbrev pub header : Fields ℕ
header = event codec null 1 (str zeros) opening

abbrev closed : Fields ℕ
closed = next_event codec null (header ∷ []) closing

abbrev pub session : Text
session = unlines (print (obj header) ∷ [])

abbrev after_closing : Text
after_closing = session ++ (print (obj closed) ++ (10 ∷ []))

header-IsPlain : IsPlain (print (obj header))
unfolding plain? print event checksum
header-IsPlain = plain?_sound (print (obj header)) refl

closed-IsPlain : IsPlain (print (obj closed))
unfolding plain? print event checksum unsigned_digest
closed-IsPlain = plain?_sound (print (obj closed)) refl

pub session-IsLog : IsLog session (print (obj header) ∷ [])
session-IsLog = (refl, (header-IsPlain, tt))

pub session_reads : read codec (some session) ≡ ok (header ∷ [])
unfolding read event print load checksum read_lines is_break read_event equals_int
session_reads = refl

grown_reads : read codec (some after_closing) ≡ ok (header ∷ closed ∷ [])
grown_reads =
    (read_after_append codec codec-RoundTrips null closing session (print (obj header) ∷ [])
      (header ∷ []) session-IsLog session_reads closed-IsPlain).2

abbrev pub before : Findings ℕ
before = record {
  attempts = end;
  executions = [];
  evidence = end;
  information_records = end;
  pivots = end;
  peers = end;
  anchor_queue = "A1" ∷ [];
  anchor_closed = [];
  anchor_depths = field "A1" (int (pos 0)) end;
  manual_visual_queue = [];
  provider_plans = end;
  provider_receipts = end;
  provider_tool_calls = [];
  provider_planned_calls = [];
  crm_writebacks = end;
  crm_transactions = [];
  closures = end;
  preparations = end;
  rendered_tokens = [];
}

abbrev started : RuntimeState ℕ
started = record { events = header ∷ []; start = start; progress = before }

abbrev ended : RuntimeState ℕ
ended = record {
  events = header ∷ closed ∷ [];
  start = start;
  progress = record before { anchor_queue = []; anchor_closed = "A1" ∷ [] };
}

start_begins : initial start ≡ ok before
unfolding initial
start_begins = refl

started_of : state_from (header ∷ []) ≡ ok started
unfolding state_from initial event
started_of = refl

ended_of : state_from (header ∷ closed ∷ []) ≡ ok ended
unfolding state_from initial event on_anchor_closed
ended_of = refl

session-state : state codec (some session) ≡ ok started
unfolding state
session-state = rw session_reads started_of

grown-state : state codec (some after_closing) ≡ ok ended
unfolding state
grown-state = rw grown_reads ended_of

state-IsSound_example :
    IsSound before × IsSound ended.progress × Within [] ("A1" ∷ []) × Apart [] []
state-IsSound_example =
    state-IsSound codec (some session) (some after_closing) (closed ∷ []) started ended before
      session-state start_begins (refl, tt) grown_reads grown-state

append-state_example :
    (append codec null closing (some session) ≡ ok (after_closing, closed))
    × (state codec (some after_closing) ≡ (
        step_event closed before >>= λ t.
        ok (record { events = header ∷ closed ∷ []; start = start; progress = t })))
append-state_example =
    append-state codec codec-RoundTrips null closing session (print (obj header) ∷ []) started
      session-IsLog session-state closed-IsPlain

closing-state_example :
    (t : RuntimeState ℕ) × (state codec (some after_closing) ≡ ok t)
    × (t.progress.anchor_queue ≡ [])
unfolding event need as_object id_at equals_str
closing-state_example =
    closing-state codec (some session) (some after_closing) (closed ∷ []) ("A1" ∷ []) started
      session-state grown_reads refl (refl, tt)
