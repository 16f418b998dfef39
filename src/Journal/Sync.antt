-- ===== src/Journal/Sync.antt =====
-- `sync` of the journal: kept receipts are handed to their tools.
use customs_buyer_intelligen.Prelude.{
  ℕ, ◌+◌, String, Bool, true, false, not, ◌||◌, List, [], ◌∷◌, ◌++◌, Option, none, some, ltb,
  length, take, ◌==◌, if◌then◌else◌,
}
use customs_buyer_intelligen.Python.{
  Value, null, str, Fields, Host, ℤ, pos, negsuc, get, equals_str,
}
use customs_buyer_intelligen.Chain.{
  Error, Result, ok, err, corrupt, broken, mismatch, invalid, attribute_error, other, Codec,
}
use customs_buyer_intelligen.Chain.Log.{EventLog}
use customs_buyer_intelligen.Journal.Files.{Store}
use customs_buyer_intelligen.Journal.Defs.{Row, entries, load, record_sync}

-- What the interpreter says of an exception: `str(exc)`, and the text with its type.
pub record Texts : Type 0 where
  pub message : Error → String
  pub described : Error → String

-- A tool: on a payload and the runtime's other state it gives a result or raises.
abbrev pub Handler : Type 0 → Type 0 → Type 0
Handler F W = Value F → W → W × Result (Value F)

-- One of `outcomes`.
pub record Synced (F : Type 0) : Type 0 where
  pub journal_id : String
  pub status : String
  pub detail : Value F

-- The journal, the runtime's other state, and the outcomes so far.
pub record Run (F L W : Type 0) : Type 0 where
  pub store : Store L
  pub world : W
  pub outcomes : List (Synced F)

-- How far the loop came: on, or out by an exception.
pub data Progress (R : Type 0) : Type 0 where
  going : R → Progress R
  raised : R → Error → Progress R

abbrev pub is_validation : Error → Bool
is_validation (corrupt n) = true
is_validation (broken n) = true
is_validation (mismatch n) = true
is_validation (invalid s) = true
is_validation attribute_error = false
is_validation (other s) = false

module _ {F : Type 0} ⦃py : Host F⦄ where
  -- `row["status"] not in {"SYNCED", "DEDUPLICATED"}`
  unfoldable pub is_open : Row F → Bool
  unfolding equals_str
  is_open row = not (equals_str row.status "SYNCED" || equals_str row.status "DEDUPLICATED")

  unfoldable pub open_rows : List (Row F) → List (Row F)
  unfolding is_open
  open_rows [] = []
  open_rows (row ∷ rows) = let rest = open_rows rows in if is_open row then row ∷ rest else rest

  -- The rows of one investigation, or all where none is named.
  unfoldable pub rows_for : String → List (Row F) → List (Row F)
  unfolding equals_str
  rows_for investigation_id [] = []
  rows_for investigation_id (row ∷ rows) =
      let rest = rows_for investigation_id rows in
      if investigation_id == "" || equals_str row.investigation_id investigation_id
      then row ∷ rest
      else rest

  -- The rows that `sync` goes through.
  unfoldable pub selected : String → ℕ → List (Row F) → List (Row F)
  unfolding rows_for open_rows
  selected investigation_id limit rows = take limit (rows_for investigation_id (open_rows rows))

module _ {F : Type 0} where
  -- `handlers.get(envelope["target_tool"])`
  unfoldable pub handler_of :
      {W : Type 0} → (String → Option (Handler F W)) → Value F → Option (Handler F W)
  handler_of handlers (str tool) = handlers tool
  handler_of handlers _ = none

-- `counts[status] = counts.get(status, 0) + 1`
unfoldable pub count_status : String → List (String × ℕ) → List (String × ℕ)
count_status status [] = (status, 1) ∷ []
count_status status ((s, n) ∷ counts) =
    let rest = count_status status counts in
    if s == status then (s, n + 1) ∷ counts else (s, n) ∷ rest

abbrev pub status_counts : {F : Type 0} → List (String × ℕ) → List (Synced F) → List (String × ℕ)
status_counts counts [] = counts
status_counts counts (o ∷ os) = status_counts (count_status o.status counts) os

-- What `sync` returns.
pub record Report (F : Type 0) : Type 0 where
  pub dry_run : Bool
  pub processed : ℕ
  pub counts : List (String × ℕ)
  pub outcomes : List (Synced F)

module _ {F L W : Type 0} ⦃py : Host F⦄ (codec : Codec F) (log : EventLog F L) (texts : Texts)
    (clock : String → String) (handlers : String → Option (Handler F W))
    (equivalent : Value F → Value F → W → Bool) (dry_run : Bool) where
  -- `record_sync` and `outcomes.append`, one after the other. The event's time is what the clock says
  -- when that receipt is recorded.
  unfoldable pub settle :
      Row F → Fields F → String → Value F → String → Value F → Run F L W → Progress (Run F L W)
  settle row envelope status result error detail run =
      elim (record_sync codec log envelope status result error (clock row.journal_id) run.store) [
        | err x ↦ raised run x
        | ok store ↦ going (record {
          store = store;
          world = run.world;
          outcomes =
              run.outcomes
              ++ record { journal_id = row.journal_id; status = status; detail = detail } ∷ [];
        })
      ]

  -- The two `except` branches.
  unfoldable pub failed : Row F → Fields F → Error → Run F L W → Progress (Run F L W)
  unfolding settle get
  failed row envelope x run =
      if is_validation x
      then (if equivalent (get "target_tool" envelope) (get "payload" envelope) run.world
          then settle row envelope "DEDUPLICATED" null (texts.message x) (str (texts.message x)) run
          else settle row envelope "FAILED_VALIDATION" null (texts.message x)
              (str (texts.message x)) run)
      else settle row envelope "RETRYABLE_FAILURE" null (texts.described x)
          (str (texts.described x)) run

  -- The `try` with its handler: what raises in recording the success is caught there too.
  unfoldable pub attempt : Row F → Fields F → Handler F W → Run F L W → Progress (Run F L W)
  unfolding failed settle get
  attempt row envelope handler run =
      let (world, reply) = handler (get "payload" envelope) run.world in
      let handed : Run F L W = record {
        store = run.store;
        world = world;
        outcomes = run.outcomes;
      } in
      elim reply [
        | err x ↦ failed row envelope x handed
        | ok result ↦ elim (settle row envelope "SYNCED" result "" result handed) [
          | raised _ x ↦ failed row envelope x handed
          | going done ↦ going done
        ]
      ]

  -- One round of the loop; an exception leaves `sync`.
  unfoldable pub sync_row : Row F → Run F L W → Progress (Run F L W)
  sync_row row run = elim (load codec row.journal_id run.store) [
    | err x ↦ raised run x
    | ok envelope ↦
        if dry_run
        then going (record {
          store = run.store;
          world = run.world;
          outcomes =
              run.outcomes
              ++ record {
                journal_id = row.journal_id;
                status = "WOULD_SYNC";
                detail = row.target_tool;
              }
                ∷ [];
        })
        else elim (handler_of handlers (get "target_tool" envelope)) [
          | none ↦
              settle row envelope "FAILED_VALIDATION" null "handler unavailable"
                (str "handler unavailable") run
          | some handler ↦ attempt row envelope handler run
        ]
  ]

  unfoldable pub sync_rows : List (Row F) → Run F L W → Progress (Run F L W)
  sync_rows [] run = going run
  sync_rows (row ∷ rows) run = elim (sync_row row run) [
    | raised after x ↦ raised after x
    | going after ↦ sync_rows rows after
  ]

  unfoldable pub report_of : Run F L W → Report F
  unfolding count_status
  report_of run = record {
    dry_run = dry_run;
    processed = length run.outcomes;
    counts = status_counts [] run.outcomes;
    outcomes = run.outcomes;
  }

  unfoldable pub sync_within : String → ℕ → Store L → W → Run F L W × Result (Report F)
  unfolding report_of
  sync_within investigation_id limit store world =
      let start : Run F L W = record { store = store; world = world; outcomes = [] } in
      elim (entries codec log store) [
        | err x ↦ (start, err x)
        | ok rows ↦ elim (sync_rows (selected investigation_id limit rows) start) [
          | raised after x ↦ (after, err x)
          | going after ↦ (after, ok (report_of after))
        ]
      ]

  -- `sync`: the journal and the runtime's other state afterwards, and the report.
  unfoldable pub sync : String → ℤ → Store L → W → Run F L W × Result (Report F)
  sync investigation_id (pos limit) store world =
      if ltb limit 1 || ltb 1000 limit
      then (
        record { store = store; world = world; outcomes = [] },
        err (invalid "limit must be between 1 and 1000"),
      )
      else sync_within investigation_id limit store world
  sync investigation_id (negsuc n) store world = (
    record { store = store; world = world; outcomes = [] },
    err (invalid "limit must be between 1 and 1000"),
  )
