-- ===== src/Runtime/Replay.antt =====
-- unified_runtime/core.py, `UnifiedRuntime._state`: the state before the loop, the loop, and the
-- whole function on a session's file.
use customs_buyer_intelligen.Prelude.{String, List, [], ◌∷◌, Option, if◌then◌else◌}
use customs_buyer_intelligen.Python.{
  Value, int, arr, nil, Fields, end, field, Host, get, truthy, equals_str, pos, or_value,
}
use customs_buyer_intelligen.Chain.{Text, Codec, Result, ok, err, other, ◌>>=◌, need, as_object}
use customs_buyer_intelligen.Session.{read}
use customs_buyer_intelligen.Runtime.State.{Findings, add, id_at, each, id_texts}
use customs_buyer_intelligen.Runtime.Events.{
  on_execution, on_information, on_peer, on_plan, on_provider, on_anchor_closed, on_crm, on_closure,
  on_prepared, on_rendered,
}

-- The dict that `_state` returns.
pub record RuntimeState (F : Type 0) : Type 0 where
  pub events : List (Fields F)
  pub start : Fields F
  pub progress : Findings F

-- `set(xs)`
unfoldable pub set_of : List String → List String → List String
unfolding add
set_of [] held = held
set_of (x ∷ xs) held = set_of xs (add x held)

module _ {F : Type 0} ⦃py : Host F⦄ where
  -- `{start["account"]["account_id"]: 0}`
  unfoldable pub own_depth : Fields F → Result (Fields F)
  unfolding need id_at
  own_depth start = do
    account ← need "account" start
    account_id ← id_at "account_id" account
    ok (field account_id (int (pos 0)) end)

  -- `dict(start.get("anchor_depths") or …)`
  unfoldable pub first_depths : Fields F → Result (Fields F)
  unfolding get truthy as_object own_depth
  first_depths start =
      let given = as_object (get "anchor_depths" start) in
      let own = own_depth start in if truthy (get "anchor_depths" start) then given else own

  -- The state before the loop.
  unfoldable pub initial : Fields F → Result (Findings F)
  unfolding need each id_texts first_depths get or_value set_of
  initial start = do
    queue ← need "anchor_queue" start
    anchors ← each queue
    anchor_queue ← id_texts anchors
    anchor_depths ← first_depths start
    visual ← each (or_value (get "manual_visual_queue" start) (arr nil))
    manual_visual_queue ← id_texts visual
    ok (record {
      attempts = end;
      executions = [];
      evidence = end;
      information_records = end;
      pivots = end;
      peers = end;
      anchor_queue = anchor_queue;
      anchor_closed = [];
      anchor_depths = anchor_depths;
      manual_visual_queue = set_of manual_visual_queue [];
      provider_plans = end;
      provider_receipts = end;
      provider_tool_calls = [];
      provider_planned_calls = [];
      crm_writebacks = end;
      crm_transactions = [];
      closures = end;
      preparations = end;
      rendered_tokens = [];
    })

  -- The branches with the types that they test for.
  abbrev pub branches : Fields F → List (String × (Fields F → Findings F → Result (Findings F)))
  branches event =
      ("EXECUTION_RECEIPT_APPENDED", on_execution)
      ∷ ("INFORMATION_RECORD_APPENDED", on_information)
      ∷ ("PEER_RECEIPT_APPENDED", on_peer)
      ∷ ("PROVIDER_PLAN_CREATED", on_plan)
      ∷ ("PROVIDER_RECEIPT_APPENDED", on_provider)
      ∷ ("ANCHOR_EXPANSION_CLOSED", on_anchor_closed)
      ∷ ("CRM_WRITEBACK_RECEIPT_APPENDED", on_crm)
      ∷ ("CLOSURE_ISSUED", on_closure event)
      ∷ ("OUTREACH_PREPARED", on_prepared event)
      ∷ ("OUTREACH_RENDERED", on_rendered)
      ∷ []

  -- The first branch whose test holds; an event of another type changes nothing.
  unfoldable pub handle :
      Value F
      → Value F
      → Findings F
      → List (String × (Fields F → Findings F → Result (Findings F)))
      → Result (Findings F)
  unfolding equals_str as_object
  handle kind payload s [] = ok s
  handle kind payload s ((name, on) ∷ rest) =
      let later = handle kind payload s rest in
      let taken = as_object payload >>= λ fs. on fs s in
      if equals_str kind name then taken else later

  unfoldable pub step_event : Fields F → Findings F → Result (Findings F)
  unfolding need handle
  step_event event s = do
    payload ← need "payload" event
    kind ← need "event_type" event
    handle kind payload s (branches event)

  -- `for event in events[1:]`
  unfoldable pub replay : List (Fields F) → Findings F → Result (Findings F)
  unfolding step_event
  replay [] s = ok s
  replay (event ∷ events) s = do t ← step_event event s; replay events t

  -- What `_state` makes of the events that were read.
  unfoldable pub state_from : List (Fields F) → Result (RuntimeState F)
  unfolding need as_object initial replay
  state_from [] = err (other "IndexError")
  state_from (first ∷ rest) = do
    payload ← need "payload" first
    start ← as_object payload
    before ← initial start
    after ← replay rest before
    ok (record { events = first ∷ rest; start = start; progress = after })

  -- `_state`
  unfoldable pub state : Codec F → Option Text → Result (RuntimeState F)
  unfolding read state_from
  state codec file = do events ← read codec file; state_from events
