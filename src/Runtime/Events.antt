-- ===== src/Runtime/Events.antt =====
-- unified_runtime/core.py, `UnifiedRuntime._state`: the branches of the loop, one for each type of
-- event.
use customs_buyer_intelligen.Prelude.{
  String, Bool, true, not, ◌&&◌, [], ◌∷◌, ◌++◌, none, some, is_in, if◌then◌else◌,
}
use customs_buyer_intelligen.Python.{
  Value, bool, int, arr, obj, Fields, Host, find, get, get_or, set_field, equals_str, to_int, pos,
  or_value, nil,
}
use customs_buyer_intelligen.Chain.{Result, ok, err, other, ◌>>=◌, need, as_object, as_text}
use customs_buyer_intelligen.Runtime.State.{
  Findings, add, discard, id_at, each, id_texts, take_receipt, discard_all,
}

module _ {F : Type 0} ⦃py : Host F⦄ where
  unfoldable pub on_execution : Fields F → Findings F → Result (Findings F)
  unfolding id_at need set_field add take_receipt each id_texts discard_all get or_value
  on_execution payload s = do
    attempt ← need "attempt" payload
    attempt_id ← id_at "attempt_id" attempt
    execution_id ← id_at "execution_id" attempt
    t ← take_receipt payload (record s {
      attempts = set_field attempt_id attempt s.attempts;
      executions = add execution_id s.executions;
    })
    rows ← each (or_value (get "manual_visual_items_resolved" payload) (arr nil))
    resolved ← id_texts rows
    ok (record t { manual_visual_queue = discard_all resolved t.manual_visual_queue })

  unfoldable pub on_information : Fields F → Findings F → Result (Findings F)
  unfolding id_at need set_field
  on_information payload s = do
    row ← need "record" payload
    information_id ← id_at "information_id" row
    ok (record s { information_records = set_field information_id row s.information_records })

  -- `int(v)`
  unfoldable pub depth_of : Value F → Result (Value F)
  unfolding to_int
  depth_of v = elim (to_int v) [ none ↦ err (other "ValueError") | some n ↦ ok (int n) ]

  -- The last two lines of the branch.
  unfoldable pub promote : String → Fields F → Findings F → Result (Findings F)
  unfolding depth_of get_or set_field
  promote peer_id receipt s = do
    depth ← depth_of (get_or "anchor_depth" (int (pos 1)) receipt)
    ok (record s {
      anchor_queue = s.anchor_queue ++ peer_id ∷ [];
      anchor_depths = set_field peer_id depth s.anchor_depths;
    })

  unfoldable pub is_promoted : Value F → String → Findings F → Bool
  unfolding equals_str
  is_promoted decision peer_id s =
      equals_str decision "PROMOTE"
      && not (is_in peer_id s.anchor_queue)
      && not (is_in peer_id s.anchor_closed)

  unfoldable pub on_peer : Fields F → Findings F → Result (Findings F)
  unfolding need as_object as_text set_field is_promoted promote
  on_peer payload s = do
    held ← need "receipt" payload
    receipt ← as_object held
    named ← need "peer_id" receipt
    peer_id ← as_text named
    decision ← need "promotion_decision" receipt
    let t = record s { peers = set_field peer_id held s.peers }
    let promoted = promote peer_id receipt t
    if is_promoted decision peer_id t then promoted else ok t

  unfoldable pub on_plan : Fields F → Findings F → Result (Findings F)
  unfolding id_at set_field
  on_plan payload s = do
    plan_id ← id_at "plan_id" (obj payload)
    ok (record s { provider_plans = set_field plan_id (obj payload) s.provider_plans })

  unfoldable pub on_provider : Fields F → Findings F → Result (Findings F)
  unfolding id_at need set_field add take_receipt
  on_provider payload s = do
    receipt ← need "receipt" payload
    provider_receipt_id ← id_at "provider_receipt_id" receipt
    tool_call_id ← id_at "tool_call_id" receipt
    planned_call_id ← id_at "planned_call_id" receipt
    take_receipt payload (record s {
      provider_receipts = set_field provider_receipt_id receipt s.provider_receipts;
      provider_tool_calls = add tool_call_id s.provider_tool_calls;
      provider_planned_calls = add planned_call_id s.provider_planned_calls;
    })

  abbrev pub close_anchor : String → Findings F → Findings F
  close_anchor anchor_id s = record s {
    anchor_closed = add anchor_id s.anchor_closed;
    anchor_queue = discard anchor_id s.anchor_queue;
  }

  unfoldable pub on_anchor_closed : Fields F → Findings F → Result (Findings F)
  unfolding id_at add discard
  on_anchor_closed payload s = do
    anchor_id ← id_at "anchor_id" (obj payload)
    ok (close_anchor anchor_id s)

  unfoldable pub on_crm : Fields F → Findings F → Result (Findings F)
  unfolding id_at need set_field add
  on_crm payload s = do
    receipt ← need "receipt" payload
    writeback_id ← id_at "writeback_id" receipt
    transaction_id ← id_at "transaction_id" receipt
    ok (record s {
      crm_writebacks = set_field writeback_id receipt s.crm_writebacks;
      crm_transactions = add transaction_id s.crm_transactions;
    })

  -- `{**payload, "seq": event["seq"]}`
  abbrev pub with_seq : Value F → Fields F → Value F
  with_seq seq payload = obj (set_field "seq" seq payload)

  unfoldable pub on_closure : Fields F → Fields F → Findings F → Result (Findings F)
  unfolding id_at need set_field
  on_closure event payload s = do
    seq ← need "seq" event
    closure_id ← id_at "closure_id" (obj payload)
    ok (record s { closures = set_field closure_id (with_seq seq payload) s.closures })

  -- `closure["used"] = True` where there is a closure; those that are kept are dicts.
  unfoldable pub use_closure : String → Fields F → Fields F
  unfolding find set_field
  use_closure closure_id closures = elim (find closure_id closures) [
    | none ↦ closures
    | some (obj closure) ↦
        set_field closure_id (obj (set_field "used" (bool true) closure)) closures
    | some _ ↦ closures
  ]

  unfoldable pub on_prepared : Fields F → Fields F → Findings F → Result (Findings F)
  unfolding id_at need set_field use_closure
  on_prepared event payload s = do
    seq ← need "seq" event
    prepared_id ← id_at "prepared_id" (obj payload)
    closure_id ← id_at "closure_id" (obj payload)
    ok (record s {
      preparations = set_field prepared_id (with_seq seq payload) s.preparations;
      closures = use_closure closure_id s.closures;
    })

  unfoldable pub on_rendered : Fields F → Findings F → Result (Findings F)
  unfolding id_at add
  on_rendered payload s = do
    render_token ← id_at "render_token" (obj payload)
    ok (record s { rendered_tokens = add render_token s.rendered_tokens })
