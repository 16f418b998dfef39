-- ===== src/Runtime/State.antt =====
-- unified_runtime/core.py, `UnifiedRuntime._state`: what an investigation's events come to, and what
-- each kind of event changes. A dict keyed by identifiers is the fields of a value; a set is the
-- list of its members in the order they came. An identifier that is no text is refused.
use customs_buyer_intelligen.Prelude.{String, List, [], ◌∷◌, ◌++◌, is_in, ◌==◌, if◌then◌else◌}
use customs_buyer_intelligen.Python.{Value, str, arr, obj, Fields, end, field, items, set_field}
use customs_buyer_intelligen.Gates.Values.{keys, chars}
use customs_buyer_intelligen.Chain.{Result, ok, err, other, ◌>>=◌, need, as_object, as_text}

-- What the loop over the events changes: all but `events` and `start`.
pub record Findings (F : Type 0) : Type 0 where
  pub attempts : Fields F
  pub executions : List String
  pub evidence : Fields F
  pub information_records : Fields F
  pub pivots : Fields F
  pub peers : Fields F
  pub anchor_queue : List String
  pub anchor_closed : List String
  pub anchor_depths : Fields F
  pub manual_visual_queue : List String
  pub provider_plans : Fields F
  pub provider_receipts : Fields F
  pub provider_tool_calls : List String
  pub provider_planned_calls : List String
  pub crm_writebacks : Fields F
  pub crm_transactions : List String
  pub closures : Fields F
  pub preparations : Fields F
  pub rendered_tokens : List String

-- `set.add`
unfoldable pub add : String → List String → List String
add x xs = if is_in x xs then xs else xs ++ x ∷ []

-- `set.discard`, and `[item for item in xs if item != x]`
unfoldable pub discard : String → List String → List String
discard x [] = []
discard x (y ∷ ys) = let rest = discard x ys in if x == y then rest else y ∷ rest

-- `for item in rows: state["manual_visual_queue"].discard(item)`
unfoldable pub discard_all : List String → List String → List String
unfolding discard
discard_all [] queue = queue
discard_all (x ∷ xs) queue = discard_all xs (discard x queue)

module _ {F : Type 0} where
  -- `d[k]` where `d` has come out of JSON too.
  unfoldable pub item : String → Value F → Result (Value F)
  unfolding need as_object
  item k v = do fs ← as_object v; need k fs

  -- `d[k]`, an identifier
  unfoldable pub id_at : String → Value F → Result String
  unfolding item as_text
  id_at k v = do found ← item k v; as_text found

  -- `for x in v`
  unfoldable pub each : Value F → Result (List (Value F))
  unfolding items keys chars
  each (arr vs) = ok (items vs)
  each (obj fs) = ok (keys fs)
  each (str s) = ok (chars s)
  each v = err (other "TypeError")

  unfoldable pub id_texts : List (Value F) → Result (List String)
  unfolding as_text
  id_texts [] = ok []
  id_texts (v ∷ vs) = do t ← as_text v; ts ← id_texts vs; ok (t ∷ ts)

  -- `for item in evidence: state["evidence"][item["evidence_id"]] = item`
  unfoldable pub take_evidence : List (Value F) → Fields F → Result (Fields F)
  unfolding id_at set_field
  take_evidence [] held = ok held
  take_evidence (v ∷ vs) held = do
    evidence_id ← id_at "evidence_id" v
    take_evidence vs (set_field evidence_id v held)

  -- `for pivot in generated: state["pivots"][pivot["pivot_id"]] = dict(pivot)`
  unfoldable pub take_generated : List (Value F) → Fields F → Result (Fields F)
  unfolding id_at set_field
  take_generated [] pivots = ok pivots
  take_generated (v ∷ vs) pivots = do
    pivot_id ← id_at "pivot_id" v
    take_generated vs (set_field pivot_id v pivots)

  -- `d.update(other)`
  unfoldable pub update_fields : Fields F → Fields F → Fields F
  unfolding set_field
  update_fields held end = held
  update_fields held (field k v fs) = update_fields (set_field k v held) fs

  -- `for consumed in rows: state["pivots"][consumed["pivot_id"]].update(consumed)`
  unfoldable pub take_consumed : List (Value F) → Fields F → Result (Fields F)
  unfolding need as_object as_text update_fields set_field
  take_consumed [] pivots = ok pivots
  take_consumed (v ∷ vs) pivots = do
    consumed ← as_object v
    named ← need "pivot_id" consumed
    pivot_id ← as_text named
    kept ← need pivot_id pivots
    pivot ← as_object kept
    take_consumed vs (set_field pivot_id (obj (update_fields pivot consumed)) pivots)

  -- The evidence and the pivots of a receipt, in the order in which they are read.
  unfoldable pub take_receipt : Fields F → Findings F → Result (Findings F)
  unfolding need each take_evidence take_generated take_consumed
  take_receipt payload s = do
    evidence ← need "evidence" payload
    rows ← each evidence
    held ← take_evidence rows s.evidence
    generated ← need "pivots_generated" payload
    new ← each generated
    grown ← take_generated new s.pivots
    consumed ← need "pivots_consumed" payload
    spent ← each consumed
    pivots ← take_consumed spent grown
    ok (record s { evidence = held; pivots = pivots })
