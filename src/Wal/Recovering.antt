-- ===== src/Wal/Recovering.antt =====
-- recovery_semantics_v63.py: what becomes of a prepared mutation after a crash.
use customs_buyer_intelligen.Prelude.{
  String, Bool, not, ◌&&◌, List, [], ◌∷◌, Option, none, some, ◌==◌, if◌then◌else◌,
}
use customs_buyer_intelligen.Python.{
  Outcome, ok, raise, key_error, int_error, ◌>>=◌, ℤ, pos, Value, null, int, str, obj, Fields, end,
  field, Host, find, get, without, or_str, or_value, stripped, strip, lower, to_int,
}
use customs_buyer_intelligen.Wal.Contract.{Binding, binding_of, validate}

-- What `recover_prepared_v63_mutation` returns; `blockers` of a recovery are empty, and `result` of a
-- refusal is `null`. `proof`, `event_seq` and `correlation_id` stand only in a recovery.
pub data Recovery (F : Type 0) : Type 0 where
  refused : (blockers : List String) → Option String → Recovery F
  recovered :
      (expected_request_sha256 correlation_id proof : String)
      → (event_seq : ℤ) → (recovery_action : String) → (result : Value F) → Recovery F

unfoldable pub remove_all : String → List String → List String
remove_all x [] = []
remove_all x (y ∷ ys) = let rest = remove_all x ys in if x == y then rest else y ∷ rest

-- `list(dict.fromkeys(v for v in blockers if v))`
unfoldable pub distinct : List String → List String
unfolding remove_all
distinct [] = []
distinct (x ∷ xs) = let rest = distinct xs in if x == "" then rest else x ∷ remove_all x rest

module _ {F : Type 0} where
  -- `canonical_v63_request_material`: the arguments without the control fields.
  unfoldable pub request_material : Fields F → Fields F
  unfolding without
  request_material arguments =
      without "expected_state_version" (without "idempotency_key" arguments)

  -- `event[key]`
  unfoldable pub need : String → Fields F → Outcome (Value F)
  unfolding find
  need k event = elim (find k event) [ none ↦ raise (key_error k) | some v ↦ ok v ]

  -- A dict literal whose values are read from the event by the same keys.
  unfoldable pub copy_fields : List String → Fields F → Outcome (Fields F)
  unfolding need
  copy_fields [] event = ok end
  copy_fields (k ∷ ks) event = do v ← need k event; rest ← copy_fields ks event; ok (field k v rest)

  unfoldable pub candidate_result : Fields F → Outcome (Value F)
  unfolding copy_fields
  candidate_result event = do
    fields ←
        copy_fields
          ("candidate_id" ∷ "discovered_from_anchor_id" ∷ "branch_group" ∷ "branch" ∷ "company_name"
            ∷ "product_profile_id" ∷ "stage" ∷ "inherited_anchor_facts" ∷ [])
          event
    ok (obj (field "status" (str "DISCOVERED") fields))

  unfoldable pub anchor_result : Fields F → Outcome (Value F)
  unfolding copy_fields
  anchor_result event = do
    fields ←
        copy_fields
          ("opportunity_id" ∷ "anchor_id" ∷ "promotion_reason" ∷ "stage"
            ∷ "anchor_eligibility_snapshot" ∷ "cycle_dedup_snapshot" ∷ [])
          event
    ok (obj (field "status" (str "PROMOTED") fields))

-- `digest` is the hexadecimal SHA-256 of a value's canonical JSON. It is total: the values on which
-- `canonical_json` raises (NaN, infinities, lone surrogates) are outside the model.
module _ {F : Type 0} ⦃py : Host F⦄ (digest : Value F → String) where
  -- `canonical_v63_wal_request_sha256`, for a tool name that is not blank.
  unfoldable pub wal_request_sha256 : String → Fields F → String
  unfolding request_material strip
  wal_request_sha256 tool arguments = digest (
      obj (
        field "tool" (str (strip tool)) (field "arguments" (obj (request_material arguments)) end)))

  -- The tests of the loop over the durable events.
  unfoldable pub is_exact : Binding → String → String → Fields F → Bool
  unfolding or_str get lower
  is_exact b correlation expected_hash event =
      or_str "" (get "event_type" event) == b.event_type
      && or_str "" (get "correlation_id" event) == correlation
      && lower py.tables (or_str "" (get "request_sha256" event)) == lower py.tables expected_hash

  unfoldable pub exact_events : Binding → String → String → List (Fields F) → List (Fields F)
  unfolding is_exact
  exact_events b correlation expected_hash [] = []
  exact_events b correlation expected_hash (e ∷ es) =
      let rest = exact_events b correlation expected_hash es in
      if is_exact b correlation expected_hash e then e ∷ rest else rest

  -- `int(event.get("seq") or event.get("_event_seq") or 0)`
  unfoldable pub event_seq : Fields F → Outcome ℤ
  unfolding to_int or_value get
  event_seq event =
      elim (to_int (or_value (or_value (get "seq" event) (get "_event_seq" event)) (int (pos 0)))) [
        | none ↦ raise int_error
        | some n ↦ ok n
      ]

  -- The result of a proven event, by the tool.
  unfoldable pub rebuilt : String → Binding → Fields F → Outcome (List String × Value F)
  unfolding candidate_result anchor_result or_str get lower
  rebuilt tool b event =
      if b.requires_exact_result_snapshot
      then (if not (
            lower py.tables (digest (get "result_snapshot" event))
            == lower py.tables (or_str "" (get "result_snapshot_sha256" event)))
          then ok ("RESULT_SNAPSHOT_HASH_MISMATCH" ∷ [], null)
          else ok ([], get "result_snapshot" event))
      else if tool == "append_candidate_discovery"
      then (do r ← candidate_result event; ok ([], r))
      else if tool == "promote_opportunity_anchor"
      then (do r ← anchor_result event; ok ([], r))
      else ok ("UNSUPPORTED_EVENT_RECONSTRUCTION" ∷ [], null)

  -- The last part of the function: the answer from what was rebuilt.
  unfoldable pub answer :
      Binding → String → String → String → Fields F → List String × Value F → Outcome (Recovery F)
  unfolding event_seq
  answer b expected_hash correlation action event (x ∷ xs, result) =
      ok (refused (x ∷ xs) (some expected_hash))
  answer b expected_hash correlation action event ([], result) = do
    seq ← event_seq event
    ok (recovered expected_hash correlation b.proof seq action result)

  unfoldable pub from_single : String → Binding → String → String → Fields F → Outcome (Recovery F)
  from_single tool b expected_hash correlation event =
      let proof = validate b event in
      if not proof.valid then ok (refused (distinct proof.blockers) (some expected_hash)) else do
        r ← rebuilt tool b event
        answer b expected_hash correlation proof.recovery_action event r

  -- By how many events fit exactly.
  unfoldable pub from_exact :
      String → Binding → String → String → List (Fields F) → Outcome (Recovery F)
  from_exact tool b expected_hash correlation [] =
      ok (refused ("NO_EXACT_DURABLE_PROOF" ∷ []) (some expected_hash))
  from_exact tool b expected_hash correlation (e ∷ []) =
      from_single tool b expected_hash correlation e
  from_exact tool b expected_hash correlation (e ∷ e' ∷ es) =
      ok (refused ("AMBIGUOUS_EXACT_DURABLE_PROOF" ∷ []) (some expected_hash))

  unfoldable pub recover_prepared :
      String → Fields F → Value F → List (Fields F) → Outcome (Recovery F)
  recover_prepared tool arguments expected_correlation_id durable_events = elim (binding_of tool) [
    | none ↦ ok (refused ("UNKNOWN_V63_DURABLE_MUTATION" ∷ []) none)
    | some b ↦
        let correlation = stripped expected_correlation_id in
        let expected_hash = wal_request_sha256 tool arguments in
        if correlation == ""
        then ok (refused ("MISSING_EXPECTED_CORRELATION_ID" ∷ []) none)
        else from_exact tool b expected_hash correlation
            (exact_events b correlation expected_hash durable_events)
  ]
