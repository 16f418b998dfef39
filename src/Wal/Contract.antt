-- ===== src/Wal/Contract.antt =====
-- wal_contract_v63.py: what each mutation's durable event must hold, and its check.
use Prim.Native.Char.{code}
use Prim.Native.String.{[], ◌∷◌, ◌++◌}
use mathlib.Core.List
use customs_buyer_intelligen.Prelude.{
  ℕ, suc, String, Bool, true, false, not, ◌&&◌, ◌||◌, List, Option, none, some, eqb, leb, ◌==◌,
  when, ◌⊕◌, is_empty, if◌then◌else◌,
}
use customs_buyer_intelligen.Python.{
  Value, null, obj, str, Fields, Host, find, get, has, truthy, or_str, stripped, equals_str,
  equals_bool,
}

-- The constants that `required_exact_values` holds.
pub data Expected : Type 0 where
  flag : Bool → Expected
  word : String → Expected

-- A row of `V63_WAL_BINDINGS`, less the entries that no code reads.
pub record Binding : Type 0 where
  pub event_type : String
  pub proof : String
  pub requires_exact_result_snapshot : Bool
  pub required_event_fields : List String
  pub required_exact_values : List (String × Expected)

abbrev one : {A : Type 0} → A → List A
one a = List.◌∷◌ a List.[]

infixr 67 ◌▹◌
abbrev pub ◌▹◌ : {A : Type 0} → A → List A → List A
a ▹ as' = List.◌∷◌ a as'

unfoldable pub append_candidate_discovery : Binding
append_candidate_discovery = record {
  event_type = "V63_CANDIDATE_DISCOVERED";
  proof = "CORRELATED_V63_CANDIDATE_DISCOVERY_EVENT";
  requires_exact_result_snapshot = false;
  required_event_fields =
      "candidate_id" ▹ "discovered_from_anchor_id" ▹ "branch_group" ▹ "branch" ▹ "company_name"
      ▹ "product_profile_id" ▹ "stage" ▹ "inherited_anchor_facts" ▹ List.[];
  required_exact_values =
      ("stage", word "DISCOVERED") ▹ ("inherited_anchor_facts", flag false) ▹ List.[];
}

unfoldable pub create_product_opportunity : Binding
create_product_opportunity = record {
  event_type = "V63_PRODUCT_OPPORTUNITY_CREATED";
  proof = "CORRELATED_V63_PRODUCT_OPPORTUNITY_CREATE_WITH_EXACT_RESULT_SNAPSHOT";
  requires_exact_result_snapshot = true;
  required_event_fields = List.[];
  required_exact_values = List.[];
}

unfoldable pub promote_opportunity_anchor : Binding
promote_opportunity_anchor = record {
  event_type = "V63_OPPORTUNITY_ANCHOR_PROMOTED";
  proof = "CORRELATED_V63_ANCHOR_PROMOTION_EVENT";
  requires_exact_result_snapshot = false;
  required_event_fields =
      "opportunity_id" ▹ "anchor_id" ▹ "promotion_reason" ▹ "stage" ▹ "anchor_eligibility_snapshot"
      ▹ "cycle_dedup_snapshot" ▹ List.[];
  required_exact_values =
      ("stage", word "PROMOTED_ANCHOR")
      ▹ ("anchor_eligibility_snapshot.anchor_eligible", flag true)
      ▹ ("cycle_dedup_snapshot.cycle_dedup_complete", flag true)
      ▹ List.[];
}

-- `V63_WAL_BINDINGS.get(tool)`
unfoldable pub binding_of : String → Option Binding
unfolding append_candidate_discovery create_product_opportunity promote_opportunity_anchor
binding_of tool =
    if tool == "append_candidate_discovery"
    then some append_candidate_discovery
    else if tool == "create_product_opportunity"
    then some create_product_opportunity
    else if tool == "promote_opportunity_anchor"
    then some promote_opportunity_anchor
    else none

unfoldable pub is_hex : ℕ → Bool
is_hex c = (leb 48 c && leb c 57) || (leb 97 c && leb c 102) || (leb 65 c && leb c 70)

-- `len(text) == n and all(ch in "0123456789abcdefABCDEF" for ch in text)`
unfoldable pub hex_of_length : ℕ → String → Bool
unfolding is_hex
hex_of_length ℕ.zero [] = true
hex_of_length (suc n) [] = false
hex_of_length ℕ.zero (c ∷ s) = false
hex_of_length (suc n) (c ∷ s) = is_hex (code c) && hex_of_length n s

abbrev into_first : String → List String → List String
into_first s List.[] = one s
into_first s (List.◌∷◌ t ts) = (s ++ t) ▹ ts

-- `dotted.split(".")`
unfoldable pub split_dots : String → List String
split_dots [] = one ""
split_dots (c ∷ s) =
    let rest = split_dots s in if eqb (code c) 46 then "" ▹ rest else into_first (c ∷ []) rest

-- What the check returns; `reexecute_side_effect` is the constant `False`.
pub record Verdict : Type 0 where
  pub valid : Bool
  pub blockers : List String
  pub recovery_action : String
  pub reexecute_side_effect : Bool

module _ {F : Type 0} where
  -- `_path_value` along the parts: `none` where the path is not there.
  unfoldable pub walk : Value F → List String → Option (Value F)
  unfolding find
  walk v List.[] = some v
  walk (obj fs) (List.◌∷◌ part parts) = elim (find part fs) [ none ↦ none | some v ↦ walk v parts ]
  walk _ (List.◌∷◌ part parts) = none

  unfoldable pub path_value : Fields F → String → Option (Value F)
  unfolding walk split_dots
  path_value event dotted = walk (obj event) (split_dots dotted)

  -- `not present or value is None or value == ""`
  unfoldable pub is_missing : Option (Value F) → Bool
  is_missing none = true
  is_missing (some null) = true
  is_missing (some (str s)) = s == ""
  is_missing (some _) = false

module _ {F : Type 0} ⦃py : Host F⦄ where
  unfoldable pub sha256_like : Value F → Bool
  unfolding hex_of_length or_str
  sha256_like v = hex_of_length 64 (or_str "" v)

  -- `value == expected`
  unfoldable pub equals : Value F → Expected → Bool
  unfolding equals_bool equals_str
  equals v (flag b) = equals_bool v b
  equals v (word s) = equals_str v s

  -- `present and value == expected`
  unfoldable pub meets : Option (Value F) → Expected → Bool
  unfolding equals
  meets none x = false
  meets (some v) x = equals v x

  unfoldable pub missing_fields : Fields F → List String → List String
  unfolding path_value is_missing
  missing_fields event List.[] = List.[]
  missing_fields event (List.◌∷◌ k ks) =
      List.◌++◌ (when (is_missing (path_value event k)) ("MISSING_EVENT_FIELD:" ++ k))
        (missing_fields event ks)

  unfoldable pub failed_constraints : Fields F → List (String × Expected) → List String
  unfolding path_value meets
  failed_constraints event List.[] = List.[]
  failed_constraints event (List.◌∷◌ (path, x) ks) =
      List.◌++◌ (when (not (meets (path_value event path) x)) ("EVENT_CONSTRAINT_FAILED:" ++ path))
        (failed_constraints event ks)

  -- The blockers about the stored result.
  unfoldable pub snapshot_blockers : Bool → Fields F → List String
  unfolding has sha256_like get
  snapshot_blockers false event = List.[]
  snapshot_blockers true event =
      List.◌++◌ (when (not (has "result_snapshot" event)) "MISSING_RESULT_SNAPSHOT") (
        when (not (sha256_like (get "result_snapshot_sha256" event)))
          "INVALID_RESULT_SNAPSHOT_SHA256")

  -- The list that `validate_v63_durable_event_proof` gathers, in its order.
  unfoldable pub proof_blockers : Binding → Fields F → List String
  unfolding sha256_like or_str stripped truthy get snapshot_blockers missing_fields
      failed_constraints
  proof_blockers b event =
      when (not (or_str "" (get "event_type" event) == b.event_type)) "EVENT_TYPE_MISMATCH"
      ⊕ when (stripped (get "correlation_id" event) == "") "MISSING_CORRELATION_ID"
      ⊕ when (not (sha256_like (get "request_sha256" event))) "INVALID_REQUEST_SHA256"
      ⊕ snapshot_blockers b.requires_exact_result_snapshot event
      ⊕ when (truthy (get "raw_idempotency_key_persisted" event)) "RAW_IDEMPOTENCY_KEY_PERSISTED"
      ⊕ missing_fields event b.required_event_fields
      ⊕ failed_constraints event b.required_exact_values

  unfoldable pub validate : Binding → Fields F → Verdict
  unfolding proof_blockers
  validate b event =
      let blockers = proof_blockers b event in
      record {
        valid = is_empty blockers;
        blockers = blockers;
        recovery_action =
            if not (is_empty blockers)
            then "MUTATION_RECONCILIATION_REQUIRED"
            else if b.requires_exact_result_snapshot
            then "RETURN_EXACT_STORED_RESULT"
            else "RECONSTRUCT_FROM_CORRELATED_EVENT";
        reexecute_side_effect = false;
      }
