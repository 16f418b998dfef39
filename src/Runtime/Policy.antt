-- ===== src/Runtime/Policy.antt =====
-- unified_runtime/core.py: `UnifiedRuntime._normalize_network_policy`, and the gate that it sets on the
-- promotion of a peer in `append_peer_receipt`.
use customs_buyer_intelligen.Prelude.{
  ℕ, zero, suc, ◌+◌, String, Bool, true, false, not, List, [], ◌∷◌, ◌++◌, Option, none, some, is_in,
  is_empty, ltb, ◌==◌, if◌then◌else◌,
}
use customs_buyer_intelligen.Python.{
  Value, bool, int, str, obj, Fields, end, field, Host, find, get, or_value, or_str, is_bool,
  to_str, set_field, upper, sorted_texts, ℤ, pos, negsuc,
}
use customs_buyer_intelligen.Chain.{Result, ok, err, invalid, other, ◌>>=◌, need, as_text}
use customs_buyer_intelligen.Runtime.State.{update_fields}
use customs_buyer_intelligen.Runtime.Inputs.{◌&◌, joined, unexpected}
use customs_buyer_intelligen.Runtime.Issues.{rank_of}

abbrev pub fit_ranks : List (String × ℕ)
fit_ranks = ("C", 1) ∷ ("B", 2) ∷ ("B+", 3) ∷ ("A", 4) ∷ ("A+", 5) ∷ []

abbrev pub evidence_ranks : List (String × ℕ)
evidence_ranks = ("C", 1) ∷ ("B", 2) ∷ ("A", 3) ∷ []

abbrev pub policy_fields : List String
policy_fields =
    "minimum_target_fit" ∷ "minimum_evidence_grade" ∷ "require_commercial_novelty"
    ∷ "require_canonical_new" ∷ "closure_strategy" ∷ []

abbrev pub budget_fields : List String
budget_fields = "max_anchor_depth" ∷ "max_promoted_anchors" ∷ []

-- `if not test: raise ValidationError(message)`
unfoldable pub ensure : Bool → String → Result Unit
ensure test message = if test then ok tt else err (invalid message)

-- A grade's rank, where the ranks have it.
unfoldable pub ranked : List (String × ℕ) → String → String → Result ℕ
unfolding rank_of
ranked ranks grade message = elim (rank_of ranks grade) [
  | none ↦ err (invalid message)
  | some rank ↦ ok rank
]

-- `ranks[grade]`: `KeyError` where the ranks have no such grade.
unfoldable pub known_rank : Option ℕ → Result ℕ
known_rank none = err (other "KeyError")
known_rank (some rank) = ok rank

module _ {F : Type 0} where
  -- `NETWORK_POLICY_DEFAULTS`
  abbrev pub policy_defaults : Fields F
  policy_defaults = field "minimum_target_fit" (str "A") (
      field "minimum_evidence_grade" (str "B") (
        field "require_commercial_novelty" (bool true) (
          field "require_canonical_new" (bool true)
            (field "closure_strategy" (str "QUEUE_PIVOT_SATURATION") end))))

  -- `{key: value for key, value in policy.items() if key in NETWORK_POLICY_DEFAULTS}`
  unfoldable pub kept_fields : List String → Fields F → Fields F
  kept_fields names end = end
  kept_fields names (field k v fs) =
      let rest = kept_fields names fs in if is_in k names then field k v rest else rest

  -- `require_object`
  unfoldable pub require_object : Value F → String → Result (Fields F)
  require_object (obj fs) name = ok fs
  require_object _ name = err (invalid (name & ": object required"))

  -- `isinstance(value, int) and value >= 0`: a Boolean is an integer.
  unfoldable pub is_count : Value F → Bool
  is_count (int (pos n)) = true
  is_count (bool b) = true
  is_count _ = false

  -- `legacy_budget_hints`
  unfoldable pub budget_hints : Fields F → List String → Result (Fields F)
  unfolding find is_count ensure
  budget_hints policy [] = ok end
  budget_hints policy (name ∷ names) = elim (find name policy) [
    | none ↦ budget_hints policy names
    | some v ↦ do
      checked ← ensure (is_count v) ("network_policy." & name & ": non-negative integer required")
      rest ← budget_hints policy names
      ok (field name v rest)
  ]

module _ {F : Type 0} ⦃py : Host F⦄ where
  -- `str(v).upper()`
  abbrev pub graded : Value F → String
  graded v = upper py.tables (to_str v)

  -- The tests on the merged policy; its two grades.
  unfoldable pub checked_policy : Fields F → Result (String × String)
  unfolding need ranked ensure is_bool get or_str
  checked_policy merged = do
    fit_value ← need "minimum_target_fit" merged
    evidence_value ← need "minimum_evidence_grade" merged
    let fit = graded fit_value
    let evidence = graded evidence_value
    fit_rank ←
        ranked fit_ranks fit "network_policy.minimum_target_fit invalid; allowed: C,B,B+,A,A+"
    evidence_rank ←
        ranked evidence_ranks evidence
          "network_policy.minimum_evidence_grade invalid; allowed: C,B,A"
    a ←
        ensure (not (ltb fit_rank 4))
          "network_policy.minimum_target_fit cannot weaken the Runtime minimum A"
    b ←
        ensure (not (ltb evidence_rank 2))
          "network_policy.minimum_evidence_grade cannot weaken the Runtime minimum B"
    novelty ← need "require_commercial_novelty" merged
    c ←
        ensure (is_bool novelty true)
          "network_policy.require_commercial_novelty is a non-relaxable true gate"
    new ← need "require_canonical_new" merged
    d ←
        ensure (is_bool new true)
          "network_policy.require_canonical_new is a non-relaxable true gate"
    e ←
        ensure
          (upper py.tables (or_str "" (get "closure_strategy" merged)) == "QUEUE_PIVOT_SATURATION")
          "network_policy.closure_strategy must be QUEUE_PIVOT_SATURATION"
    ok (fit, evidence)

  -- `_normalize_network_policy`
  unfoldable pub normalize_policy : Value F → Result (Fields F)
  unfolding or_value require_object unexpected ensure sorted_texts joined update_fields kept_fields
      budget_hints checked_policy set_field
  normalize_policy raw = do
    policy ← require_object (or_value raw (obj end)) "network_policy"
    let extra = unexpected (policy_fields ++ budget_fields) policy
    known ←
        ensure (is_empty extra)
          ("network_policy: unsupported fields: " & joined (sorted_texts extra))
    let merged = update_fields policy_defaults (kept_fields policy_fields policy)
    hints ← budget_hints policy budget_fields
    (fit, evidence) ← checked_policy merged
    ok (
        set_field "fixed_caps_are_completion_conditions" (bool false) (
          set_field "legacy_budget_hints_enforced" (bool false) (
            set_field "legacy_budget_hints" (obj hints) (
              set_field "closure_strategy" (str "QUEUE_PIVOT_SATURATION") (
                set_field "minimum_evidence_grade" (str evidence)
                  (set_field "minimum_target_fit" (str fit) merged))))))

  -- The rank of a policy's own grade.
  unfoldable pub policy_rank : List (String × ℕ) → String → Fields F → Result ℕ
  unfolding need as_text rank_of known_rank
  policy_rank ranks name policy = do
    grade_value ← need name policy
    grade ← as_text grade_value
    known_rank (rank_of ranks grade)

-- `n + 1`
unfoldable pub next_ℤ : ℤ → ℤ
next_ℤ (pos n) = pos (n + 1)
next_ℤ (negsuc zero) = pos 0
next_ℤ (negsuc (suc n)) = negsuc n
