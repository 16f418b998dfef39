-- ===== src/Examples/Policies.antt =====
-- The network policy and the promotion of a peer, at concrete inputs.
use customs_buyer_intelligen.Prelude.{ℕ, true, false, ◌≡◌, refl}
use customs_buyer_intelligen.Python.{
  to_str, Value, bool, int, pos, str, obj, Fields, end, field, upper,
}
use customs_buyer_intelligen.Chain.{ok, err, invalid}
use customs_buyer_intelligen.Examples.Codec.{naturals}
use customs_buyer_intelligen.Runtime.Policy.{normalize_policy}
use customs_buyer_intelligen.Runtime.Promotion.{promotion_gate}
use customs_buyer_intelligen.Runtime.Promoted.{IsWorthy, promotion_gate-IsWorthy}

abbrev asked : Value ℕ
asked = obj (field "minimum_target_fit" (str "a+") (field "max_anchor_depth" (int (pos 3)) end))

abbrev policy : Fields ℕ
policy = field "minimum_target_fit" (str "A+") (
    field "minimum_evidence_grade" (str "B") (
      field "require_commercial_novelty" (bool true) (
        field "require_canonical_new" (bool true) (
          field "closure_strategy" (str "QUEUE_PIVOT_SATURATION") (
            field "legacy_budget_hints" (obj (field "max_anchor_depth" (int (pos 3)) end)) (
              field "legacy_budget_hints_enforced" (bool false)
                (field "fixed_caps_are_completion_conditions" (bool false) end)))))))

abbrev receipt : Fields ℕ
receipt = field "target_fit_grade" (str "A+") (
    field "promotion_evidence_grade" (str "b")
      (field "commercial_novelty" (bool true) (field "canonical_status" (str "new") end)))

asked_accepted : normalize_policy asked ≡ ok policy
unfolding normalize_policy upper
asked_accepted = refl

weak_refused :
    normalize_policy {F = ℕ} (obj (field "minimum_target_fit" (str "B+") end))
    ≡ err (invalid "network_policy.minimum_target_fit cannot weaken the Runtime minimum A")
unfolding normalize_policy upper
weak_refused = refl

receipt_passes :
    promotion_gate policy receipt (str "A1") (field "A1" (int (pos 0)) end)
    ≡ ok ("A+", "B", "NEW", pos 1)
unfolding promotion_gate upper to_str
receipt_passes = refl

promotion_gate-IsWorthy_example :
    IsWorthy receipt (str "A1") (field "A1" (int (pos 0)) end) ("A+", "B", "NEW", pos 1)
promotion_gate-IsWorthy_example =
    promotion_gate-IsWorthy asked policy receipt (str "A1") (field "A1" (int (pos 0)) end)
      ("A+", "B", "NEW", pos 1) asked_accepted receipt_passes
