-- ===== src/Runtime/Promotion.antt =====
-- unified_runtime/core.py, `append_peer_receipt`: the gate on the promotion of a peer, under the
-- investigation's network policy.
use customs_buyer_intelligen.Prelude.{
  ℕ, ◌+◌, String, true, false, not, ◌&&◌, List, [], ◌∷◌, none, some, ltb, ◌==◌, if◌then◌else◌,
}
use customs_buyer_intelligen.Python.{
  Value, bool, int, str, obj, Fields, end, field, Host, find, get, truthy, equals_str, is_bool,
  to_int, set_field, ℤ, pos,
}
use customs_buyer_intelligen.Chain.{Result, ok, err, invalid, other, ◌>>=◌, need, as_text}
use customs_buyer_intelligen.Runtime.Routes.{required_fields}
use customs_buyer_intelligen.Runtime.Policy.{
  fit_ranks, evidence_ranks, ensure, ranked, graded, policy_rank, next_ℤ,
}

abbrev pub promotion_fields : List String
promotion_fields =
    "target_fit_grade" ∷ "promotion_evidence_grade" ∷ "commercial_novelty" ∷ "canonical_status" ∷ []

module _ {F : Type 0} ⦃py : Host F⦄ where
  -- `promoted_count`
  unfoldable pub count_promoted : Fields F → ℕ
  unfolding equals_str get
  count_promoted end = 0
  count_promoted (field k (obj item) fs) =
      (if equals_str (get "promotion_decision" item) "PROMOTE" then 1 else 0) + count_promoted fs
  count_promoted (field k _ fs) = count_promoted fs

  -- `state["anchor_depths"][parent_anchor_id]`, behind the test that it is there.
  unfoldable pub parent_depth : Value F → Fields F → Result ℤ
  unfolding as_text find to_int
  parent_depth owner depths = do
    parent ← as_text owner
    elim (find parent depths) [
      | none ↦ err (invalid "Peer promotion rejected: discovery owner is not an active Anchor")
      | some depth ↦ elim (to_int depth) [ none ↦ err (other "ValueError") | some n ↦ ok n ]
    ]

  -- The tests of the gate: the grades as they are stored, and the depth of the new anchor.
  unfoldable pub promotion_gate :
      Fields F → Fields F → Value F → Fields F → Result (String × String × String × ℤ)
  unfolding required_fields need ranked policy_rank ensure truthy is_bool parent_depth next_ℤ
  promotion_gate policy receipt owner depths = do
    present ← required_fields receipt promotion_fields "receipt promotion gate"
    fit_value ← need "target_fit_grade" receipt
    evidence_value ← need "promotion_evidence_grade" receipt
    status_value ← need "canonical_status" receipt
    let fit = graded fit_value
    let evidence = graded evidence_value
    let status = graded status_value
    fit_rank ← ranked fit_ranks fit "receipt.target_fit_grade invalid; allowed: C,B,B+,A,A+"
    evidence_rank ←
        ranked evidence_ranks evidence "receipt.promotion_evidence_grade invalid; allowed: C,B,A"
    fit_minimum ← policy_rank fit_ranks "minimum_target_fit" policy
    a ←
        ensure (not (ltb fit_rank fit_minimum))
          "Peer promotion rejected: target fit below network policy"
    evidence_minimum ← policy_rank evidence_ranks "minimum_evidence_grade" policy
    b ←
        ensure (not (ltb evidence_rank evidence_minimum))
          "Peer promotion rejected: Evidence grade below network policy"
    wants_novelty ← need "require_commercial_novelty" policy
    novelty ← need "commercial_novelty" receipt
    c ←
        ensure (not (truthy wants_novelty && not (is_bool novelty true)))
          "Peer promotion rejected: commercial_novelty must be true"
    wants_new ← need "require_canonical_new" policy
    d ←
        ensure (not (truthy wants_new && not (status == "NEW")))
          "Peer promotion rejected: canonical_status must be NEW"
    depth ← parent_depth owner depths
    ok (fit, evidence, status, next_ℤ depth)

  -- The receipt as it is stored, `normalized` being what it was before the gate.
  unfoldable pub promoted_receipt :
      Fields F → Fields F → Fields F → Value F → Fields F → Fields F → Result (Fields F)
  unfolding promotion_gate set_field count_promoted
  promoted_receipt policy receipt normalized owner depths peers = do
    (fit, evidence, status, depth) ← promotion_gate policy receipt owner depths
    ok (
        set_field "fixed_depth_or_anchor_cap_applied" (bool false) (
          set_field "network_closure_strategy" (str "QUEUE_PIVOT_SATURATION") (
            set_field "promotion_sequence" (int (pos (count_promoted peers + 1))) (
              set_field "promotion_gate" (str "PASSED") (
                set_field "anchor_depth" (int depth) (
                  set_field "parent_anchor_id" owner (
                    set_field "canonical_status" (str status) (
                      set_field "commercial_novelty" (bool true) (
                        set_field "promotion_evidence_grade" (str evidence)
                          (set_field "target_fit_grade" (str fit) normalized))))))))))
