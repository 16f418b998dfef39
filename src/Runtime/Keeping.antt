-- ===== src/Runtime/Keeping.antt =====
-- The kinds of event that leave the anchors and the rendered tokens alone.
use customs_buyer_intelligen.Prelude.{◌≡◌, arith}
use customs_buyer_intelligen.Python.{Fields, Host}
use customs_buyer_intelligen.Chain.{ok, >>=-eq-ok, need}
use customs_buyer_intelligen.Runtime.State.{Findings, take_receipt, id_at}
use customs_buyer_intelligen.Runtime.Events.{
  on_execution, on_information, on_plan, on_provider, on_crm, on_closure, on_prepared,
}

abbrev pub Keeps : {F : Type 0} → Findings F → Findings F → Type 0
Keeps s t =
    (t.anchor_queue ≡ s.anchor_queue)
    × (t.anchor_closed ≡ s.anchor_closed)
    × (t.rendered_tokens ≡ s.rendered_tokens)

module _ {F : Type 0} ⦃py : Host F⦄ (payload : Fields F) (s t : Findings F) where
  pub take_receipt-Keeps : take_receipt payload s ≡ ok t → Keeps s t
  unfolding take_receipt
  take_receipt-Keeps done = ground arith

  pub on_information-Keeps : on_information payload s ≡ ok t → Keeps s t
  unfolding on_information
  on_information-Keeps done = ground arith

  pub on_plan-Keeps : on_plan payload s ≡ ok t → Keeps s t
  unfolding on_plan
  on_plan-Keeps done = ground arith

  pub on_crm-Keeps : on_crm payload s ≡ ok t → Keeps s t
  unfolding on_crm
  on_crm-Keeps done = ground arith

  pub on_closure-Keeps : (event : Fields F) → on_closure event payload s ≡ ok t → Keeps s t
  unfolding on_closure
  on_closure-Keeps event done = ground arith

  pub on_prepared-Keeps : (event : Fields F) → on_prepared event payload s ≡ ok t → Keeps s t
  unfolding on_prepared
  on_prepared-Keeps event done = ground arith

module _ {F : Type 0} ⦃py : Host F⦄ where
  pub on_provider-Keeps :
      (payload : Fields F) (s t : Findings F) → on_provider payload s ≡ ok t → Keeps s t
  unfolding on_provider
  on_provider-Keeps payload s t done = grind (arith, take_receipt-Keeps)

  pub on_execution-Keeps :
      (payload : Fields F) (s t : Findings F) → on_execution payload s ≡ ok t → Keeps s t
  unfolding on_execution
  on_execution-Keeps payload s t done =
      let (attempt, _, named) = >>=-eq-ok (need "attempt" payload) _ done in
      let (attempt_id, _, run) = >>=-eq-ok (id_at "attempt_id" attempt) _ named in
      let (execution_id, _, taken) = >>=-eq-ok (id_at "execution_id" attempt) _ run in
      let (u, received, rest) = >>=-eq-ok (take_receipt payload _) _ taken in
      let kept = take_receipt-Keeps payload _ u received in ground (arith, kept, rest)
