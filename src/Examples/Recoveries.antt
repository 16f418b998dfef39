-- ===== src/Examples/Recoveries.antt =====
-- Recoveries of prepared mutations at concrete logs.
use customs_buyer_intelligen.Prelude.{ℕ, String, [], ◌∷◌, ◌≡◌, refl, ◌↔◌, inl, true}
use customs_buyer_intelligen.Python.{
  ok, pos, Value, int, str, Fields, end, field, set_field, stripped,
}
use customs_buyer_intelligen.Wal.{
  Binding, binding_of, create_product_opportunity, validate, wal_request_sha256, recovered,
  is_exact, recover_prepared, from_exact, exact_events, from_single, rebuilt, answer,
}
use customs_buyer_intelligen.Wal.Proofs.{Holds, validate_iff}
use customs_buyer_intelligen.Wal.Exact.{is_other}
use customs_buyer_intelligen.Wal.Outcomes.{Proven, recover_prepared-Proven, recover_prepared_noise}
use customs_buyer_intelligen.Wal.Retries.{recover_prepared_retry}
use customs_buyer_intelligen.Examples.Codec.{naturals}

abbrev sha : String
sha = "0123456789abcdef0123456789abcdef0123456789abcdef0123456789abcdef"

-- One hash for every value.
abbrev same_hash : Value ℕ → String
same_hash v = sha

abbrev arguments : Fields ℕ
arguments = field "account_id" (str "C001") end

abbrev created : Fields ℕ
created = field "event_type" (str "V63_PRODUCT_OPPORTUNITY_CREATED") (
    field "correlation_id" (str "MC-1") (
      field "request_sha256" (str sha) (
        field "result_snapshot" (str "OPP-1")
          (field "result_snapshot_sha256" (str sha) (field "seq" (int (pos 4)) end)))))

abbrev other_event : Fields ℕ
other_event = field "event_type" (str "INFORMATION_RECORDED") end

abbrev tool : String
tool = "create_product_opportunity"

created_is_recovered :
    recover_prepared same_hash tool arguments (str "MC-1") (created ∷ [])
    ≡ ok (
        recovered sha "MC-1" "CORRELATED_V63_PRODUCT_OPPORTUNITY_CREATE_WITH_EXACT_RESULT_SNAPSHOT"
          (pos 4)
          "RETURN_EXACT_STORED_RESULT"
          (str "OPP-1"))
unfolding recover_prepared binding_of stripped from_exact exact_events wal_request_sha256
    from_single validate rebuilt answer
created_is_recovered = refl

recover_prepared-Proven_example :
    (b : Binding) × (e : Fields ℕ) × Proven same_hash tool arguments
      (stripped {F = ℕ} (str "MC-1"))
      (created ∷ [])
      (str "OPP-1")
      b
      e
    × ("MC-1" ≡ stripped {F = ℕ} (str "MC-1"))
    × (sha ≡ wal_request_sha256 same_hash tool arguments)
recover_prepared-Proven_example =
    recover_prepared-Proven same_hash tool arguments (str "MC-1") (created ∷ []) sha "MC-1" _
      (pos 4) _ (str "OPP-1") created_is_recovered

recover_prepared_noise_example :
    recover_prepared same_hash tool arguments (str "MC-1") (created ∷ other_event ∷ [])
    ≡ recover_prepared same_hash tool arguments (str "MC-1") (created ∷ [])
unfolding is_exact binding_of stripped
recover_prepared_noise_example =
    recover_prepared_noise same_hash tool arguments (str "MC-1") create_product_opportunity
      (created ∷ []) (other_event ∷ []) [] refl
      (
        is_other same_hash create_product_opportunity "MC-1"
            (wal_request_sha256 same_hash tool arguments) other_event refl,
        tt,
      )

recover_prepared_retry_example :
    recover_prepared same_hash tool
      (set_field "idempotency_key" (str "k2") arguments)
      (str "MC-1")
      (created ∷ [])
    ≡ recover_prepared same_hash tool arguments (str "MC-1") (created ∷ [])
recover_prepared_retry_example =
    recover_prepared_retry same_hash tool "idempotency_key" (str "k2") arguments (str "MC-1")
      (created ∷ []) (inl refl)

validate_iff_example :
    ((validate create_product_opportunity created).valid ≡ true)
    ↔ Holds create_product_opportunity created
validate_iff_example = validate_iff create_product_opportunity created
