-- ===== src/Wal/Retries.antt =====
-- That a retry recovers what its first attempt would have.
use customs_buyer_intelligen.Prelude.{String, List, ◌≡◌, refl, Option-cases, inl, inr, ◌⊎◌}
use customs_buyer_intelligen.Python.{
  set_field, Value, Fields, Host, without-set_field, without_comm,
}
use customs_buyer_intelligen.Wal.Contract.{binding_of}
use customs_buyer_intelligen.Wal.Recovering.{request_material, wal_request_sha256, recover_prepared}

module _ {F : Type 0} where
  material_of_set :
      (k : String) (v : Value F) (arguments : Fields F)
      → (k ≡ "idempotency_key") ⊎ (k ≡ "expected_state_version")
      → request_material (set_field k v arguments) ≡ request_material arguments
  unfolding request_material
  material_of_set k v arguments (inl key) = rw (← key) (rw (without-set_field k v arguments) refl)
  material_of_set k v arguments (inr version) = rw (← version) (
      rw
        (
          without_comm k "idempotency_key" (set_field k v arguments),
          without-set_field k v arguments,
        )
        (without_comm "idempotency_key" k arguments))

module _ {F : Type 0} ⦃py : Host F⦄ (digest : Value F → String) where
  hash_of_set :
      (tool k : String) (v : Value F) (arguments : Fields F)
      → (k ≡ "idempotency_key") ⊎ (k ≡ "expected_state_version")
      → wal_request_sha256 digest tool (set_field k v arguments)
        ≡ wal_request_sha256 digest tool arguments
  unfolding wal_request_sha256
  hash_of_set tool k v arguments c = rw (material_of_set k v arguments c)

  -- A retry with another idempotency key or another expected state version asks for the same request:
  -- it recovers what the first attempt would have.
  pub recover_prepared_retry :
      (tool k : String) (v : Value F) (arguments : Fields F) (correlation_id : Value F)
      (events : List (Fields F))
      → (k ≡ "idempotency_key") ⊎ (k ≡ "expected_state_version")
      → recover_prepared digest tool (set_field k v arguments) correlation_id events
        ≡ recover_prepared digest tool arguments correlation_id events
  unfolding recover_prepared
  recover_prepared_retry tool k v arguments correlation_id events c =
      elim (Option-cases (binding_of tool)) [
        | inl unknown ↦ rw (unknown, recover_prepared)
        | inr (b, known) ↦ rw (known, recover_prepared) (rw (hash_of_set tool k v arguments c))
      ]
