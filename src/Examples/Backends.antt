-- ===== src/Examples/Backends.antt =====
-- A backend that keeps its contract, over a world that counts.
use customs_buyer_intelligen.Prelude.{ℕ, suc, true, false, some, ◌≡◌, ◌≢◌, refl, is_empty, arith}
use customs_buyer_intelligen.Python.{Value, bool, str, obj, Fields, field, end, Outcome, ok}
use customs_buyer_intelligen.Backend.{Backend, Heap, contract_errors, status_of, invoke}
use customs_buyer_intelligen.Backend.Binding.{invoke_passes}
use customs_buyer_intelligen.Examples.Codec.{naturals}

abbrev handler : Fields ℕ → ℕ → ℕ × Outcome (Value ℕ)
handler arguments w = (suc w, ok (obj arguments))

abbrev sound : Backend ℕ ℕ
sound = record {
  attributes = field "backend_schema" (str "cbi.v63-production-durable-backend.v1") (
      field "binding_strategy" (str "EXISTING_PRODUCTION_APPEND_ONLY_STORE") (
        field "parallel_state_store_allowed" (bool false) (
          field "requires_existing_mutation_correlation" (bool true) (
            field "raw_idempotency_key_persisted" (bool false)
              (field "side_effect_reexecution_allowed" (bool false) end)))));
  method = λ name. some handler;
}

abbrev heap : Heap ℕ ℕ
heap ref = sound

moves : (invoke heap (some 7) "create_product_opportunity" end 0).0 ≡ 1
unfolding invoke status_of contract_errors
moves = refl

changes : (invoke heap (some 7) "create_product_opportunity" end 0).0 ≢ 0
changes h = absurd (omega (arith, moves, h))

invoke_passes_example :
    (ref : ℕ) × (method : Fields ℕ → ℕ → ℕ × Outcome (Value ℕ)) × (some 7 ≡ some ref)
    × (is_empty (contract_errors (heap ref)) ≡ true)
    × ((heap ref).method "create_product_opportunity" ≡ some method)
    × ((invoke heap (some 7) "create_product_opportunity" end 0).0 ≡ (method end 0).0)
invoke_passes_example = invoke_passes heap (some 7) "create_product_opportunity" end 0 changes
