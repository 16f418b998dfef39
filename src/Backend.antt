-- ===== src/Backend.antt =====
-- unified_runtime/runtime_durable_backend_v63.py: mutations go to the one backend that was bound, and
-- only while it keeps its contract.
pub mod Binding
use Prim.Native.String
use customs_buyer_intelligen.Prelude.{
  ℕ, String, Bool, true, false, not, List, [], ◌∷◌, Option, none, some, eqb, ◌==◌, if◌then◌else◌,
  when, ◌⊕◌, is_empty,
}
use customs_buyer_intelligen.Python.{
  Value, null, obj, str, Fields, Host, find, to_str, is_bool, get, Outcome, ok, raise,
  runtime_error,
}

-- A backend: its attributes, and its callable ones, which act on the world outside the process.
pub record Backend (F W : Type 0) : Type 0 where
  pub attributes : Fields F
  pub method : String → Option (Fields F → W → W × Outcome (Value F))

-- The objects of the process by their identities. The attribute `_v63_runtime_durable_backend` of
-- the runtime is `none` or such an identity.
abbrev pub Heap : Type 0 → Type 0 → Type 0
Heap F W = ℕ → Backend F W

unfoldable pub join_commas : List String → String
join_commas [] = ""
join_commas (s ∷ []) = s
join_commas (s ∷ t ∷ ss) = String.◌++◌ s (String.◌++◌ "," (join_commas (t ∷ ss)))

module _ {F W : Type 0} where
  unfoldable pub is_callable : Backend F W → String → Bool
  is_callable b name = elim (b.method name) [ none ↦ false | some _ ↦ true ]

module _ {F W : Type 0} ⦃py : Host F⦄ where
  -- `str(getattr(backend, name, ""))`
  unfoldable pub text_attribute : Backend F W → String → String
  unfolding find to_str
  text_attribute b name = elim (find name b.attributes) [ none ↦ "" | some v ↦ to_str v ]

  unfoldable pub missing_methods : Backend F W → List String → List String
  unfolding is_callable
  missing_methods b [] = []
  missing_methods b (name ∷ names) =
      when (not (is_callable b name)) (String.◌++◌ "MISSING_BACKEND_METHOD:" name)
      ⊕ missing_methods b names

  -- `_backend_contract_errors`
  unfoldable pub contract_errors : Backend F W → List String
  unfolding text_attribute get is_bool missing_methods
  contract_errors b =
      when (not (text_attribute b "backend_schema" == "cbi.v63-production-durable-backend.v1"))
        "BACKEND_SCHEMA_MISMATCH"
      ⊕ when (not (text_attribute b "binding_strategy" == "EXISTING_PRODUCTION_APPEND_ONLY_STORE"))
          "BINDING_STRATEGY_MISMATCH"
      ⊕ when (not (is_bool (get "parallel_state_store_allowed" b.attributes) false))
          "PARALLEL_STATE_STORE_NOT_FORBIDDEN"
      ⊕ when (not (is_bool (get "requires_existing_mutation_correlation" b.attributes) true))
          "EXISTING_MUTATION_CORRELATION_NOT_REQUIRED"
      ⊕ when (not (is_bool (get "raw_idempotency_key_persisted" b.attributes) false))
          "RAW_IDEMPOTENCY_KEY_PERSISTENCE_NOT_FORBIDDEN"
      ⊕ when (not (is_bool (get "side_effect_reexecution_allowed" b.attributes) false))
          "SIDE_EFFECT_REEXECUTION_NOT_FORBIDDEN"
      ⊕ missing_methods b (
          "append_candidate_discovery" ∷ "create_product_opportunity" ∷ "promote_opportunity_anchor"
          ∷ [])

  -- The status of `get_v63_runtime_durable_backend_state`.
  unfoldable pub status_of : Heap F W → Option ℕ → String
  status_of heap none = "UNBOUND_FAIL_CLOSED"
  status_of heap (some ref) =
      if is_empty (contract_errors (heap ref))
      then "BOUND_EXISTING_DURABLE_STORE"
      else "INVALID_BINDING_FAIL_CLOSED"

  -- `bind_v63_runtime_durable_backend`: what the runtime is bound to afterwards, and the status.
  unfoldable pub bind : Heap F W → Option ℕ → ℕ → Option ℕ × Outcome String
  unfolding join_commas status_of
  bind heap existing ref =
      let rejected = runtime_error (
        String.◌++◌ "V63_DURABLE_BACKEND_CONTRACT_REJECTED:"
          (join_commas (contract_errors (heap ref)))) in
      if not (is_empty (contract_errors (heap ref)))
      then (existing, raise rejected)
      else elim existing [
        | none ↦ (some ref, ok (status_of heap (some ref)))
        | some old ↦
            if not (eqb old ref)
            then (some old, raise (runtime_error "V63_DURABLE_BACKEND_ALREADY_BOUND"))
            else (some old, ok (status_of heap (some old)))
      ]

  -- What the handler's result must be.
  unfoldable pub checked : W × Outcome (Value F) → W × Outcome (Fields F)
  checked (w, raise x) = (w, raise x)
  checked (w, ok (obj fs)) = (w, ok fs)
  checked (w, ok _) = (w, raise (runtime_error "V63_DURABLE_BACKEND_INVALID_RESULT"))

  -- `invoke_v63_runtime_durable_backend`: the world afterwards, and the result.
  unfoldable pub invoke : Heap F W → Option ℕ → String → Fields F → W → W × Outcome (Fields F)
  unfolding checked
  invoke heap bound tool arguments w =
      if not (status_of heap bound == "BOUND_EXISTING_DURABLE_STORE")
      then (w, raise (runtime_error "V63_MUTATION_REQUIRES_PRODUCTION_WAL_BINDING"))
      else elim bound [
        | none ↦ (w, raise (runtime_error "V63_MUTATION_REQUIRES_PRODUCTION_WAL_BINDING"))
        | some ref ↦ elim ((heap ref).method tool) [
          | none ↦ (
            w,
            raise (runtime_error "V63_DURABLE_BACKEND_CONTRACT_REJECTED:MISSING_BACKEND_METHOD"),
          )
          | some handler ↦ checked (handler arguments w)
        ]
      ]
