-- ===== src/Backend/Binding.antt =====
-- A backend is bound once, and no mutation passes a backend that breaks its contract.
use customs_buyer_intelligen.Prelude.{
  ℕ, String, true, List, [], ◌∷◌, Option, none, some, eqb, is_empty, ◌≡◌, ◌≢◌, refl, inl, inr,
  Bool-cases, Option-cases,
}
use customs_buyer_intelligen.Python.{
  Value, null, bool, int, float, str, arr, obj, Fields, Host, Outcome, ok, raise,
}
use customs_buyer_intelligen.Backend.{Heap, contract_errors, status_of, bind, checked, invoke}

-- A caller's call of `bind` or `invoke`, with the objects as they are by then.
pub data Call (F W : Type 0) : Type 0 where
  binds : Heap F W → ℕ → Call F W
  invokes : Heap F W → String → Fields F → Call F W

module _ {F W : Type 0} ⦃py : Host F⦄ where
  -- The runtime's attribute and the world after a call.
  unfoldable pub step : Option ℕ × W → Call F W → Option ℕ × W
  step (bound, w) (binds heap ref) = ((bind heap bound ref).0, w)
  step (bound, w) (invokes heap tool arguments) = (bound, (invoke heap bound tool arguments w).0)

  unfoldable pub run : Option ℕ × W → List (Call F W) → Option ℕ × W
  unfolding step
  run s [] = s
  run s (c ∷ cs) = run (step s c) cs

  bind_of_bound : (heap : Heap F W) (old ref : ℕ) → (bind heap (some old) ref).0 ≡ some old
  unfolding bind
  bind_of_bound heap old ref = elim (Bool-cases (is_empty (contract_errors (heap ref)))) [
    | inl e ↦ elim (Bool-cases (eqb old ref)) [ inl q ↦ rw (e, q) | inr q ↦ rw (e, q) ]
    | inr e ↦ rw e
  ]

  step_of_bound :
      (ref : ℕ) (s : Option ℕ × W) (c : Call F W) → s.0 ≡ some ref → (step s c).0 ≡ some ref
  unfolding step
  step_of_bound ref (bound, w) (binds heap new) h = rw h (bind_of_bound heap ref new)
  step_of_bound ref (bound, w) (invokes heap tool arguments) h = h

  -- Once a backend is bound, no sequence of calls binds another one or none.
  pub run_keeps_binding :
      (ref : ℕ) (s : Option ℕ × W) (calls : List (Call F W))
      → s.0 ≡ some ref
      → (run s calls).0 ≡ some ref
  unfolding run
  run_keeps_binding ref s [] h = h
  run_keeps_binding ref s (c ∷ cs) h = run_keeps_binding ref (step s c) cs (step_of_bound ref s c h)

  checked-world : (r : W × Outcome (Value F)) → (checked r).0 ≡ r.0
  unfolding checked
  checked-world (w, raise x) = refl
  checked-world (w, ok null) = refl
  checked-world (w, ok (bool b)) = refl
  checked-world (w, ok (int n)) = refl
  checked-world (w, ok (float x)) = refl
  checked-world (w, ok (str s)) = refl
  checked-world (w, ok (arr vs)) = refl
  checked-world (w, ok (obj fs)) = refl

  -- A call of a mutation that changed the world went to the bound backend, which kept its whole
  -- contract at that moment and has the tool's method; the world is the one the method left.
  pub invoke_passes :
      (heap : Heap F W) (bound : Option ℕ) (tool : String) (arguments : Fields F) (w : W)
      → (invoke heap bound tool arguments w).0 ≢ w
      → (ref : ℕ) × (handler : Fields F → W → W × Outcome (Value F)) × (bound ≡ some ref)
        × (is_empty (contract_errors (heap ref)) ≡ true)
        × ((heap ref).method tool ≡ some handler)
        × ((invoke heap bound tool arguments w).0 ≡ (handler arguments w).0)
  unfolding invoke status_of
  invoke_passes heap none tool arguments w h = absurd (h refl)
  invoke_passes heap (some ref) tool arguments w h =
      elim (Bool-cases (is_empty (contract_errors (heap ref)))) [
        | inl e ↦ elim (Option-cases ((heap ref).method tool)) [
          | inl gone ↦ absurd (h (rw (e, gone) refl))
          | inr (handler, there) ↦
              (ref, handler, refl, e, there, rw (e, there) (checked-world (handler arguments w)))
        ]
        | inr e ↦ absurd (h (rw e refl))
      ]
