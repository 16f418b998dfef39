-- ===== src/Gates/Exhaustion.antt =====
-- When the search for contacts is over (contact_exhaustion.py).
use customs_buyer_intelligen.Prelude.{
  Bool, true, false, List, [], ◌∷◌, All, ◌≡◌, refl, ◌↔◌, ◌⊎◌, inl, inr, Bool-cases, ap,
}
use customs_buyer_intelligen.Python.{Value, Fields, Host, get, ok, ◌>>=◌, >>=-eq-ok}
use customs_buyer_intelligen.Gates.Values.{listed}
use customs_buyer_intelligen.Gates.Contact.{
  is_terminal, all_terminal, has_named_route, has_company_route, receipts_exhausted,
  exhaustion_complete,
}

ok_injective : {a b : Bool} → ok a ≡ ok b → a ≡ b
ok_injective h = cc

module _ {F : Type 0} ⦃py : Host F⦄ where
  all_terminal_iff :
      (rs : List (Value F)) → (all_terminal rs ≡ true) ↔ All (λ r. is_terminal r ≡ true) rs
  unfolding all_terminal
  all_terminal_iff [] = (λ _. tt, λ _. refl)
  all_terminal_iff (r ∷ rs) = elim (Bool-cases (is_terminal r)) [
    | inl p ↦ rw p (λ h. (refl, (all_terminal_iff rs).0 h), λ h. (all_terminal_iff rs).1 h.1)
    | inr p ↦ (λ h. cc (rw p at h), λ h. cc (p, h.0))
  ]

  -- There are receipts, and each has a terminal result.
  abbrev pub IsExhausted : Fields F → Type 0
  IsExhausted plan =
      (r : Value F) × (rs : List (Value F)) × (listed
          (get "applicable_material_source_receipts" plan)
        ≡ ok (r ∷ rs))
      × All (λ v. is_terminal v ≡ true) (r ∷ rs)

  receipts_exhausted-IsExhausted :
      (plan : Fields F) (rs : List (Value F))
      → listed (get "applicable_material_source_receipts" plan) ≡ ok rs
      → receipts_exhausted rs ≡ true
      → IsExhausted plan
  unfolding receipts_exhausted
  receipts_exhausted-IsExhausted plan [] h k = cc
  receipts_exhausted-IsExhausted plan (r ∷ rs) h k = (r, rs, h, (all_terminal_iff (r ∷ rs)).0 k)

  receipts_exhausted_of :
      (plan : Fields F)
      → IsExhausted plan
      → (listed (get "applicable_material_source_receipts" plan) >>= λ rs.
          ok (receipts_exhausted rs))
        ≡ ok true
  unfolding receipts_exhausted
  receipts_exhausted_of plan (r, rs, h, k) = rw h (ap ok ((all_terminal_iff (r ∷ rs)).1 k))

  of_receipts :
      (plan : Fields F)
      → (listed (get "applicable_material_source_receipts" plan) >>= λ rs.
          ok (receipts_exhausted rs))
        ≡ ok true
      → IsExhausted plan
  of_receipts plan h =
      let (rs, there, done) =
        >>=-eq-ok (listed (get "applicable_material_source_receipts" plan)) _ h in
      receipts_exhausted-IsExhausted plan rs there (ok_injective done)

  back :
      (plan : Fields F)
      → (false ≡ true) ⊎ (false ≡ true) ⊎ IsExhausted plan
      → (listed (get "applicable_material_source_receipts" plan) >>= λ rs.
          ok (receipts_exhausted rs))
        ≡ ok true
  back plan (inl h) = cc
  back plan (inr (inl h)) = cc
  back plan (inr (inr h)) = receipts_exhausted_of plan h

  -- The search is over exactly when a named route is ready, or the company's, or there are receipts of
  -- the applicable sources and every one of them ended without a route.
  pub exhaustion_complete_iff :
      (plan : Fields F)
      → (exhaustion_complete plan ≡ ok true)
        ↔ ((has_named_route plan ≡ true) ⊎ (has_company_route plan ≡ true) ⊎ IsExhausted plan)
  unfolding exhaustion_complete
  exhaustion_complete_iff plan = elim (Bool-cases (has_named_route plan)) [
    | inl n ↦ rw n (λ _. inl refl, λ _. refl)
    | inr n ↦ elim (Bool-cases (has_company_route plan)) [
      | inl c ↦ rw (n, c) (λ _. inr (inl refl), λ _. refl)
      | inr c ↦ rw (n, c) (λ h. inr (inr (of_receipts plan h)), back plan)
    ]
  ]
