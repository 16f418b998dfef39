-- ===== src/Production/Mapping.antt =====
-- The recovery mapping that the production gate asks for.
use customs_buyer_intelligen.Prelude.{
  String, Bool, true, false, not, List, [], ◌∷◌, All, is_in, is_empty, ◌≡◌, ◌↔◌, refl, Bool-cases,
  inl, inr, ap, ◌∙◌,
}
use customs_buyer_intelligen.Python.{str, Fields, Host, get, equals_str, ok, >>=-eq-ok}
use customs_buyer_intelligen.Acceptance.Tests.{str_of, of_str}
use customs_buyer_intelligen.Production.Live.{missing_from, dict_at}
use customs_buyer_intelligen.Production.Gate.{
  mutation_tools, recovery_families, compared, key_names, has_other_family, mapping_state,
}
use customs_buyer_intelligen.Production.Tests.{missing_from-All}

module _ {F : Type 0} ⦃py : Host F⦄ where
  -- The tool's entry names the family.
  abbrev pub IsFamily : Fields F → String × String → Type 0
  IsFamily mapping (tool, family) =
      (entry : Fields F) × (dict_at tool mapping ≡ ok entry)
      × (get "recovery_family" entry ≡ str family)

  -- The mapping has the three mutations, nothing else, and the recovery family of each.
  abbrev pub IsMapped : Fields F → Type 0
  IsMapped mapping =
      All (λ tool. is_in tool (key_names mapping) ≡ true)
        ("append_candidate_discovery" ∷ "create_product_opportunity" ∷ "promote_opportunity_anchor"
          ∷ [])
      × All
          (λ name.
            is_in name (
              "append_candidate_discovery" ∷ "create_product_opportunity"
              ∷ "promote_opportunity_anchor" ∷ [])
            ≡ true)
          (key_names mapping)
      × IsFamily mapping ("append_candidate_discovery", "PEER_PIVOT_LIFECYCLE")
      × IsFamily mapping ("create_product_opportunity", "CANONICAL_OPPORTUNITY_CREATE")
      × IsFamily mapping ("promote_opportunity_anchor", "PEER_PIVOT_LIFECYCLE")

  has_other_family-All :
      (families : List (String × String)) (mapping : Fields F)
      → (has_other_family families mapping ≡ ok false) ↔ All (IsFamily mapping) families
  unfolding has_other_family
  has_other_family-All [] mapping = (λ _. tt, λ _. refl)
  has_other_family-All ((tool, family) ∷ families) mapping = (
    λ h.
        let (entry, there, h1) = >>=-eq-ok (dict_at tool mapping) _ h in
        elim (Bool-cases (equals_str (get "recovery_family" entry) family)) [
          | inl same ↦ (
            (entry, there, str_of (holds_of_true same)),
            (has_other_family-All families mapping).0 (rw same at h1),
          )
          | inr other ↦ cc (rw other at h1)
        ],
    λ ((entry, there, same), rest).
        rw (there, of_str same) ((has_other_family-All families mapping).1 rest),
  )
    where
      holds_of_true : {b : Bool} → b ≡ true → not b ≡ false
      holds_of_true h = rw h refl

  pub mapping_state-IsMapped :
      (mapping : Fields F) → (mapping_state mapping ≡ ok (compared false)) ↔ IsMapped mapping
  unfolding mapping_state
  mapping_state-IsMapped mapping =
      let have = missing_from-All (key_names mapping) mutation_tools in
      let known = missing_from-All mutation_tools (key_names mapping) in
      let families = has_other_family-All recovery_families mapping in
      elim (Bool-cases (is_empty (missing_from (key_names mapping) mutation_tools))) [
        | inr some_missing ↦ rw some_missing (λ h. cc, λ m. cc (have.1 m.0, some_missing))
        | inl complete ↦
            elim (Bool-cases (is_empty (missing_from mutation_tools (key_names mapping)))) [
              | inr some_other ↦
                  rw (complete, some_other) (λ h. cc, λ m. cc (known.1 m.1, some_other))
              | inl exactly ↦
                  rw (complete, exactly)
                    (
                      λ h.
                          let (other, made, h1) =
                            >>=-eq-ok (has_other_family recovery_families mapping) _ h in
                          let none_other : other ≡ false = cc h1 in
                          let (a, (b, (c, _))) = families.0 (made ∙ ap ok none_other) in
                          (have.0 complete, known.0 exactly, a, b, c),
                      λ (_, _, a, b, c). rw (families.1 (a, (b, (c, tt)))) refl,
                    )
            ]
      ]
