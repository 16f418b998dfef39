-- ===== src/Examples/Texts.antt =====
-- The check on Unicode at a concrete value, with a normal form that knows one character: the sign
-- for Angstrom, U+212B, becomes U+00C5.
use customs_buyer_intelligen.Prelude.{ℕ, List, [], ◌∷◌, map, eqb, ◌≡◌, refl, arith, if◌then◌else◌}
use customs_buyer_intelligen.Chain.{Text, ok, err, invalid}
use customs_buyer_intelligen.Runtime.Unicode.{
  Raw, scalar, text, list, dict, no_items, more_items, no_entries, more_entries, key, index, member,
  Issue, nfc_normalized, Forms, is_surrogate, accept,
}
use customs_buyer_intelligen.Runtime.Scalars.{IsScalar, Normalizes, IsClean}
use customs_buyer_intelligen.Runtime.Accepting.{accept-IsClean}

abbrev composed : ℕ → ℕ
composed c = if eqb c 8491 then 197 else c

abbrev forms : Forms
forms = record { nfc = map composed; sha256 = λ t. t }

composed_stable : (t : Text) → map composed (map composed t) ≡ map composed t
composed_stable [] = refl
composed_stable (c ∷ cs) = cong_cons (one_stable c) (composed_stable cs)
  where
    one_stable : (n : ℕ) → composed (composed n) ≡ composed n
    one_stable n = ground arith

    cong_cons : {a b : ℕ} {xs ys : Text} → a ≡ b → xs ≡ ys → a ∷ xs ≡ b ∷ ys
    cong_cons p q = cc

composed-IsScalar : (t : Text) → IsScalar t → IsScalar (map composed t)
unfolding is_surrogate
composed-IsScalar [] h = tt
composed-IsScalar (c ∷ cs) h = (ground (arith, h.0), composed-IsScalar cs h.1)

forms-Normalizes : Normalizes forms
forms-Normalizes = record { nfc_stable = composed_stable; nfc_scalar = composed-IsScalar }

abbrev given : Raw ℕ
given = dict (
    more_entries (8491 ∷ [])
      (list (more_items (text (65 ∷ 8491 ∷ [])) (more_items (scalar 7) no_items))) no_entries)

abbrev cleaned : Raw ℕ
cleaned = dict (
    more_entries (197 ∷ [])
      (list (more_items (text (65 ∷ 197 ∷ [])) (more_items (scalar 7) no_items))) no_entries)

abbrev reported : List Issue
reported =
    nfc_normalized (key ∷ []) (8491 ∷ []) (197 ∷ [])
    ∷ nfc_normalized (index 0 ∷ member (197 ∷ []) ∷ []) (65 ∷ 8491 ∷ []) (65 ∷ 197 ∷ [])
    ∷ []

given_accepted : accept forms given ≡ ok (cleaned, reported)
unfolding accept
given_accepted = refl

surrogate_refused :
    accept {S = ℕ} forms (text (65 ∷ 55296 ∷ [])) ≡ err (invalid "INVALID_UNICODE_SURROGATE")
unfolding accept
surrogate_refused = refl

accept-IsClean_example : IsClean forms cleaned × (accept forms cleaned ≡ ok (cleaned, []))
accept-IsClean_example = accept-IsClean forms forms-Normalizes given cleaned reported given_accepted
