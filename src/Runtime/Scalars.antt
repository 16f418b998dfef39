-- ===== src/Runtime/Scalars.antt =====
-- Clean texts and values: in normal form, without surrogates.
use customs_buyer_intelligen.Prelude.{
  ℕ, true, false, List, [], ◌∷◌, ◌++◌, All, eqb, eqb_refl, ◌≡◌, ◌⊎◌, refl, arith, inl, inr,
  Bool-cases,
}
use customs_buyer_intelligen.Chain.{Text, ok}
use customs_buyer_intelligen.Runtime.Unicode.{
  Raw, RawItems, RawEntries, scalar, text, list, dict, no_items, more_items, no_entries,
  more_entries, Place, Issue, isolated_surrogate, nfc_normalized, Forms, eq_text, is_surrogate,
  count_unit, code_units, is_taken_key, fresh_key, normalized_text, clean_text, has_invalid,
}

-- No code point of the text is a surrogate.
abbrev pub IsScalar : Text → Type 0
IsScalar t = All (λ c. is_surrogate c ≡ false) t

-- What NFC promises: it is its own normal form, and makes no surrogates.
pub record Normalizes (forms : Forms) : Type 0 where
  pub nfc_stable : (t : Text) → forms.nfc (forms.nfc t) ≡ forms.nfc t
  pub nfc_scalar : (t : Text) → IsScalar t → IsScalar (forms.nfc t)

abbrev pub IsCleanText : Forms → Text → Type 0
IsCleanText forms t = IsScalar t × (forms.nfc t ≡ t)

-- Every text in the value is clean, and no dict has a key twice.
abbrev mutual
  pub IsClean : {S : Type 0} → Forms → Raw S → Type 0
  IsClean forms (scalar s) = Unit
  IsClean forms (text t) = IsCleanText forms t
  IsClean forms (list vs) = AreClean forms vs
  IsClean forms (dict es) = HasClean forms [] es

  pub AreClean : {S : Type 0} → Forms → RawItems S → Type 0
  AreClean forms no_items = Unit
  AreClean forms (more_items v vs) = IsClean forms v × AreClean forms vs

  pub HasClean : {S : Type 0} → Forms → List Text → RawEntries S → Type 0
  HasClean forms seen no_entries = Unit
  HasClean forms seen (more_entries k v es) =
      IsCleanText forms k
      × (is_taken_key k seen ≡ false)
      × IsClean forms v
      × HasClean forms (k ∷ seen) es

eq_text-eq : (s t : Text) → eq_text s t ≡ true → s ≡ t
unfolding eq_text
eq_text-eq [] [] h = refl
eq_text-eq [] (b ∷ bs) h = cc
eq_text-eq (a ∷ as') [] h = cc
eq_text-eq (a ∷ as') (b ∷ bs) h =
    let rest = eq_text-eq as' bs (ground (arith, h)) in
    let first : a ≡ b = ground (arith, h) in rw (first, rest) refl

eq_text_refl : (t : Text) → eq_text t t ≡ true
unfolding eq_text
eq_text_refl [] = refl
eq_text_refl (c ∷ cs) = ground (arith, eq_text_refl cs, eqb_refl c)

pub has_invalid-append :
    (xs ys : List Issue)
    → has_invalid (xs ++ ys) ≡ false
    → (has_invalid xs ≡ false) × (has_invalid ys ≡ false)
unfolding has_invalid
has_invalid-append [] ys h = (refl, h)
has_invalid-append (isolated_surrogate path count units ∷ xs) ys h = cc
has_invalid-append (nfc_normalized path before after ∷ xs) ys h = has_invalid-append xs ys h

-- A text has no code units to report exactly where it has no surrogate.
count_unit-more : (c : ℕ) (units : List (ℕ × ℕ)) → (count_unit c units ≡ []) → ⊥
unfolding count_unit
count_unit-more c [] h = cc
count_unit-more c ((d, n) ∷ units) h = elim (Bool-cases (eqb c d)) [
  | inl p ↦ let no = rw (p, count_unit) at h in cc
  | inr p ↦ let no = rw (p, count_unit) at h in cc
]

code_units-nil :
    (t : Text) (units : List (ℕ × ℕ)) → code_units t units ≡ [] → (units ≡ []) × IsScalar t
unfolding code_units
code_units-nil [] units h = (h, tt)
code_units-nil (c ∷ cs) units h = elim (Bool-cases (is_surrogate c)) [
  | inl p ↦ absurd (count_unit-more c units (code_units-nil cs (count_unit c units) (rw p at h)).0)
  | inr p ↦ let (same, rest) = code_units-nil cs units (rw p at h) in (same, (p, rest))
]

code_units-IsScalar : (t : Text) → IsScalar t → code_units t [] ≡ []
unfolding code_units
code_units-IsScalar [] h = refl
code_units-IsScalar (c ∷ cs) h = rw h.0 (code_units-IsScalar cs h.1)

pub fresh_key-eq :
    (k : Text) (seen : List Text) (u : Unit) → fresh_key k seen ≡ ok u → is_taken_key k seen ≡ false
unfolding fresh_key
fresh_key-eq k seen u h = ground (arith, h)

nil_or_cons : {A : Type 0} (xs : List A) → (xs ≡ []) ⊎ ((x : A) × (ys : List A) × (xs ≡ x ∷ ys))
nil_or_cons [] = inl refl
nil_or_cons (x ∷ xs) = inr (x, xs, refl)

module _ (forms : Forms) where
  -- A clean text is left as it is.
  pub IsCleanText-kept :
      (path : List Place) (t : Text) → IsCleanText forms t → clean_text forms path t ≡ (t, [])
  unfolding clean_text normalized_text
  IsCleanText-kept path t (scalars, normal) =
      rw (clean_text, code_units-IsScalar t scalars, normalized_text, normal, eq_text_refl t) refl

  normalized_text-IsCleanText :
      (law : Normalizes forms) (path : List Place) (t : Text)
      → IsScalar t
      → IsCleanText forms (normalized_text forms path t).0
  unfolding normalized_text
  normalized_text-IsCleanText law path t scalars = elim (Bool-cases (eq_text (forms.nfc t) t)) [
    | inl p ↦ rw p (scalars, eq_text-eq (forms.nfc t) t p)
    | inr p ↦ rw p (law.nfc_scalar t scalars, law.nfc_stable t)
  ]

  pub clean_text-IsCleanText :
      (law : Normalizes forms) (path : List Place) (t : Text)
      → has_invalid (clean_text forms path t).1 ≡ false
      → IsCleanText forms (clean_text forms path t).0
  unfolding clean_text has_invalid
  clean_text-IsCleanText law path t h = elim (nil_or_cons (code_units t [])) [
    | inl p ↦ rw (p, clean_text) (normalized_text-IsCleanText law path t (code_units-nil t [] p).1)
    | inr (u, units, p) ↦ let no = rw (p, clean_text) at h in cc
  ]
