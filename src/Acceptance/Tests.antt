-- ===== src/Acceptance/Tests.antt =====
-- The tests of the validators, as equations: `if v != s` does not hold exactly when `v` is `s`.
use customs_buyer_intelligen.Prelude.{
  String, Bool, true, false, not, ◌≡◌, refl, ap, eq_iff, eq_refl, arith, ◌==◌,
}
use customs_buyer_intelligen.Python.{
  Value, null, bool, int, float, str, arr, obj, Host, ℤ, pos, negsuc, eqb_ℤ, equals_str,
  equals_str-eq, is_bool,
}

pub holds_of : {b : Bool} → not b ≡ false → b ≡ true
holds_of {b} h = ground arith

pub of_holds : {b : Bool} → b ≡ true → not b ≡ false
of_holds h = rw h refl

pub same_of : {s t : String} → not (s == t) ≡ false → s ≡ t
same_of {s} {t} h = (eq_iff s t).0 (holds_of h)

pub of_same : {s t : String} → s ≡ t → not (s == t) ≡ false
of_same {s} {t} h = of_holds ((eq_iff s t).1 h)

eqb_ℤ-eq : (m n : ℤ) → eqb_ℤ m n ≡ true → m ≡ n
unfolding eqb_ℤ
eqb_ℤ-eq (pos m) (pos n) h = ap pos (ground (arith, h))
eqb_ℤ-eq (pos m) (negsuc n) h = cc
eqb_ℤ-eq (negsuc m) (pos n) h = cc
eqb_ℤ-eq (negsuc m) (negsuc n) h = ap negsuc (ground (arith, h))

eqb_ℤ_refl : (n : ℤ) → eqb_ℤ n n ≡ true
unfolding eqb_ℤ
eqb_ℤ_refl (pos n) = ground arith
eqb_ℤ_refl (negsuc n) = ground arith

pub number_of : {m n : ℤ} → not (eqb_ℤ m n) ≡ false → m ≡ n
number_of {m} {n} h = eqb_ℤ-eq m n (holds_of h)

pub of_number : {m n : ℤ} → m ≡ n → not (eqb_ℤ m n) ≡ false
of_number {m} {n} h = of_holds (rw h (eqb_ℤ_refl n))

module _ {F : Type 0} ⦃py : Host F⦄ where
  pub str_of : {v : Value F} {s : String} → not (equals_str v s) ≡ false → v ≡ str s
  str_of {v} {s} h = equals_str-eq v s (holds_of h)

  pub of_str : {v : Value F} {s : String} → v ≡ str s → not (equals_str v s) ≡ false
  unfolding equals_str
  of_str {v} {s} h = rw (h, eq_refl s) refl

  is_bool-eq : (v : Value F) (b : Bool) → is_bool v b ≡ true → v ≡ bool b
  unfolding is_bool
  is_bool-eq (bool true) true h = refl
  is_bool-eq (bool true) false h = cc
  is_bool-eq (bool false) true h = cc
  is_bool-eq (bool false) false h = refl
  is_bool-eq null b h = cc
  is_bool-eq (int n) b h = cc
  is_bool-eq (float x) b h = cc
  is_bool-eq (str s) b h = cc
  is_bool-eq (arr vs) b h = cc
  is_bool-eq (obj fs) b h = cc

  is_bool_of : (v : Value F) (b : Bool) → v ≡ bool b → is_bool v b ≡ true
  unfolding is_bool
  is_bool_of v true h = rw h refl
  is_bool_of v false h = rw h refl

  pub bool_of : {v : Value F} {b : Bool} → not (is_bool v b) ≡ false → v ≡ bool b
  bool_of {v} {b} h = is_bool-eq v b (holds_of h)

  pub of_bool : {v : Value F} {b : Bool} → v ≡ bool b → not (is_bool v b) ≡ false
  of_bool {v} {b} h = of_holds (is_bool_of v b h)
