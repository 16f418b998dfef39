-- ===== src/Python/Laws.antt =====
-- Laws of the dict operations and of equality with a text.
use customs_buyer_intelligen.Prelude.{
  String, ◌≡◌, refl, ap, sym, ◌∙◌, true, none, arith, ◌==◌, eq_iff, eq_refl, if◌then◌else◌,
}
use customs_buyer_intelligen.Python.Json.{
  Value, null, str, Fields, end, field, Host, find, get, without, set_field, equals_str,
}

module _ {F : Type 0} where
  pub find-without :
      (k j : String) (fs : Fields F) → find j (without k fs) ≡ (if k == j then none else find j fs)
  unfolding find without
  find-without k j end = ground arith
  find-without k j (field i v fs) =
      ground (arith, find-without k j fs, eq_iff i k, eq_iff i j, eq_iff k j)

  pub without-set_field :
      (k : String) (v : Value F) (fs : Fields F) → without k (set_field k v fs) ≡ without k fs
  unfolding without set_field
  without-set_field k v end = rw (eq_refl k)
  without-set_field k v (field j w fs) =
      ground (arith, without-set_field k v fs, eq_iff j k, eq_refl k)

  pub without_comm :
      (k j : String) (fs : Fields F) → without k (without j fs) ≡ without j (without k fs)
  unfolding without
  without_comm k j end = refl
  without_comm k j (field i v fs) = ground (arith, without_comm k j fs)

  pub get-without :
      (k j : String) (fs : Fields F) → get j (without k fs) ≡ (if k == j then null else get j fs)
  unfolding get
  get-without k j fs = ground (arith, find-without k j fs)

module _ {F : Type 0} ⦃py : Host F⦄ where
  pub equals_str-eq : (v : Value F) (s : String) → equals_str v s ≡ true → v ≡ str s
  unfolding equals_str
  equals_str-eq (str t) s h = ap str ((eq_iff t s).0 h)
  equals_str-eq _ s h = cc

  -- A value equals one text at most.
  pub equals_str_unique :
      (v : Value F) (s t : String) → equals_str v s ≡ true → equals_str v t ≡ true → s ≡ t
  equals_str_unique v s t h k = str-injective (sym (equals_str-eq v s h) ∙ equals_str-eq v t k)
    where
      str-injective : {a b : String} → ◌≡◌ {A = Value F} (str a) (str b) → a ≡ b
      str-injective p = cc
