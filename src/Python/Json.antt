-- ===== src/Python/Json.antt =====
-- JSON values as Python holds them, with `dict.get`, truth, `str` and equality with a constant.
-- Floats are a type `F` of finite floats, and their operations an argument.
use Prim.Native.String.{[], ◌∷◌, ◌++◌, char_at}
use customs_buyer_intelligen.Prelude.{
  ℕ, zero, suc, ◌/◌, ◌%◌, String, Bool, true, false, not, List, Option, none, some, eqb, ltb, ◌==◌,
  if◌then◌else◌, ◌≡◌, refl,
}
use customs_buyer_intelligen.Python.Text.{Tables, strip, upper}

-- `negsuc n` is -(n + 1).
pub data ℤ : Type 0 where
  pos : ℕ → ℤ
  negsuc : ℕ → ℤ

unfoldable pub eqb_ℤ : ℤ → ℤ → Bool
eqb_ℤ (pos a) (pos b) = eqb a b
eqb_ℤ (negsuc a) (negsuc b) = eqb a b
eqb_ℤ _ _ = false

mutual
  pub data Value (F : Type 0) : Type 0 where
    null : Value F
    bool : Bool → Value F
    int : ℤ → Value F
    float : F → Value F
    str : String → Value F
    arr : Items F → Value F
    obj : Fields F → Value F

  pub data Items (F : Type 0) : Type 0 where
    nil : Items F
    cons : Value F → Items F → Items F

  pub data Fields (F : Type 0) : Type 0 where
    end : Fields F
    field : String → Value F → Fields F → Fields F

-- What the program uses of the interpreter for values of `F`: `bool(x)`, `x == n`, and `str(x)` of a
-- float, a list or a dict, and `int(x)` of a value that is no integer (`none` where it raises).
pub record Host (F : Type 0) : Type 0 where
  pub tables : Tables
  pub is_zero : F → Bool
  pub float_eq_int : F → ℤ → Bool
  pub repr : Value F → String
  pub int_of : Value F → Option ℤ

unfoldable pub digits : ℕ → ℕ → String
digits zero n = []
digits (suc fuel) n =
    let rest = digits fuel (n / 10) in
    (if ltb n 10 then [] else rest) ++ char_at "0123456789" (n % 10) ∷ []

-- `str(n)` of an integer: n + 1 rounds are more than n has digits.
unfoldable pub show_int : ℤ → String
unfolding digits
show_int (pos n) = digits (suc n) n
show_int (negsuc n) = "-" ++ digits (suc (suc n)) (suc n)

module _ {F : Type 0} where
  -- `d.get(k)` on a dict; a missing key is `none` here, and `None` in the program.
  unfoldable pub find : String → Fields F → Option (Value F)
  find k end = none
  find k (field j v fs) = if j == k then some v else find k fs

  unfoldable pub get : String → Fields F → Value F
  unfolding find
  get k fs = elim (find k fs) [ none ↦ null | some v ↦ v ]

  -- `d.get(k, default)`
  unfoldable pub get_or : String → Value F → Fields F → Value F
  unfolding find
  get_or k default fs = elim (find k fs) [ none ↦ default | some v ↦ v ]

  -- `k in d`
  unfoldable pub has : String → Fields F → Bool
  unfolding find
  has k fs = elim (find k fs) [ none ↦ false | some _ ↦ true ]

  -- `{key: value for key, value in d.items() if key != k}`
  unfoldable pub without : String → Fields F → Fields F
  without k end = end
  without k (field j v fs) = let rest = without k fs in if j == k then rest else field j v rest

  -- `d[k] = v`: in place, or at the end.
  unfoldable pub set_field : String → Value F → Fields F → Fields F
  set_field k v end = field k v end
  set_field k v (field j w fs) =
      let rest = set_field k v fs in if j == k then field k v fs else field j w rest

  unfoldable pub items : Items F → List (Value F)
  items nil = List.[]
  items (cons v vs) = List.◌∷◌ v (items vs)

module _ {F : Type 0} ⦃py : Host F⦄ where
  -- `bool(v)`
  unfoldable pub truthy : Value F → Bool
  truthy null = false
  truthy (bool b) = b
  truthy (int (pos zero)) = false
  truthy (int (pos (suc n))) = true
  truthy (int (negsuc n)) = true
  truthy (float x) = not (py.is_zero x)
  truthy (str s) = not (s == "")
  truthy (arr nil) = false
  truthy (arr (cons v vs)) = true
  truthy (obj end) = false
  truthy (obj (field k v fs)) = true

  -- `str(v)`
  unfoldable pub to_str : Value F → String
  unfolding show_int
  to_str null = "None"
  to_str (bool true) = "True"
  to_str (bool false) = "False"
  to_str (int n) = show_int n
  to_str (str s) = s
  to_str v = py.repr v

  -- `str(v or default)`
  unfoldable pub or_str : String → Value F → String
  unfolding truthy to_str
  or_str default v = if truthy v then to_str v else default

  -- `str(v or "").strip()`
  unfoldable pub stripped : Value F → String
  unfolding or_str strip
  stripped v = strip (or_str "" v)

  -- `str(v or default).strip().upper()`
  unfoldable pub upper_or : String → Value F → String
  unfolding or_str strip upper
  upper_or default v = upper py.tables (strip (or_str default v))

  -- `v or w`
  unfoldable pub or_value : Value F → Value F → Value F
  unfolding truthy
  or_value v w = if truthy v then v else w

  -- `int(v)`
  unfoldable pub to_int : Value F → Option ℤ
  to_int (int n) = some n
  to_int (bool true) = some (pos 1)
  to_int (bool false) = some (pos 0)
  to_int v = py.int_of v

  -- `v == s`
  unfoldable pub equals_str : Value F → String → Bool
  equals_str (str s) t = s == t
  equals_str _ t = false

  -- `v == n`: booleans are integers.
  unfoldable pub equals_int : Value F → ℤ → Bool
  unfolding eqb_ℤ
  equals_int (int m) n = eqb_ℤ m n
  equals_int (bool true) n = eqb_ℤ (pos 1) n
  equals_int (bool false) n = eqb_ℤ (pos 0) n
  equals_int (float x) n = py.float_eq_int x n
  equals_int _ n = false

  unfoldable pub equals_bool : Value F → Bool → Bool
  unfolding equals_int
  equals_bool v true = equals_int v (pos 1)
  equals_bool v false = equals_int v (pos 0)

  -- `v is True`, `v is False`
  unfoldable pub is_bool : Value F → Bool → Bool
  is_bool (bool true) b = b
  is_bool (bool false) b = not b
  is_bool _ b = false

show_runs : show_int (pos 1203) ≡ "1203"
unfolding show_int
show_runs = refl
