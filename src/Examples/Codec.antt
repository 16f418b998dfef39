-- ===== src/Examples/Codec.antt =====
-- A codec over natural numbers for floats, and the proof that it round-trips.
use Prim.Native.String.{[], ◌∷◌}
use Prim.Native.Char.{code}
use customs_buyer_intelligen.Prelude.{
  ℕ, zero, suc, ◌+◌, ◌*◌, ◌%◌, ◌≤◌, ◌≡◌, refl, List, ◌++◌, true, false, String, Option, none, some,
  length, length-append, eqb, if◌then◌else◌, arith, append_assoc, append-nil,
}
use customs_buyer_intelligen.Python.{
  pos, negsuc, Value, null, bool, int, float, str, arr, obj, Items, nil, cons, Fields, end, field,
  Host, caseless, show_int,
}
use customs_buyer_intelligen.Chain.{Text, Codec, RoundTrips}
use customs_buyer_intelligen.Examples.Scalar.{char_of, char_of-code}

-- Floats that are natural numbers.
instance abbrev pub naturals : Host ℕ
naturals = record {
  tables = caseless;
  is_zero = λ n. eqb n 0;
  float_eq_int = λ n z. elim z [ pos m ↦ eqb n m | negsuc _ ↦ false ];
  repr = λ v. "<value>";
  int_of = λ v. none;
}

infixr 67 ◌▹◌
abbrev ◌▹◌ : ℕ → Text → Text
n ▹ t = List.◌∷◌ n t

abbrev stop : Text
stop = 0 ▹ List.[]

unfoldable pub print_str : String → Text
print_str [] = stop
print_str (c ∷ s) = 1 ▹ code c ▹ print_str s

unfoldable mutual
  unfolding print_str

  pub print : Value ℕ → Text
  print null = 201 ▹ List.[]
  print (bool true) = 202 ▹ List.[]
  print (bool false) = 203 ▹ List.[]
  print (int (pos n)) = 204 ▹ n ▹ List.[]
  print (int (negsuc n)) = 205 ▹ n ▹ List.[]
  print (float n) = 206 ▹ n ▹ List.[]
  print (str s) = 207 ▹ print_str s
  print (arr vs) = 208 ▹ print_items vs
  print (obj fs) = 209 ▹ print_fields fs

  pub print_items : Items ℕ → Text
  print_items nil = stop
  print_items (cons v vs) = 1 ▹ (print v ++ print_items vs)

  pub print_fields : Fields ℕ → Text
  print_fields end = stop
  print_fields (field k v fs) = 1 ▹ (print_str k ++ (print v ++ print_fields fs))

unfoldable pub parse_str : Text → Option (String × Text)
unfolding char_of
parse_str (List.◌∷◌ zero t) = some ([], t)
parse_str (List.◌∷◌ (suc _) (List.◌∷◌ c t)) = elim (parse_str t) [
  | none ↦ none
  | some (s, r) ↦ some (char_of c ∷ s, r)
]
parse_str _ = none

abbrev and_then : {A B : Type 0} → Option (A × Text) → (A → Text → Option B) → Option B
and_then none k = none
and_then (some (a, r)) k = k a r

abbrev next : Text → Option (ℕ × Text)
next List.[] = none
next (List.◌∷◌ n r) = some (n, r)

-- The value that begins a text, with what is left of it; the fuel bounds the depth and the width.
unfoldable mutual
  unfolding parse_str

  pub parse : ℕ → Text → Option (Value ℕ × Text)
  parse zero t = none
  parse (suc f) List.[] = none
  parse (suc f) (List.◌∷◌ t r) =
      let the_items = and_then (parse_items f r) (λ vs q. some (arr vs, q)) in
      let the_fields = and_then (parse_fields f r) (λ fs q. some (obj fs, q)) in
      if eqb t 201
      then some (null, r)
      else if eqb t 202
      then some (bool true, r)
      else if eqb t 203
      then some (bool false, r)
      else if eqb t 204
      then and_then (next r) (λ n q. some (int (pos n), q))
      else if eqb t 205
      then and_then (next r) (λ n q. some (int (negsuc n), q))
      else if eqb t 206
      then and_then (next r) (λ n q. some (float n, q))
      else if eqb t 207
      then and_then (parse_str r) (λ s q. some (str s, q))
      else if eqb t 208
      then the_items
      else if eqb t 209
      then the_fields
      else none

  pub parse_items : ℕ → Text → Option (Items ℕ × Text)
  parse_items zero t = none
  parse_items (suc f) List.[] = none
  parse_items (suc f) (List.◌∷◌ zero r) = some (nil, r)
  parse_items (suc f) (List.◌∷◌ (suc _) r) =
      and_then (parse f r) (λ v q. and_then (parse_items f q) (λ vs q'. some (cons v vs, q')))

  pub parse_fields : ℕ → Text → Option (Fields ℕ × Text)
  parse_fields zero t = none
  parse_fields (suc f) List.[] = none
  parse_fields (suc f) (List.◌∷◌ zero r) = some (end, r)
  parse_fields (suc f) (List.◌∷◌ (suc _) r) = and_then (parse_str r) (λ k q.
      and_then (parse f q)
        (λ v q'. and_then (parse_fields f q') (λ fs q''. some (field k v fs, q''))))

unfoldable mutual
  pub size : Value ℕ → ℕ
  size (arr vs) = suc (size_items vs)
  size (obj fs) = suc (size_fields fs)
  size _ = 1

  pub size_items : Items ℕ → ℕ
  size_items nil = 1
  size_items (cons v vs) = suc (size v + size_items vs)

  pub size_fields : Fields ℕ → ℕ
  size_fields end = 1
  size_fields (field k v fs) = suc (size v + size_fields fs)

mutual
  unfolding print size

  size-le : (v : Value ℕ) → size v ≤ length (print v)
  size-le (arr vs) = omega (arith, size_items-le vs)
  size-le (obj fs) = omega (arith, size_fields-le fs)
  size-le null = omega arith
  size-le (bool true) = omega arith
  size-le (bool false) = omega arith
  size-le (int (pos n)) = omega arith
  size-le (int (negsuc n)) = omega arith
  size-le (float n) = omega arith
  size-le (str s) = omega arith

  size_items-le : (vs : Items ℕ) → size_items vs ≤ length (print_items vs)
  size_items-le nil = omega arith
  size_items-le (cons v vs) =
      omega (arith, size-le v, size_items-le vs, length-append (print v) (print_items vs))

  size_fields-le : (fs : Fields ℕ) → size_fields fs ≤ length (print_fields fs)
  size_fields-le end = omega arith
  size_fields-le (field k v fs) = omega (
    arith,
    size-le v,
    size_fields-le fs,
    length-append (print v) (print_fields fs),
    length-append (print_str k) (print v ++ print_fields fs),
  )

parse_str-print_str : (s : String) (r : Text) → parse_str (print_str s ++ r) ≡ some (s, r)
unfolding parse_str print_str
parse_str-print_str [] r = refl
parse_str-print_str (c ∷ s) r = rw (parse_str-print_str s r, char_of-code c)

size-pos : (v : Value ℕ) → 1 ≤ size v
unfolding size
size-pos (arr vs) = omega arith
size-pos (obj fs) = omega arith
size-pos _ = omega arith

mutual
  unfolding print parse size

  parse-print : (v : Value ℕ) (f : ℕ) (r : Text) → size v ≤ f → parse f (print v ++ r) ≡ some (v, r)
  parse-print null zero r h = absurd (omega arith)
  parse-print v zero r h = absurd (omega (arith, size-pos v))
  parse-print null (suc f) r h = refl
  parse-print (bool true) (suc f) r h = refl
  parse-print (bool false) (suc f) r h = refl
  parse-print (int (pos n)) (suc f) r h = refl
  parse-print (int (negsuc n)) (suc f) r h = refl
  parse-print (float n) (suc f) r h = refl
  parse-print (str s) (suc f) r h = rw (parse_str-print_str s r)
  parse-print (arr vs) (suc f) r h = rw (parse_items-print vs f r (omega arith))
  parse-print (obj fs) (suc f) r h = rw (parse_fields-print fs f r (omega arith))

  parse_items-print :
      (vs : Items ℕ) (f : ℕ) (r : Text)
      → size_items vs ≤ f
      → parse_items f (print_items vs ++ r) ≡ some (vs, r)
  parse_items-print nil zero r h = absurd (omega arith)
  parse_items-print (cons v vs) zero r h = absurd (omega arith)
  parse_items-print nil (suc f) r h = refl
  parse_items-print (cons v vs) (suc f) r h = rw (
    append_assoc (print v) (print_items vs) r,
    parse-print v f (print_items vs ++ r) (omega arith),
    parse_items-print vs f r (omega arith),
  )

  parse_fields-print :
      (fs : Fields ℕ) (f : ℕ) (r : Text)
      → size_fields fs ≤ f
      → parse_fields f (print_fields fs ++ r) ≡ some (fs, r)
  parse_fields-print end zero r h = absurd (omega arith)
  parse_fields-print (field k v fs) zero r h = absurd (omega arith)
  parse_fields-print end (suc f) r h = refl
  parse_fields-print (field k v fs) (suc f) r h = rw (
    append_assoc (print_str k) (print v ++ print_fields fs) r,
    parse_str-print_str k ((print v ++ print_fields fs) ++ r),
    append_assoc (print v) (print_fields fs) r,
    parse-print v f (print_fields fs ++ r) (omega arith),
    parse_fields-print fs f r (omega arith),
  )

-- The whole text is one value, with a newline after it or none.
abbrev whole : Option (Value ℕ × Text) → Option (Value ℕ)
whole none = none
whole (some (v, List.[])) = some v
whole (some (v, List.◌∷◌ n List.[])) = if eqb n 10 then some v else none
whole (some (v, List.◌∷◌ _ (List.◌∷◌ _ _))) = none

unfoldable pub load : Text → Option (Value ℕ)
unfolding parse
load t = whole (parse (length t) t)

load-print : (v : Value ℕ) → load (print v) ≡ some v
unfolding load
load-print v = rw (rw append-nil at (parse-print v (length (print v)) List.[] (size-le v)))

-- A polynomial of the code points in place of SHA-256.
unfoldable pub weigh : Text → ℕ
weigh List.[] = 7
weigh (List.◌∷◌ c t) = (weigh t * 31 + c) % 1000000007

unfoldable pub checksum : Text → String
unfolding weigh show_int
checksum t = show_int (pos (weigh t % 10000))

abbrev pub codec : Codec ℕ
codec = record { loads = load; dumps = print; sha256 = checksum }

pub codec-RoundTrips : RoundTrips codec
codec-RoundTrips = record { loads-dumps = load-print }
