-- ===== src/Examples/Scalar.antt =====
-- The character with a given code point.
use Prim.Native.Nat.{Ordering, compare}
use Prim.Native.Char.{Char, char, code, nul, IsScalar}
use text.Mathlib.TextEquality.{Char-path}
use customs_buyer_intelligen.Prelude.{ℕ, ◌≡◌, refl}

is_scalar? :
    (n : ℕ) (a b c : Ordering)
    → compare n 55296 ≡ a
    → compare 57343 n ≡ b
    → compare n 1114112 ≡ c
    → Dec (IsScalar n)
is_scalar? n Ordering.lt b c p q r = yes (rw p tt)
is_scalar? n Ordering.eq Ordering.lt Ordering.lt p q r = yes (rw (p, q, r) tt)
is_scalar? n Ordering.eq Ordering.lt _ p q r = no (λ h. rw (p, q, r) at h)
is_scalar? n Ordering.eq _ c p q r = no (λ h. rw (p, q) at h)
is_scalar? n Ordering.gt Ordering.lt Ordering.lt p q r = yes (rw (p, q, r) tt)
is_scalar? n Ordering.gt Ordering.lt _ p q r = no (λ h. rw (p, q, r) at h)
is_scalar? n Ordering.gt _ c p q r = no (λ h. rw (p, q) at h)

dec_scalar : (n : ℕ) → Dec (IsScalar n)
unfolding is_scalar?
dec_scalar n = is_scalar? n (compare n 55296) (compare 57343 n) (compare n 1114112) refl refl refl

abbrev of_dec : (n : ℕ) → Dec (IsScalar n) → Char
of_dec n (yes p) = char n p
of_dec n (no _) = nul

unfoldable pub char_of : ℕ → Char
unfolding dec_scalar
char_of n = of_dec n (dec_scalar n)

code-of_dec : (n : ℕ) (p : IsScalar n) (d : Dec (IsScalar n)) → code (of_dec n d) ≡ n
code-of_dec n p (yes q) = refl
code-of_dec n p (no h) = absurd (h p)

pub char_of-code : (c : Char) → char_of (code c) ≡ c
unfolding char_of
char_of-code (char n p) = Char-path _ _ (code-of_dec n p (dec_scalar n))
