-- ===== src/Python/Text.antt =====
-- `str.strip`, `str.upper` and `str.casefold`. White space is Python's own list of characters; case
-- is exact on ASCII, and the tables of the other characters are an argument.
use Prim.Native.Char.{Char, code}
use Prim.Native.Nat.{Ordering}
use Prim.Native.String
use Prim.Native.String.{[], ◌∷◌, ◌++◌}
use customs_buyer_intelligen.Prelude.{
  ℕ, zero, suc, true, false, String, Bool, ◌&&◌, ◌||◌, leb, ltb, eqb, ◌==◌, if◌then◌else◌, ◌≡◌,
  refl, List,
}

-- The characters c with `c.isspace()`.
unfoldable pub is_space : ℕ → Bool
is_space c =
    (leb 9 c && leb c 13)
    || (leb 28 c && leb c 32)
    || eqb c 133
    || eqb c 160
    || eqb c 5760
    || (leb 8192 c && leb c 8202)
    || eqb c 8232
    || eqb c 8233
    || eqb c 8239
    || eqb c 8287
    || eqb c 12288

unfoldable pub lstrip : String → String
unfolding is_space
lstrip [] = []
lstrip (c ∷ s) = let rest = lstrip s in if is_space (code c) then rest else c ∷ s

unfoldable pub rstrip : String → String
unfolding is_space
rstrip [] = []
rstrip (c ∷ s) = let rest = rstrip s in if is_space (code c) && rest == "" then [] else c ∷ rest

unfoldable pub strip : String → String
unfolding lstrip rstrip
strip s = rstrip (lstrip s)

-- The character of the second text at the place where the first has `c`, or `c`.
unfoldable pub translate : String → String → Char → Char
translate [] _ c = c
translate (a ∷ as') [] c = c
translate (a ∷ as') (b ∷ bs) c = if eqb (code a) (code c) then b else translate as' bs c

-- Unicode's tables for the characters from U+0080 on: the text that replaces each.
pub record Tables : Type 0 where
  pub upper_wide : Char → String
  pub lower_wide : Char → String
  pub fold_wide : Char → String

unfoldable pub upper : Tables → String → String
unfolding translate
upper t [] = []
upper t (c ∷ s) =
    (if ltb (code c) 128
      then translate "abcdefghijklmnopqrstuvwxyz" "ABCDEFGHIJKLMNOPQRSTUVWXYZ" c ∷ []
      else t.upper_wide c)
    ++ upper t s

unfoldable pub lower : Tables → String → String
unfolding translate
lower t [] = []
lower t (c ∷ s) =
    (if ltb (code c) 128
      then translate "ABCDEFGHIJKLMNOPQRSTUVWXYZ" "abcdefghijklmnopqrstuvwxyz" c ∷ []
      else t.lower_wide c)
    ++ lower t s

unfoldable pub casefold : Tables → String → String
unfolding translate
casefold t [] = []
casefold t (c ∷ s) =
    (if ltb (code c) 128
      then translate "ABCDEFGHIJKLMNOPQRSTUVWXYZ" "abcdefghijklmnopqrstuvwxyz" c ∷ []
      else t.fold_wide c)
    ++ casefold t s

-- Tables under which the wide characters have no case.
abbrev pub caseless : Tables
caseless = record { upper_wide = λ c. c ∷ []; lower_wide = λ c. c ∷ []; fold_wide = λ c. c ∷ [] }

strip_runs : strip " \ta b\n " ≡ "a b"
unfolding strip
strip_runs = refl

upper_runs : upper caseless "pvc-1é" ≡ "PVC-1é"
unfolding upper
upper_runs = refl

-- So many digits of lower-case hexadecimal.
unfoldable pub is_lower_hex : ℕ → String → Bool
is_lower_hex zero [] = true
is_lower_hex (suc n) (c ∷ s) =
    ((leb 48 (code c) && leb (code c) 57) || (leb 97 (code c) && leb (code c) 102))
    && is_lower_hex n s
is_lower_hex _ _ = false

-- `sorted` of a set of texts: their order is that of the code points.
unfoldable pub insert_text : String → List String → List String
insert_text x List.[] = List.◌∷◌ x List.[]
insert_text x (List.◌∷◌ y ys) = elim (String.compare x y) [
  | Ordering.lt ↦ List.◌∷◌ x (List.◌∷◌ y ys)
  | Ordering.eq ↦ List.◌∷◌ y ys
  | Ordering.gt ↦ List.◌∷◌ y (insert_text x ys)
]

unfoldable pub sorted_texts : List String → List String
unfolding insert_text
sorted_texts List.[] = List.[]
sorted_texts (List.◌∷◌ x xs) = insert_text x (sorted_texts xs)
