-- ===== src/Chain/Lines.antt =====
-- Text files as the readers of unified_runtime/resilience.py and core.py see them: code points,
-- `read_text` with universal newlines, and `str.splitlines`.
use customs_buyer_intelligen.Prelude.{
  ℕ, Bool, true, false, ◌&&◌, ◌||◌, List, [], ◌∷◌, ◌++◌, All, leb, eqb, if◌then◌else◌, ◌≡◌, refl,
  arith, append_assoc,
}

abbrev pub Text : Type 0
Text = List ℕ

-- `read_text`: CR LF and a lone CR are read as LF. The flag says that a CR was just read.
unfoldable pub universal : Bool → Text → Text
universal after [] = []
universal after (c ∷ cs) =
    let rest = universal (eqb c 13) cs in
    if eqb c 13 then 10 ∷ rest else if after && eqb c 10 then rest else c ∷ rest

-- The characters at which `str.splitlines` breaks a line.
unfoldable pub is_break : ℕ → Bool
is_break c =
    (leb 10 c && leb c 13) || (leb 28 c && leb c 30) || eqb c 133 || eqb c 8232 || eqb c 8233

abbrev into_first : ℕ → List Text → List Text
into_first c [] = (c ∷ []) ∷ []
into_first c (l ∷ ls) = (c ∷ l) ∷ ls

-- `str.splitlines` of a text with no CR: a last line with no break counts, an empty one does not.
unfoldable pub splitlines : Text → List Text
splitlines [] = []
splitlines (c ∷ cs) =
    let rest = splitlines cs in if is_break c then [] ∷ rest else into_first c rest

unfoldable pub read_lines : Text → List Text
unfolding universal splitlines
read_lines text = splitlines (universal false text)

-- What `write(line + "\n")` for each line leaves in the file.
abbrev pub unlines : List Text → Text
unlines [] = []
unlines (l ∷ ls) = l ++ (10 ∷ unlines ls)

-- No character of the line breaks it.
abbrev pub IsPlain : Text → Type 0
IsPlain = All (λ c. is_break c ≡ false)

pub unlines-append :
    (ls : List Text) (l : Text) → unlines (ls ++ l ∷ []) ≡ unlines ls ++ (l ++ (10 ∷ []))
unlines-append [] l = refl
unlines-append (k ∷ ls) l = simp (unlines-append ls l, append_assoc)

no_cr : (c : ℕ) → is_break c ≡ false → eqb c 13 ≡ false
unfolding is_break
no_cr c h = ground arith

-- No CR stands in the text.
abbrev pub HasNoCr : Text → Type 0
HasNoCr = All (λ c. eqb c 13 ≡ false)

pub IsPlain-HasNoCr : (l : Text) → IsPlain l → HasNoCr l
IsPlain-HasNoCr [] h = tt
IsPlain-HasNoCr (c ∷ l) h = (no_cr c h.0, IsPlain-HasNoCr l h.1)

universal-append :
    (l rest : Text) → HasNoCr l → universal false (l ++ rest) ≡ l ++ universal false rest
unfolding universal
universal-append [] rest h = refl
universal-append (c ∷ l) rest h = rw (h.0, universal-append l rest h.1)

universal-line :
    (l rest : Text)
    → HasNoCr l
    → universal false (l ++ (10 ∷ rest)) ≡ l ++ (10 ∷ universal false rest)
unfolding universal
universal-line l rest h = rw (universal-append l (10 ∷ rest) h)

splitlines-break :
    (l : Text) (c : ℕ) (rest : Text)
    → IsPlain l
    → is_break c ≡ true
    → splitlines (l ++ (c ∷ rest)) ≡ l ∷ splitlines rest
unfolding splitlines
splitlines-break [] c rest h k = rw k
splitlines-break (d ∷ l) c rest h k = rw (h.0, splitlines-break l c rest h.1 k)

splitlines-line : (l rest : Text) → IsPlain l → splitlines (l ++ (10 ∷ rest)) ≡ l ∷ splitlines rest
unfolding is_break
splitlines-line l rest h = splitlines-break l 10 rest h refl

universal-unlines : (ls : List Text) → All HasNoCr ls → universal false (unlines ls) ≡ unlines ls
unfolding universal
universal-unlines [] h = refl
universal-unlines (l ∷ ls) h = rw (universal-line l (unlines ls) h.0, universal-unlines ls h.1)

All-HasNoCr : (ls : List Text) → All IsPlain ls → All HasNoCr ls
All-HasNoCr [] h = tt
All-HasNoCr (l ∷ ls) h = (IsPlain-HasNoCr l h.0, All-HasNoCr ls h.1)

splitlines-unlines : (ls : List Text) → All IsPlain ls → splitlines (unlines ls) ≡ ls
unfolding splitlines
splitlines-unlines [] h = refl
splitlines-unlines (l ∷ ls) h = rw (splitlines-line l (unlines ls) h.0, splitlines-unlines ls h.1)

-- Plain lines, each written with a newline, are read back as they were.
pub read_lines-unlines : (ls : List Text) → All IsPlain ls → read_lines (unlines ls) ≡ ls
unfolding read_lines
read_lines-unlines ls h = rw (universal-unlines ls (All-HasNoCr ls h)) (splitlines-unlines ls h)

pub All-append {ℓ κ} :
    {A : Type ℓ} (P : A → Type κ) (xs ys : List A) → All P xs → All P ys → All P (xs ++ ys)
All-append P [] ys h k = k
All-append P (x ∷ xs) ys h k = (h.0, All-append P xs ys h.1 k)

splitlines-broken :
    (ls : List Text) (a : Text) (c : ℕ) (b : Text)
    → All IsPlain ls
    → IsPlain a
    → is_break c ≡ true
    → IsPlain b
    → splitlines (unlines (ls ++ (a ++ (c ∷ b)) ∷ [])) ≡ ls ++ a ∷ b ∷ []
unfolding splitlines
splitlines-broken [] a c b h p q t = rw (
  append_assoc a (c ∷ b) (10 ∷ []),
  splitlines-break a c (b ++ (10 ∷ [])) p q,
  splitlines-line b [] t,
)
splitlines-broken (l ∷ ls) a c b h p q t = rw (
  splitlines-line l (unlines (ls ++ (a ++ (c ∷ b)) ∷ [])) h.0,
  splitlines-broken ls a c b h.1 p q t,
)

-- A line with a break inside is read back as two.
pub read_lines-broken :
    (ls : List Text) (a : Text) (c : ℕ) (b : Text)
    → All IsPlain ls
    → IsPlain a
    → is_break c ≡ true
    → HasNoCr (c ∷ b)
    → IsPlain b
    → read_lines (unlines (ls ++ (a ++ (c ∷ b)) ∷ [])) ≡ ls ++ a ∷ b ∷ []
unfolding read_lines
read_lines-broken ls a c b h p q r t =
    rw (universal-unlines (ls ++ (a ++ (c ∷ b)) ∷ []) no_crs) (splitlines-broken ls a c b h p q t)
  where
    no_crs : All HasNoCr (ls ++ (a ++ (c ∷ b)) ∷ [])
    no_crs =
        All-append HasNoCr ls _ (All-HasNoCr ls h)
          (All-append (λ d. eqb d 13 ≡ false) a (c ∷ b) (IsPlain-HasNoCr a p) r, tt)
