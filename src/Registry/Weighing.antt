-- ===== src/Registry/Weighing.antt =====
-- The matches of `resolve` are those of the accounts: none is left out, and none is made up.
use customs_buyer_intelligen.Prelude.{
  ℕ, String, List, [], ◌∷◌, ◌++◌, All, eqb, ◌≡◌, true, ◌⊎◌, refl, inl, inr, ap, sym, subst, ◌∙◌,
  Bool-cases, arith,
}
use customs_buyer_intelligen.Python.{Host, ok, >>=-eq-ok}
use customs_buyer_intelligen.Registry.Matching.{
  Unicode, Keys, Match, Entry, match_score, keys_of, matches_of,
}

eqb_zero : (n : ℕ) → eqb n 0 ≡ true → n ≡ 0
eqb_zero n h = ground arith

matches_injective : {a b : List Match} → ok a ≡ ok b → a ≡ b
matches_injective h = cc

module _ {F : Type 0} ⦃py : Host F⦄ (unicode : Unicode) (candidate : Keys)
    (requested : String) where
  -- The match of an account with these keys.
  abbrev pub match_of : Keys → Entry F → Match
  match_of own row = record {
    account_id = row.account_id;
    score = (match_score py.tables candidate own requested row.account_id).0;
    reasons = (match_score py.tables candidate own requested row.account_id).1;
    origin = row.origin;
  }

  -- The account scores nothing, or its match has the property.
  abbrev pub Weighed : (Match → Type 0) → Entry F → Type 0
  Weighed P row =
      (own : Keys) × (keys_of unicode row.account ≡ ok own)
      × (((match_of own row).score ≡ 0) ⊎ P (match_of own row))

  -- The match is that of one of the accounts.
  abbrev pub IsMatchIn : List (Entry F) → Match → Type 0
  IsMatchIn rows m =
      (before : List (Entry F)) × (row : Entry F) × (after : List (Entry F)) × (own : Keys) × (rows
        ≡ before ++ row ∷ after)
      × (keys_of unicode row.account ≡ ok own)
      × (m ≡ match_of own row)

  IsMatchIn-later :
      (row : Entry F) (rows : List (Entry F)) (ms : List Match)
      → All (IsMatchIn rows) ms
      → All (IsMatchIn (row ∷ rows)) ms
  IsMatchIn-later row rows [] h = tt
  IsMatchIn-later row rows (m ∷ ms) ((before, x, after, own, here, read, same), h) = (
    (row ∷ before, x, after, own, ap (λ xs. row ∷ xs) here, read, same),
    IsMatchIn-later row rows ms h,
  )

  pub matches_of-Weighed :
      (P : Match → Type 0) (rows : List (Entry F)) (found : List Match)
      → matches_of unicode candidate requested rows ≡ ok found
      → All P found
      → All (Weighed P) rows × All (IsMatchIn rows) found
  unfolding matches_of
  matches_of-Weighed P [] [] h ps = (tt, tt)
  matches_of-Weighed P [] (x ∷ xs) h ps = cc
  matches_of-Weighed P (row ∷ rows) found h ps =
      let (own, read, h1) = >>=-eq-ok (keys_of unicode row.account) _ h in
      let (rest, later, h2) = >>=-eq-ok (matches_of unicode candidate requested rows) _ h1 in
      elim (Bool-cases (eqb (match_of own row).score 0)) [
        | inl none_scored ↦
            let same : rest ≡ found = matches_injective (rw none_scored at h2) in
            let (weighed, within) = matches_of-Weighed P rows found (later ∙ ap ok same) ps in
            (
              ((own, read, inl (eqb_zero _ none_scored)), weighed),
              IsMatchIn-later row rows found within,
            )
        | inr scored ↦
            let same : match_of own row ∷ rest ≡ found = matches_injective (rw scored at h2) in
            let (p, ps') : P (match_of own row) × All P rest = subst (All P) (sym same) ps in
            let (weighed, within) = matches_of-Weighed P rows rest later ps' in
            (
              ((own, read, inr p), weighed),
              subst (All (IsMatchIn (row ∷ rows))) same
                  (([], row, rows, own, refl, read, refl), IsMatchIn-later row rows rest within),
            )
      ]
