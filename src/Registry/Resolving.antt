-- ===== src/Registry/Resolving.antt =====
-- What a resolution says of the accounts that it weighed.
use customs_buyer_intelligen.Prelude.{
  ℕ, String, Bool, true, false, not, ◌||◌, List, [], ◌∷◌, All, ltb, eqb, ◌≡◌, ◌⊎◌, inl, inr,
  Bool-cases, arith, eq_iff, subst, ap,
}
use customs_buyer_intelligen.Python.{Fields, Host, Tables, casefold, strip, ok, >>=-eq-ok}
use customs_buyer_intelligen.Registry.{
  Unicode, Match, Entry, Resolved, matched, precedes, insert, sorted, with_score, has_other,
  outcome_of, keys_of, matches_of, is_invalid, says_nothing, resolve, Keys,
}
use customs_buyer_intelligen.Registry.Weighing.{IsMatchIn, Weighed, matches_of-Weighed}

neither : (b c : Bool) → not b || c ≡ false → (b ≡ true) × (c ≡ false)
neither b c h = (ground arith, ground arith)

less : (i n : ℕ) → ltb n i ≡ false → eqb i n ≡ false → ltb i n ≡ true
less i n h e = ground arith

matched_injective :
    {m n : Match} {ms ns : List Match} → matched m ms ≡ matched n ns → (m ≡ n) × (ms ≡ ns)
matched_injective h = (cc, cc)

ok_injective : {a b : Resolved} → ok a ≡ ok b → a ≡ b
ok_injective h = cc

module _ (tables : Tables) where
  -- No later match has a higher score than the first.
  abbrev TopFirst : List Match → Type 0
  TopFirst [] = Unit
  TopFirst (m ∷ ms) = All (λ x. ltb m.score x.score ≡ false) (m ∷ ms)

  All-insert :
      (P : Match → Type 0) (m : Match) (ms : List Match)
      → P m
      → All P ms
      → All P (insert tables m ms)
  unfolding insert
  All-insert P m [] p ps = (p, tt)
  All-insert P m (x ∷ xs) p ps = elim (Bool-cases (precedes tables x m)) [
    | inl q ↦ rw q (ps.0, All-insert P m xs p ps.1)
    | inr q ↦ rw q (p, ps)
  ]

  All-insert_inverse :
      (P : Match → Type 0) (m : Match) (ms : List Match)
      → All P (insert tables m ms)
      → P m × All P ms
  unfolding insert
  All-insert_inverse P m [] h = h
  All-insert_inverse P m (x ∷ xs) h = elim (Bool-cases (precedes tables x m)) [
    | inl q ↦
        let (p, ps) : P x × All P (insert tables m xs) = rw q at h in
        let (r, rs) = All-insert_inverse P m xs ps in (r, (p, rs))
    | inr q ↦ rw q at h
  ]

  All-sorted_inverse : (P : Match → Type 0) (ms : List Match) → All P (sorted tables ms) → All P ms
  unfolding sorted
  All-sorted_inverse P [] h = tt
  All-sorted_inverse P (m ∷ ms) h =
      let (p, ps) = All-insert_inverse P m (sorted tables ms) h in (p, All-sorted_inverse P ms ps)

  All-sorted : (P : Match → Type 0) (ms : List Match) → All P ms → All P (sorted tables ms)
  unfolding sorted
  All-sorted P [] h = tt
  All-sorted P (m ∷ ms) h = All-insert P m (sorted tables ms) h.0 (All-sorted P ms h.1)

  ltb_irrefl : (n : ℕ) → ltb n n ≡ false
  ltb_irrefl n = ground arith

  ltb_trans : (i j k : ℕ) → ltb i j ≡ false → ltb j k ≡ false → ltb i k ≡ false
  ltb_trans i j k h l = ground arith

  precedes-score : (x m : Match) → precedes tables x m ≡ true → ltb x.score m.score ≡ false
  unfolding precedes
  precedes-score x m h = ground arith

  follows-score : (x m : Match) → precedes tables x m ≡ false → ltb m.score x.score ≡ false
  unfolding precedes
  follows-score x m h = ground arith

  below :
      (m x : Match) (xs : List Match)
      → ltb m.score x.score ≡ false
      → All (λ y. ltb x.score y.score ≡ false) xs
      → All (λ y. ltb m.score y.score ≡ false) xs
  below m x [] h hs = tt
  below m x (y ∷ ys) h hs = (ltb_trans m.score x.score y.score h hs.0, below m x ys h hs.1)

  insert-TopFirst : (m : Match) (ms : List Match) → TopFirst ms → TopFirst (insert tables m ms)
  unfolding insert
  insert-TopFirst m [] h = (ltb_irrefl m.score, tt)
  insert-TopFirst m (x ∷ xs) h = elim (Bool-cases (precedes tables x m)) [
    | inl q ↦
        rw q (h.0, All-insert (λ y. ltb x.score y.score ≡ false) m xs (precedes-score x m q) h.1)
    | inr q ↦ rw q (ltb_irrefl m.score, below m x (x ∷ xs) (follows-score x m q) h)
  ]

  sorted-TopFirst : (ms : List Match) → TopFirst (sorted tables ms)
  unfolding sorted
  sorted-TopFirst [] = tt
  sorted-TopFirst (m ∷ ms) = insert-TopFirst m (sorted tables ms) (sorted-TopFirst ms)

  -- Scores less than the match, or is the same account.
  abbrev pub Yields : Match → Match → Type 0
  Yields m x =
      (ltb x.score m.score ≡ true) ⊎ (casefold tables m.account_id ≡ casefold tables x.account_id)

  yields :
      (m : Match) (xs : List Match)
      → All (λ x. ltb m.score x.score ≡ false) xs
      → has_other tables m.account_id (with_score m.score xs) ≡ false
      → All (Yields m) xs
  unfolding with_score has_other
  yields m [] h k = tt
  yields m (x ∷ xs) h k = elim (Bool-cases (eqb x.score m.score)) [
    | inl e ↦
        let (same, later) = neither _ _ (rw e at k) in
        (inr ((eq_iff _ _).0 same), yields m xs h.1 later)
    | inr e ↦ (inl (less x.score m.score h.0 e), yields m xs h.1 (rw e at k))
  ]

  -- The first match is the one that is chosen.
  outcome_of-matched :
      (ms : List Match) (m : Match) (candidates : List Match)
      → TopFirst ms
      → outcome_of tables ms ≡ matched m candidates
      → All (Yields m) ms × (xs : List Match) × (ms ≡ m ∷ xs)
  unfolding outcome_of
  outcome_of-matched [] m candidates h k = cc
  outcome_of-matched (x ∷ xs) m candidates h k =
      elim (Bool-cases (has_other tables x.account_id (with_score x.score (x ∷ xs)))) [
        | inl other ↦ cc (rw other at k)
        | inr alone ↦
            let (p, q) = matched_injective (rw alone at k) in
            (
              subst (λ y. All (Yields y) (x ∷ xs)) p (yields x (x ∷ xs) h alone),
              xs,
              ap (λ y. y ∷ xs) p,
            )
      ]

module _ {F : Type 0} ⦃py : Host F⦄ (unicode : Unicode) where
  -- A candidate is matched only to one of the accounts; and every account either scores nothing
  -- against the candidate, or scores less than the one matched, or is the same but for the case of its
  -- identifier. The scores are those of `match_score` on the account's own keys.
  pub resolve-Yields :
      (candidate : Fields F) (requested : String) (rows : List (Entry F)) (m : Match)
      (candidates : List Match)
      → resolve unicode candidate requested rows ≡ ok (matched m candidates)
      → (keys : Keys) × (keys_of unicode candidate ≡ ok keys)
        × IsMatchIn unicode keys (strip requested) rows m
        × All (Weighed unicode keys (strip requested) (Yields py.tables m)) rows
  unfolding resolve
  resolve-Yields candidate requested rows m candidates h =
      elim (Bool-cases (is_invalid (strip requested))) [
        | inl bad ↦ cc (rw bad at h)
        | inr good ↦
            let (keys, read, h1) = >>=-eq-ok (keys_of unicode candidate) _ (rw good at h) in
            elim (Bool-cases (says_nothing (strip requested) keys)) [
              | inl blank ↦ cc (rw blank at h1)
              | inr told ↦
                  let (found, made, h2) =
                    >>=-eq-ok (matches_of unicode keys (strip requested) rows) _ (rw told at h1) in
                  let (yielded, xs, top) =
                    outcome_of-matched py.tables (sorted py.tables found) m candidates
                      (sorted-TopFirst py.tables found) (ok_injective h2) in
                  let (weighed, within) =
                    matches_of-Weighed unicode keys (strip requested) (Yields py.tables m) rows
                      found made (All-sorted_inverse py.tables _ found yielded) in
                  let in_order =
                    All-sorted py.tables (IsMatchIn unicode keys (strip requested) rows) found
                      within in
                  (keys, read, (subst (All _) top in_order).0, weighed)
            ]
      ]
