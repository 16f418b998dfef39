-- ===== src/Runtime/Accepting.antt =====
-- What the check on Unicode accepts, and that it is accepted again as it is.
use customs_buyer_intelligen.Prelude.{
  ℕ, suc, Bool, true, false, List, [], ◌∷◌, ◌++◌, ◌≡◌, refl, subst, ap, ◌∙◌, if◌then◌else◌,
}
use customs_buyer_intelligen.Chain.{Text, ok, err, invalid, ok_injective, >>=-eq-ok}
use customs_buyer_intelligen.Runtime.Unicode.{
  Raw, RawItems, RawEntries, scalar, text, list, dict, no_items, more_items, no_entries,
  more_entries, Place, key, index, member, Issue, Forms, fresh_key, clean_text, sanitize,
  sanitize_items, sanitize_entries, has_invalid, accept,
}
use customs_buyer_intelligen.Runtime.Scalars.{
  Normalizes, IsClean, AreClean, HasClean, has_invalid-append, IsCleanText-kept,
  clean_text-IsCleanText, fresh_key-eq,
}

module _ (forms : Forms) where
  module _ {S : Type 0} where
    -- A clean value is left as it is, without an issue.
    mutual
      unfolding sanitize fresh_key

      clean_kept :
          (path : List Place) (v : Raw S) → IsClean forms v → sanitize forms path v ≡ ok (v, [])
      clean_kept path (scalar s) h = refl
      clean_kept path (text t) h = rw (IsCleanText-kept forms path t h) refl
      clean_kept path (list vs) h = rw (items_kept path 0 vs h) refl
      clean_kept path (dict es) h = rw (entries_kept path [] es h) refl

      items_kept :
          (path : List Place) (n : ℕ) (vs : RawItems S)
          → AreClean forms vs
          → sanitize_items forms path n vs ≡ ok (vs, [])
      items_kept path n no_items h = refl
      items_kept path n (more_items v vs) h =
          rw (clean_kept (index n ∷ path) v h.0, items_kept path (suc n) vs h.1) refl

      entries_kept :
          (path : List Place) (seen : List Text) (es : RawEntries S)
          → HasClean forms seen es
          → sanitize_entries forms path seen es ≡ ok (es, [])
      entries_kept path seen no_entries h = refl
      entries_kept path seen (more_entries k v es) (clean, fresh, value, rest) =
          rw
            (
              IsCleanText-kept forms (key ∷ path) k clean,
              fresh,
              clean_kept (member k ∷ path) v value,
              entries_kept path (k ∷ seen) es rest,
            )
            refl

    -- What comes out without a surrogate reported is clean.
    mutual
      unfolding sanitize fresh_key

      made-IsClean :
          (law : Normalizes forms) (path : List Place) (v w : Raw S) (issues : List Issue)
          → sanitize forms path v ≡ ok (w, issues)
          → has_invalid issues ≡ false
          → IsClean forms w
      made-IsClean law path (scalar s) w issues done valid =
          subst (IsClean forms) (ap (λ r. r.0) (ok_injective done)) tt
      made-IsClean law path (text t) w issues done valid =
          let same = ok_injective done in
          subst (IsClean forms) (ap (λ r. r.0) same)
            (clean_text-IsCleanText forms law path t (ap (λ r. has_invalid r.1) same ∙ valid))
      made-IsClean law path (list vs) w issues done valid =
          let (r, ran, made) = >>=-eq-ok (sanitize_items forms path 0 vs) _ done in
          let same = ok_injective made in
          subst (IsClean forms) (ap (λ x. x.0) same)
            (items_clean law path 0 vs r.0 r.1 ran (ap (λ x. has_invalid x.1) same ∙ valid))
      made-IsClean law path (dict es) w issues done valid =
          let (r, ran, made) = >>=-eq-ok (sanitize_entries forms path [] es) _ done in
          let same = ok_injective made in
          subst (IsClean forms) (ap (λ x. x.0) same)
            (entries_clean law path [] es r.0 r.1 ran (ap (λ x. has_invalid x.1) same ∙ valid))

      items_clean :
          (law : Normalizes forms) (path : List Place) (n : ℕ) (vs ws : RawItems S)
          (issues : List Issue)
          → sanitize_items forms path n vs ≡ ok (ws, issues)
          → has_invalid issues ≡ false
          → AreClean forms ws
      items_clean law path n no_items ws issues done valid =
          subst (AreClean forms) (ap (λ r. r.0) (ok_injective done)) tt
      items_clean law path n (more_items v vs) ws issues done valid =
          let (a, ran, b) = >>=-eq-ok (sanitize forms (index n ∷ path) v) _ done in
          let (c, went, made) = >>=-eq-ok (sanitize_items forms path (suc n) vs) _ b in
          let same = ok_injective made in
          let (here, later) = has_invalid-append a.1 c.1 (ap (λ x. has_invalid x.1) same ∙ valid) in
          subst (AreClean forms) (ap (λ x. x.0) same) (
            made-IsClean law (index n ∷ path) v a.0 a.1 ran here,
            items_clean law path (suc n) vs c.0 c.1 went later,
          )

      entries_clean :
          (law : Normalizes forms) (path : List Place) (seen : List Text) (es fs : RawEntries S)
          (issues : List Issue)
          → sanitize_entries forms path seen es ≡ ok (fs, issues)
          → has_invalid issues ≡ false
          → HasClean forms seen fs
      entries_clean law path seen no_entries fs issues done valid =
          subst (HasClean forms seen) (ap (λ r. r.0) (ok_injective done)) tt
      entries_clean law path seen (more_entries k v es) fs issues done valid =
          let j = (clean_text forms (key ∷ path) k).0 in
          let of_key = (clean_text forms (key ∷ path) k).1 in
          let (unit, checked, a) = >>=-eq-ok (fresh_key j seen) _ done in
          let (b, ran, c) = >>=-eq-ok (sanitize forms (member j ∷ path) v) _ a in
          let (d, went, made) = >>=-eq-ok (sanitize_entries forms path (j ∷ seen) es) _ c in
          let same = ok_injective made in
          let (on_key, rest) =
            has_invalid-append of_key (b.1 ++ d.1) (ap (λ x. has_invalid x.1) same ∙ valid) in
          let (here, later) = has_invalid-append b.1 d.1 rest in
          subst (HasClean forms seen) (ap (λ x. x.0) same) (
            clean_text-IsCleanText forms law (key ∷ path) k on_key,
            fresh_key-eq j seen unit checked,
            made-IsClean law (member j ∷ path) v b.0 b.1 ran here,
            entries_clean law path (j ∷ seen) es d.0 d.1 went later,
          )

-- Where the normal form is its own and makes no surrogates, and a value is accepted: in what the
-- method is given, every text, each key included, is in normal form without a surrogate, and no
-- dict has a key twice; and if that is given again, it is accepted as it is, without an issue.
pub accept-IsClean :
    {S : Type 0} (forms : Forms) (law : Normalizes forms) (v w : Raw S) (issues : List Issue)
    → accept forms v ≡ ok (w, issues)
    → IsClean forms w × (accept forms w ≡ ok (w, []))
unfolding accept has_invalid
accept-IsClean forms law v w issues done =
    let (r, ran, tested) = >>=-eq-ok (sanitize forms [] v) _ done in
    let (valid, same) = tested_valid (has_invalid r.1) r (w, issues) tested in
    let clean =
      subst (IsClean forms) (ap (λ x. x.0) same) (made-IsClean forms law [] v r.0 r.1 ran valid) in
    (clean, rw (clean_kept forms [] w clean) refl)
  where
    tested_valid :
        {A : Type 0} (b : Bool) (x y : A)
        → (if b then err (invalid "INVALID_UNICODE_SURROGATE") else ok x) ≡ ok y
        → (b ≡ false) × (x ≡ y)
    tested_valid true x y h = cc
    tested_valid false x y h = (refl, ok_injective h)
