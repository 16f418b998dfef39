-- ===== src/Acceptance/Covering.antt =====
-- What it takes that no loop raises a blocker: one row for each required scenario, and it is good.
use customs_buyer_intelligen.Prelude.{
  String, Bool, true, not, ◌&&◌, ◌||◌, List, [], ◌∷◌, All, length, is_in, ◌⊕◌, is_empty,
  is_empty-append, is_empty-unless, is_empty-first_of_each, ◌∙◌, sym, raised_by, when, Clear,
  is_empty-raised_by, ◌≡◌, refl, ◌↔◌, inl, inr, Bool-cases, arith, ◌==◌,
}
use customs_buyer_intelligen.Python.{Fields, Host}
use customs_buyer_intelligen.Acceptance.Scenarios.{
  Judge, name_of, named, are_known, are_there, are_single, is_case_set, is_one, judged, all_judged,
  whole_report, report_of,
}

and : {b c : Bool} → b && c ≡ true → (b ≡ true) × (c ≡ true)
and {b} {c} h = (ground arith, ground arith)

module _ {F : Type 0} ⦃py : Host F⦄ (key : String) (judge : Judge F) where
  -- The one row of the scenario, which passed, with nothing against it.
  unfoldable pub IsGood : List (Fields F) → String → Type 0
  IsGood rows name =
      (row : Fields F) × (named key name rows ≡ row ∷ [])
      × (judge.passes row ≡ true)
      × Clear (judge.proofs name row)

  -- Every row with a name has a required one, and every required scenario has one good row.
  unfoldable pub Covers : List String → List (Fields F) → Type 0
  Covers required rows =
      All (λ row. (name_of key row == "" || is_in (name_of key row) required) ≡ true) rows
      × All (IsGood rows) required

  are_known-All :
      (required : List String) (rows : List (Fields F))
      → (are_known key required rows ≡ true)
        ↔ All (λ row. (name_of key row == "" || is_in (name_of key row) required) ≡ true) rows
  unfolding are_known
  are_known-All required [] = (λ _. tt, λ _. refl)
  are_known-All required (row ∷ rows) =
      let rest = are_known-All required rows in
      elim (Bool-cases (name_of key row == "" || is_in (name_of key row) required)) [
        | inl p ↦ rw p (λ h. (refl, rest.0 h), λ h. rest.1 h.1)
        | inr p ↦ (λ h. cc (rw p at h), λ h. cc (p, h.0))
      ]

  judged-IsGood :
      (name : String) (ms : List (Fields F))
      → is_one ms ≡ true
      → is_empty (judged key judge name ms).0 ≡ true
      → (row : Fields F) × (ms ≡ row ∷ [])
        × (judge.passes row ≡ true)
        × Clear (judge.proofs name row)
  unfolding judged
  judged-IsGood name [] h k = cc
  judged-IsGood name (row ∷ []) h k = elim (Bool-cases (judge.passes row)) [
    | inl p ↦ (row, refl, p, (is_empty-raised_by (judge.proofs name row)).0 (rw p at k))
    | inr p ↦ cc (rw p at k)
  ]
  judged-IsGood name (_ ∷ _ ∷ _) h k = cc

  all_judged-IsGood :
      (names : List String) (rows : List (Fields F))
      → are_single key names rows ≡ true
      → is_empty (all_judged key judge names rows).0 ≡ true
      → All (IsGood rows) names
  unfolding are_single all_judged IsGood
  all_judged-IsGood [] rows h k = tt
  all_judged-IsGood (name ∷ names) rows h k =
      let (one, others) = and h in
      let (clear, rest) = (is_empty-append (judged key judge name (named key name rows)).0 _).0 k in
      (judged-IsGood name (named key name rows) one clear, all_judged-IsGood names rows others rest)

  all_judged_of-IsGood :
      (names : List String) (rows : List (Fields F))
      → All (IsGood rows) names
      → (are_there key names rows ≡ true)
        × (are_single key names rows ≡ true)
        × (is_empty (all_judged key judge names rows).0 ≡ true)
        × ((all_judged key judge names rows).1 ≡ length names)
  unfolding are_single are_there all_judged IsGood judged
  all_judged_of-IsGood [] rows h = (refl, refl, refl, refl)
  all_judged_of-IsGood (name ∷ names) rows ((row, p, q, r), h) =
      let (t, s, e, c) = all_judged_of-IsGood names rows h in
      (
        rw (p) t,
        rw (p) s,
        rw (p, q)
            ((is_empty-append (raised_by (judge.proofs name row)) _).1
              ((is_empty-raised_by (judge.proofs name row)).1 r, e)),
        rw (p, q) (omega (arith, c)),
      )

  -- No blocker of the two loops is raised exactly when the required scenarios are covered.
  pub clear-Covers :
      (required : List String) (rows : List (Fields F))
      → ((is_case_set key required rows ≡ true)
          × (is_empty (all_judged key judge required rows).0 ≡ true))
        ↔ Covers required rows
  unfolding is_case_set Covers
  clear-Covers required rows = (
    λ h.
        let (first, single) = and h.0 in
        let (known, there) = and first in
        ((are_known-All required rows).0 known, all_judged-IsGood required rows single h.1),
    λ h.
        let known = (are_known-All required rows).1 h.0 in
        let (there, single, clear, _) = all_judged_of-IsGood required rows h.1 in
        (rw (known, there, single) refl, clear),
  )

  -- Where they are covered, each of them counts.
  pub all_judged-count :
      (required : List String) (rows : List (Fields F))
      → Covers required rows
      → (all_judged key judge required rows).1 ≡ length required
  unfolding Covers
  all_judged-count required rows h = (all_judged_of-IsGood required rows h.1).3

  -- A report is verified exactly when no test holds and the required scenarios are covered.
  pub whole_report-verified :
      (required : List String) (rows : List (Fields F)) (snapshot : String)
      (before : List (Bool × String)) (incomplete : String) (after : List (Bool × String))
      → ((whole_report key judge required rows snapshot before incomplete after).verified ≡ true)
        ↔ (Clear before × Covers required rows × Clear after)
  unfolding whole_report report_of
  whole_report-verified required rows snapshot before incomplete after =
      let loops = (all_judged key judge required rows).0 in
      let tail =
        when (not (is_case_set key required rows)) incomplete ⊕ (loops ⊕ raised_by after) in
      let split = is_empty-append (raised_by before) tail in
      let split' =
        is_empty-append (when (not (is_case_set key required rows)) incomplete)
          (loops ⊕ raised_by after) in
      let split'' = is_empty-append loops (raised_by after) in
      let set = is_empty-unless (is_case_set key required rows) incomplete in
      (
        λ h.
            let (a, bc) = split.0 (sym (is_empty-first_of_each (raised_by before ⊕ tail)) ∙ h) in
            let (b, c) = split'.0 bc in
            let (l, d) = split''.0 c in
            (
              (is_empty-raised_by before).0 a,
              (clear-Covers required rows).0 (set.0 b, l),
              (is_empty-raised_by after).0 d,
            ),
        λ h.
            let (b, l) = (clear-Covers required rows).1 h.1 in
            is_empty-first_of_each (raised_by before ⊕ tail)
            ∙ split.1 (
              (is_empty-raised_by before).1 h.0,
              split'.1 (set.1 b, split''.1 (l, (is_empty-raised_by after).1 h.2)),
            ),
      )

  pub whole_report-count :
      (required : List String) (rows : List (Fields F)) (snapshot : String)
      (before : List (Bool × String)) (incomplete : String) (after : List (Bool × String))
      → (whole_report key judge required rows snapshot before incomplete after).verified ≡ true
      → (whole_report key judge required rows snapshot before incomplete after).passed_count
        ≡ length required
  unfolding whole_report report_of
  whole_report-count required rows snapshot before incomplete after h =
      all_judged-count required rows
        ((whole_report-verified required rows snapshot before incomplete after).0 h).1
