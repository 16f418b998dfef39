-- ===== src/Journal/Bounds.antt =====
-- `sync` as its callers see it: the limit, the outcomes, and the dry run.
use customs_buyer_intelligen.Prelude.{
  ℕ, zero, suc, ◌≤◌, String, Bool, true, ◌||◌, List, [], ◌∷◌, map, length, take, ltb, Option, ◌≡◌,
  refl, ap, inl, inr, Bool-cases, arith,
}
use customs_buyer_intelligen.Python.{Value, Host, ℤ, pos, negsuc}
use customs_buyer_intelligen.Chain.{ok, Codec, Result-cases}
use customs_buyer_intelligen.Chain.Log.{EventLog}
use customs_buyer_intelligen.Journal.Files.{Store}
use customs_buyer_intelligen.Journal.Defs.{Row, entries}
use customs_buyer_intelligen.Journal.Sync.{
  Texts, Handler, Run, Report, sync_rows, selected, rows_for, open_rows, sync_within, sync,
  report_of,
}
use customs_buyer_intelligen.Journal.Syncing.{
  ended, sync_rows-ended, sync_rows-journal_ids, Progress-cases,
}

length-take : {A : Type 0} (n : ℕ) (xs : List A) → length (take n xs) ≤ n
length-take zero [] = omega arith
length-take (suc n) [] = omega arith
length-take zero (x ∷ xs) = omega arith
length-take (suc n) (x ∷ xs) = omega (arith, length-take n xs)

ok_injective : {A : Type 0} {a b : A} → ok a ≡ ok b → a ≡ b
ok_injective h = cc

length-map : {A B : Type 0} (f : A → B) (xs : List A) → length (map f xs) ≡ length xs
length-map f [] = refl
length-map f (x ∷ xs) = ap (λ n. suc n) (length-map f xs)

module _ {F L W : Type 0} ⦃py : Host F⦄ (codec : Codec F) (log : EventLog F L) (texts : Texts)
    (clock : String → String) (handlers : String → Option (Handler F W))
    (equivalent : Value F → Value F → W → Bool) where
  sync_within-dry_run :
      (investigation_id : String) (limit : ℕ) (store : Store L) (world : W)
      → ((sync_within codec log texts clock handlers equivalent true investigation_id limit store
            world).0.store
          ≡ store)
        × ((sync_within codec log texts clock handlers equivalent true investigation_id limit store
              world).0.world
            ≡ world)
  unfolding sync_within ended
  sync_within-dry_run investigation_id limit store world =
      let start : Run F L W = record { store = store; world = world; outcomes = [] } in
      elim (Result-cases (entries codec log store)) [
        | inr (x, p) ↦ rw (p, sync_within) (refl, refl)
        | inl (rows, p) ↦
            let same =
              sync_rows-ended codec log texts clock handlers equivalent
                (selected investigation_id limit rows) start in
            elim (Progress-cases (
              sync_rows codec log texts clock handlers equivalent true
                (selected investigation_id limit rows) start)) [
                  | inl (after, r) ↦ rw (p, r, sync_within) (rw (r, ended) at same)
                  | inr (after, x, r) ↦ rw (p, r, sync_within) (rw (r, ended) at same)
                ]
      ]

  -- A dry run leaves the journal, with its log, and the runtime's other state as they were, whatever
  -- it returns.
  pub sync-dry_run :
      (investigation_id : String) (limit : ℤ) (store : Store L) (world : W)
      → ((sync codec log texts clock handlers equivalent true investigation_id limit store
            world).0.store
          ≡ store)
        × ((sync codec log texts clock handlers equivalent true investigation_id limit store
              world).0.world
            ≡ world)
  unfolding sync
  sync-dry_run investigation_id (negsuc n) store world = (refl, refl)
  sync-dry_run investigation_id (pos limit) store world =
      elim (Bool-cases (ltb limit 1 || ltb 1000 limit)) [
        | inl p ↦ rw p (refl, refl)
        | inr p ↦ rw p (sync_within-dry_run investigation_id limit store world)
      ]

  module _ (dry_run : Bool) where
    sync_within-outcomes :
        (investigation_id : String) (limit : ℕ) (store : Store L) (world : W) (run : Run F L W)
        (report : Report F)
        → sync_within codec log texts clock handlers equivalent dry_run investigation_id limit store
            world
          ≡ (run, ok report)
        → (rows : List (Row F)) × (entries codec log store ≡ ok rows)
          × (map (λ o. o.journal_id) report.outcomes
              ≡ map (λ row. row.journal_id) (selected investigation_id limit rows))
          × (report.processed ≡ length report.outcomes)
    unfolding sync_within report_of
    sync_within-outcomes investigation_id limit store world run report h =
        let start : Run F L W = record { store = store; world = world; outcomes = [] } in
        elim (Result-cases (entries codec log store)) [
          | inr (x, p) ↦ let no = rw (p, sync_within) at h in cc
          | inl (rows, p) ↦
              elim (Progress-cases (
                sync_rows codec log texts clock handlers equivalent dry_run
                  (selected investigation_id limit rows) start)) [
                    | inr (after, x, r) ↦ let no = rw (p, r, sync_within) at h in cc
                    | inl (after, r) ↦
                        let made = ok_injective (ap (λ x. x.1) (rw (p, r, sync_within) at h)) in
                        (
                          rows,
                          p,
                          rw (← made) (
                              sync_rows-journal_ids codec log texts clock handlers equivalent
                                dry_run (selected investigation_id limit rows) start after r),
                          rw (← made) refl,
                        )
                  ]
        ]

    within :
        (investigation_id : String) (limit : ℕ) (rows : List (Row F)) (report : Report F)
        → map (λ o. o.journal_id) report.outcomes
          ≡ map (λ row. row.journal_id) (selected investigation_id limit rows)
        → report.processed ≡ length report.outcomes
        → report.processed ≤ limit
    unfolding selected
    within investigation_id limit rows report ids counted = omega (
      arith,
      counted,
      ap (λ xs. length xs) ids,
      length-map (λ o. o.journal_id) report.outcomes,
      length-map (λ row. row.journal_id) (selected investigation_id limit rows),
      length-take limit (rows_for investigation_id (open_rows rows)),
    )

    -- Where `sync` returns a report, the limit is from 1 to 1000, and the outcomes are one for each
    -- selected row, in their order, and `processed` counts them and is at most the limit.
    pub sync-outcomes :
        (investigation_id : String) (limit : ℕ) (store : Store L) (world : W) (run : Run F L W)
        (report : Report F)
        → sync codec log texts clock handlers equivalent dry_run investigation_id
            (pos limit)
            store
            world
          ≡ (run, ok report)
        → (rows : List (Row F)) × (entries codec log store ≡ ok rows)
          × (map (λ o. o.journal_id) report.outcomes
              ≡ map (λ row. row.journal_id) (selected investigation_id limit rows))
          × (report.processed ≡ length report.outcomes)
          × (report.processed ≤ limit)
          × (1 ≤ limit)
          × (limit ≤ 1000)
    unfolding sync
    sync-outcomes investigation_id limit store world run report h =
        elim (Bool-cases (ltb limit 1 || ltb 1000 limit)) [
          | inl p ↦ let no = rw p at h in cc
          | inr p ↦
              let (rows, q, ids, counted) =
                sync_within-outcomes investigation_id limit store world run report (rw p at h) in
              (
                rows,
                q,
                ids,
                counted,
                within investigation_id limit rows report ids counted,
                ground (arith, p),
                ground (arith, p),
              )
        ]
