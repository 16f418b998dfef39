-- ===== src/Journal/Syncing.antt =====
-- What a run of `sync` leaves: an outcome for each receipt, and nothing else on a dry run.
use customs_buyer_intelligen.Prelude.{
  String, Bool, true, List, [], ◌∷◌, ◌++◌, map, Option, ◌≡◌, refl, ◌∙◌, ◌⊎◌, inl, inr, Bool-cases,
  Option-cases, append_assoc, append-nil,
}
use customs_buyer_intelligen.Python.{Value, null, str, Fields, Host, get}
use customs_buyer_intelligen.Chain.{Error, Codec, Result-cases}
use customs_buyer_intelligen.Chain.Log.{EventLog}
use customs_buyer_intelligen.Journal.Defs.{Row, load, record_sync}
use customs_buyer_intelligen.Journal.Sync.{
  Texts, Handler, Run, Progress, going, raised, is_validation, handler_of, settle, failed, attempt,
  sync_row, sync_rows,
}

-- Where the loop came to, on or out by an exception.
unfoldable pub ended : {R : Type 0} → Progress R → R
ended (going run) = run
ended (raised run x) = run

-- An outcome for the row comes last.
unfoldable pub Adds : {F L W : Type 0} → Row F → Run F L W → Progress (Run F L W) → Type 0
Adds row run (going after) =
    map (λ o. o.journal_id) after.outcomes
    ≡ map (λ o. o.journal_id) run.outcomes ++ row.journal_id ∷ []
Adds row run (raised after x) = Unit

pub Progress-cases :
    {R : Type 0} (p : Progress R)
    → ((r : R) × (p ≡ going r)) ⊎ ((r : R) × (x : Error) × (p ≡ raised r x))
Progress-cases (going r) = inl (r, refl)
Progress-cases (raised r x) = inr (r, x, refl)

map-snoc :
    {A B : Type 0} (f : A → B) (xs : List A) (x : A) → map f (xs ++ x ∷ []) ≡ map f xs ++ f x ∷ []
map-snoc f [] x = refl
map-snoc f (y ∷ ys) x = rw (map-snoc f ys x) refl

module _ {F L W : Type 0} ⦃py : Host F⦄ (codec : Codec F) (log : EventLog F L) (texts : Texts)
    (clock : String → String) (handlers : String → Option (Handler F W))
    (equivalent : Value F → Value F → W → Bool) where
  sync_row-ended :
      (row : Row F) (run : Run F L W)
      → ((ended (sync_row codec log texts clock handlers equivalent true row run)).store
          ≡ run.store)
        × ((ended (sync_row codec log texts clock handlers equivalent true row run)).world
            ≡ run.world)
  unfolding sync_row ended
  sync_row-ended row run = elim (Result-cases (load codec row.journal_id run.store)) [
    | inl (envelope, p) ↦ rw (p, ended) (refl, refl)
    | inr (x, p) ↦ rw (p, ended) (refl, refl)
  ]

  -- The loop of a dry run.
  pub sync_rows-ended :
      (rows : List (Row F)) (run : Run F L W)
      → ((ended (sync_rows codec log texts clock handlers equivalent true rows run)).store
          ≡ run.store)
        × ((ended (sync_rows codec log texts clock handlers equivalent true rows run)).world
            ≡ run.world)
  unfolding sync_rows ended
  sync_rows-ended [] run = (refl, refl)
  sync_rows-ended (row ∷ rows) run =
      let (s, w) = sync_row-ended row run in
      elim (Progress-cases (sync_row codec log texts clock handlers equivalent true row run)) [
        | inl (after, p) ↦
            let (s', w') = sync_rows-ended rows after in
            rw (p, ended) (s' ∙ (rw (p, ended) at s), w' ∙ (rw (p, ended) at w))
        | inr (after, x, p) ↦ rw (p, ended) (rw (p, ended) at s, rw (p, ended) at w)
      ]

  module _ (dry_run : Bool) where
    settle-Adds :
        (row : Row F) (envelope : Fields F) (status : String) (result : Value F) (error : String)
        (detail : Value F) (run : Run F L W)
        → Adds row run (
            settle codec log texts clock handlers equivalent dry_run row envelope status result
              error detail run)
    unfolding settle Adds
    settle-Adds row envelope status result error detail run =
        elim (Result-cases
          (record_sync codec log envelope status result error (clock row.journal_id) run.store)) [
            | inl (store, p) ↦ rw (p, Adds) (map-snoc (λ o. o.journal_id) run.outcomes _)
            | inr (x, p) ↦ rw (p, Adds) tt
          ]

    failed-Adds :
        (row : Row F) (envelope : Fields F) (x : Error) (run : Run F L W)
        → Adds row run (failed codec log texts clock handlers equivalent dry_run row envelope x run)
    unfolding failed
    failed-Adds row envelope x run = elim (Bool-cases (is_validation x)) [
      | inl p ↦
          elim (Bool-cases
            (equivalent (get "target_tool" envelope) (get "payload" envelope) run.world)) [
              | inl q ↦
                  rw (p, q)
                    (settle-Adds row envelope "DEDUPLICATED" null (texts.message x)
                      (str (texts.message x)) run)
              | inr q ↦
                  rw (p, q)
                    (settle-Adds row envelope "FAILED_VALIDATION" null (texts.message x)
                      (str (texts.message x)) run)
            ]
      | inr p ↦ rw p (
          settle-Adds row envelope "RETRYABLE_FAILURE" null (texts.described x)
            (str (texts.described x)) run)
    ]

    attempt-Adds :
        (row : Row F) (envelope : Fields F) (handler : Handler F W) (run : Run F L W)
        → Adds row run
            (attempt codec log texts clock handlers equivalent dry_run row envelope handler run)
    unfolding attempt Adds
    attempt-Adds row envelope handler run =
        let world = (handler (get "payload" envelope) run.world).0 in
        let handed : Run F L W = record {
          store = run.store;
          world = world;
          outcomes = run.outcomes;
        } in
        elim (Result-cases (handler (get "payload" envelope) run.world).1) [
          | inr (x, p) ↦ rw (p, Adds) (failed-Adds row envelope x handed)
          | inl (result, p) ↦
              let synced = settle-Adds row envelope "SYNCED" result "" result handed in
              elim (Progress-cases (
                settle codec log texts clock handlers equivalent dry_run row envelope "SYNCED"
                  result "" result handed)) [
                    | inl (done, q) ↦ rw (p, q, Adds) (rw (q, Adds) at synced)
                    | inr (after, x, q) ↦ rw (p, q, Adds) (failed-Adds row envelope x handed)
                  ]
        ]

    sync_row-Adds :
        (row : Row F) (run : Run F L W)
        → Adds row run (sync_row codec log texts clock handlers equivalent dry_run row run)
    unfolding sync_row Adds
    sync_row-Adds row run = elim (Result-cases (load codec row.journal_id run.store)) [
      | inr (x, p) ↦ rw (p, Adds) tt
      | inl (envelope, p) ↦ elim (Bool-cases dry_run) [
        | inl q ↦ rw (p, q, Adds) (map-snoc (λ o. o.journal_id) run.outcomes _)
        | inr q ↦ elim (Option-cases (handler_of handlers (get "target_tool" envelope))) [
          | inl none_found ↦
              rw (p, q, none_found, Adds)
                (settle-Adds row envelope "FAILED_VALIDATION" null "handler unavailable"
                  (str "handler unavailable") run)
          | inr (handler, h) ↦ rw (p, q, h, Adds) (attempt-Adds row envelope handler run)
        ]
      ]
    ]

    pub sync_rows-journal_ids :
        (rows : List (Row F)) (run after : Run F L W)
        → sync_rows codec log texts clock handlers equivalent dry_run rows run ≡ going after
        → map (λ o. o.journal_id) after.outcomes
          ≡ map (λ o. o.journal_id) run.outcomes ++ map (λ row. row.journal_id) rows
    unfolding sync_rows Adds
    sync_rows-journal_ids [] run after h = let p : run ≡ after = cc h in rw (← p, append-nil) refl
    sync_rows-journal_ids (row ∷ rows) run after h =
        let adds = sync_row-Adds row run in
        elim (Progress-cases (sync_row codec log texts clock handlers equivalent dry_run row run)) [
          | inr (next, x, p) ↦ let stuck = rw (p, sync_rows) at h in cc
          | inl (next, p) ↦
              let ih = sync_rows-journal_ids rows next after (rw (p, sync_rows) at h) in
              let one = rw (p, Adds) at adds in rw (ih, one, append_assoc) refl
        ]
