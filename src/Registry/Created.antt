-- ===== src/Registry/Created.antt =====
-- An account that was created is among the entries from then on, and no other entry changes.
use customs_buyer_intelligen.Prelude.{
  inl, inr, Bool-cases, eq_iff, ◌==◌, if◌then◌else◌, ℕ, String, Bool, true, false, List, [], ◌∷◌,
  ◌++◌, Option, some, ◌≡◌, refl, sym, ◌∙◌, eq_refl,
}
use customs_buyer_intelligen.Python.{Value, str, obj, Fields, Host, find, set_field}
use customs_buyer_intelligen.Chain.{Text, ok, >>=-eq-ok, Codec}
use customs_buyer_intelligen.Chain.Log.{EventLog, Appends}
use customs_buyer_intelligen.Registry.Matching.{
  Unicode, keys_of, Entry, Resolved, not_found, ambiguous, matched, resolve,
}
use customs_buyer_intelligen.Registry.Accounts.{
  set_entry, set_defaults, registered, session_accounts, lifted, is_taken, created, creates,
}
use customs_buyer_intelligen.Registry.Creating.{
  accounts, account_payload, plan_account, plan_missing, plan, account_fields, resolve_or_create,
  chosen_id,
}
use customs_buyer_intelligen.Registry.Entries.{
  ok_injective, entry_of, registry_entry, entry_of-set_entry, entry_of-set_defaults,
  entry_of-set_defaults-some, registered-append, note_account-payload,
}

module _ {F : Type 0} where
  creates_injective :
      {id id' : String} {payload payload' : Value F}
      → ok (creates id payload) ≡ ok (creates id' payload')
      → (id ≡ id') × (payload ≡ payload')
  creates_injective h = (cc, cc)

module _ {F L : Type 0} ⦃py : Host F⦄ (codec : Codec F) (log : EventLog F L) (unicode : Unicode)
    (decimal : ℕ → Option ℕ) where
  -- What a planned event holds.
  abbrev Holds : String → Value F → Fields F → Type 0
  Holds id payload account =
      (fs : Fields F) × (obj fs ≡ payload)
      × (find "account_id" fs ≡ some (str id))
      × (find "account" fs ≡ some (obj account))

  account_payload-Holds :
      (id : String) (account : Fields F) (created_at : String) (payload : Value F)
      → account_payload codec log unicode decimal id account created_at ≡ ok payload
      → Holds id payload account
  unfolding account_payload find
  account_payload-Holds id account created_at payload h =
      let (keys, _, made) = >>=-eq-ok (lifted (keys_of unicode account)) _ h in
      (
        account_fields codec log unicode decimal id account keys created_at,
        ok_injective made,
        refl,
        refl,
      )

  transported :
      {a b : String} {v w : Value F} (candidate : Fields F)
      → a ≡ b
      → v ≡ w
      → Holds a v (set_field "account_id" (str a) candidate)
      → Holds b w (set_field "account_id" (str b) candidate)
  transported candidate p q h = rw (p, q) at h

  plan_account-creates :
      (candidate : Fields F) (requested created_at : String) (rows : List (Entry F)) (id : String)
      (payload : Value F)
      → plan_account codec log unicode decimal candidate requested created_at rows
        ≡ ok (creates id payload)
      → (is_taken id rows ≡ false) × Holds id payload (set_field "account_id" (str id) candidate)
  unfolding plan_account
  plan_account-creates candidate requested created_at rows id payload h =
      let chosen = chosen_id codec log unicode decimal requested rows in
      elim (Bool-cases (is_taken chosen rows)) [
        | inl p ↦ let no = rw (p, plan_account) at h in cc
        | inr p ↦
            let (made, q, r) =
              >>=-eq-ok
                (account_payload codec log unicode decimal chosen
                  (set_field "account_id" (str chosen) candidate) created_at)
                _ (rw (p, plan_account) at h) in
            let (same, same_payload) = creates_injective r in
            (
              rw same at p,
              transported candidate same same_payload (
                  account_payload-Holds chosen (set_field "account_id" (str chosen) candidate)
                    created_at made q),
            )
      ]

  plan_missing-creates :
      (create : Bool) (found : Resolved) (candidate : Fields F) (requested created_at : String)
      (rows : List (Entry F)) (id : String) (payload : Value F)
      → plan_missing codec log unicode decimal create found candidate requested created_at rows
        ≡ ok (creates id payload)
      → plan_account codec log unicode decimal candidate requested created_at rows
        ≡ ok (creates id payload)
  unfolding plan_missing
  plan_missing-creates true not_found candidate requested created_at rows id payload h = h
  plan_missing-creates false not_found candidate requested created_at rows id payload h = cc h
  plan_missing-creates create (ambiguous c) candidate requested created_at rows id payload h = cc h
  plan_missing-creates create (matched m c) candidate requested created_at rows id payload h = cc h

  -- A planned creation: what was read, and what is written.
  plan-creates :
      (sessions : List Text) (candidate : Fields F) (requested : String) (create : Bool)
      (created_at : String) (state : L) (id : String) (payload : Value F)
      → plan codec log unicode decimal sessions candidate requested create created_at state
        ≡ ok (creates id payload)
      → (rows : List (Entry F)) × (accounts codec log sessions state ≡ ok rows)
        × (is_taken id rows ≡ false)
        × Holds id payload (set_field "account_id" (str id) candidate)
  unfolding plan
  plan-creates sessions candidate requested create created_at state id payload h =
      let (_, _, h1) = >>=-eq-ok (lifted (resolve unicode candidate requested [])) _ h in
      let (rows, p, h2) = >>=-eq-ok (accounts codec log sessions state) _ h1 in
      let (found, _, h3) = >>=-eq-ok (lifted (resolve unicode candidate requested rows)) _ h2 in
      let (free, holds) =
        plan_account-creates candidate requested created_at rows id payload
          (plan_missing-creates create found candidate requested created_at rows id payload h3) in
      (rows, p, free, holds)

  accounts-read :
      (sessions : List Text) (state : L) (rows : List (Entry F))
      → accounts codec log sessions state ≡ ok rows
      → (events : List (Fields F)) × (log.read state ≡ ok events)
  unfolding accounts
  accounts-read sessions state rows h =
      let (events, p, _) = >>=-eq-ok (log.read state) _ h in (events, p)

  -- The entries after an event that holds an account.
  accounts-Holds :
      (sessions : List Text) (state after : L) (events : List (Fields F)) (e account : Fields F)
      (id : String) (payload : Value F) (rows : List (Entry F)) (seq : Value F)
      → accounts codec log sessions state ≡ ok rows
      → log.read state ≡ ok events
      → log.read after ≡ ok (events ++ e ∷ [])
      → find "payload" e ≡ some payload
      → find "seq" e ≡ some seq
      → Holds id payload account
      → (rows' : List (Entry F)) × (accounts codec log sessions after ≡ ok rows')
        × (entry_of id rows' ≡ some (registry_entry id account))
        × ((other : String) → (id == other) ≡ false → entry_of other rows' ≡ entry_of other rows)
  unfolding accounts
  accounts-Holds sessions state after events e account id payload rows seq h p q k l (fs, m, n, o) =
      let (found_events, p', h1) = >>=-eq-ok (log.read state) _ h in
      let (before, r, h2) = >>=-eq-ok (registered [] found_events) _ h1 in
      let (found, s, h3) = >>=-eq-ok (session_accounts codec sessions) _ h2 in
      let same : set_defaults found before ≡ rows = ok_injective h3 in
      let same_events : found_events ≡ events = ok_injective (sym p' ∙ p) in
      (
        set_defaults found (set_entry (registry_entry id account) before),
        rw
            (
              q,
              registered-append [] before (set_entry (registry_entry id account) before) events e
                  (rw same_events at r)
                  (note_account-payload before e account fs id seq (rw m k) n o l),
              s,
            )
            refl,
        entry_of-set_defaults-some id found (set_entry (registry_entry id account) before)
            (registry_entry id account)
            (rw (entry_of-set_entry id (registry_entry id account) before, eq_refl id) refl),
        λ other differs. rw (← same) (
            entry_of-set_defaults other found (set_entry (registry_entry id account) before) before
              (rw (entry_of-set_entry other (registry_entry id account) before, differs) refl)),
      )

  -- The entry of the new identifier and those of the others, in one equation.
  entry_of_either :
      (id other : String) (rows' rows : List (Entry F)) (e : Entry F)
      → entry_of id rows' ≡ some e
      → ((id == other) ≡ false → entry_of other rows' ≡ entry_of other rows)
      → entry_of other rows' ≡ (if id == other then some e else entry_of other rows)
  entry_of_either id other rows' rows e h k = elim (Bool-cases (id == other)) [
    | inl p ↦ rw (p, ← (eq_iff id other).0 p) h
    | inr p ↦ rw p (k p)
  ]

  -- Where `resolve_or_create` plans to create an account, and its event fits the log, it appends the
  -- event and says so. The identifier was no account's before, not even in another case; afterwards it
  -- is the candidate's, with the identifier in it, and every other identifier's entry is what it was.
  pub resolve_or_create-created :
      (laws : Appends log) (sessions : List Text) (candidate : Fields F) (requested : String)
      (create : Bool) (created_at now : String) (state : L) (id other : String) (payload : Value F)
      → plan codec log unicode decimal sessions candidate requested create created_at state
        ≡ ok (creates id payload)
      → laws.Fits "CANONICAL_ACCOUNT_CREATED" now payload state
      → (after : L) × (rows : List (Entry F)) × (rows' : List (Entry F)) × (resolve_or_create codec
            log unicode decimal sessions candidate requested create created_at now state
          ≡ (after, ok (created id)))
        × (accounts codec log sessions state ≡ ok rows)
        × (is_taken id rows ≡ false)
        × (accounts codec log sessions after ≡ ok rows')
        × (entry_of other rows' ≡ (
            if id == other
            then some (registry_entry id (set_field "account_id" (str id) candidate))
            else entry_of other rows))
  unfolding resolve_or_create
  resolve_or_create-created laws sessions candidate requested create created_at now state id other
        payload h fits =
      let (rows, p, free, holds) =
        plan-creates sessions candidate requested create created_at state id payload h in
      let (events, q) = accounts-read sessions state rows p in
      let (after, e, a, b, _, _, z, seq, w) =
        laws.append-read "CANONICAL_ACCOUNT_CREATED" now payload state events fits q in
      let (rows', r, s, t) =
        accounts-Holds sessions state after events e (set_field "account_id" (str id) candidate) id
          payload rows seq p q b z w holds in
      (
        after,
        rows,
        rows',
        rw (h, a, resolve_or_create) refl,
        p,
        free,
        r,
        entry_of_either id other rows' rows _ s (t other),
      )
