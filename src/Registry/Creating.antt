-- ===== src/Registry/Creating.antt =====
-- `entries` and `resolve_or_create`: what a call of the registry writes.
use customs_buyer_intelligen.Prelude.{ℕ, ◌+◌, String, Bool, List, [], Option, ◌==◌, if◌then◌else◌}
use customs_buyer_intelligen.Python.{Value, str, obj, Fields, end, field, Host, set_field, strip}
use customs_buyer_intelligen.Chain.{Text, Result, ok, err, invalid, ◌>>=◌, Codec, digest}
use customs_buyer_intelligen.Chain.Log.{EventLog}
use customs_buyer_intelligen.Registry.Matching.{
  Unicode, Keys, Entry, Resolved, not_found, ambiguous, matched, keys_of, resolve,
}
use customs_buyer_intelligen.Registry.Accounts.{
  set_defaults, registered, session_accounts, highest, numbered_id, keys_value, lifted, is_taken,
  Answer, resolved, created, Plan, answers, creates,
}

module _ {F L : Type 0} ⦃py : Host F⦄ (codec : Codec F) (log : EventLog F L) where
  -- `entries`, of the registry's log and the texts of the sessions' files.
  unfoldable pub accounts : List Text → L → Result (List (Entry F))
  accounts sessions state = do
    events ← log.read state
    rows ← registered [] events
    found ← session_accounts codec sessions
    ok (set_defaults found rows)

  module _ (unicode : Unicode) (decimal : ℕ → Option ℕ) where
    -- The identifier: the one that was asked for, or the next number.
    unfoldable pub chosen_id : String → List (Entry F) → String
    unfolding strip highest numbered_id
    chosen_id requested_account_id rows =
        if strip requested_account_id == ""
        then numbered_id (highest decimal rows + 1)
        else strip requested_account_id

    abbrev pub account_fields : String → Fields F → Keys → String → Fields F
    account_fields account_id account keys created_at = field "account_id" (str account_id) (
        field "account" (obj account) (
          field "identity_keys_sha256" (str (digest codec (keys_value keys)))
            (field "created_at" (str created_at) end)))

    -- The event's payload, for an account with its identifier.
    unfoldable pub account_payload : String → Fields F → String → Result (Value F)
    account_payload account_id account created_at = do
      keys ← lifted (keys_of unicode account)
      ok (obj (account_fields account_id account keys created_at))

    -- The part that comes after a resolution to nothing, up to the append.
    unfoldable pub plan_account : Fields F → String → String → List (Entry F) → Result (Plan F)
    unfolding chosen_id set_field is_taken
    plan_account candidate requested_account_id created_at rows =
        let account_id = chosen_id requested_account_id rows in
        if is_taken account_id rows
        then err (invalid "requested_account_id already belongs to another canonical account")
        else do
          payload ←
              account_payload account_id (set_field "account_id" (str account_id) candidate)
                created_at
          ok (creates account_id payload)

    unfoldable pub plan_missing :
        Bool → Resolved → Fields F → String → String → List (Entry F) → Result (Plan F)
    plan_missing create_if_missing not_found candidate requested_account_id created_at rows =
        let planned = plan_account candidate requested_account_id created_at rows in
        if create_if_missing then planned else ok (answers not_found)
    plan_missing create_if_missing (ambiguous candidates) candidate requested_account_id created_at
          rows =
        ok (answers (ambiguous candidates))
    plan_missing create_if_missing (matched match candidates) candidate requested_account_id
          created_at rows =
        ok (answers (matched match candidates))

    -- Up to the append. The guards of `resolve` are run before `entries` is read: on no rows at all
    -- only they can fail.
    unfoldable pub plan : List Text → Fields F → String → Bool → String → L → Result (Plan F)
    plan sessions candidate requested_account_id create_if_missing created_at state = do
      _ ← lifted (resolve unicode candidate requested_account_id [])
      rows ← accounts sessions state
      found ← lifted (resolve unicode candidate requested_account_id rows)
      plan_missing create_if_missing found candidate requested_account_id created_at rows

    -- `resolve_or_create`: the registry's log afterwards, and the answer. `now` and `created_at` are
    -- what the clock says at the two places.
    unfoldable pub resolve_or_create :
        List Text → Fields F → String → Bool → String → String → L → L × Result Answer
    resolve_or_create sessions candidate requested_account_id create_if_missing created_at now
          state =
        elim (plan sessions candidate requested_account_id create_if_missing created_at state) [
          | err x ↦ (state, err x)
          | ok (answers found) ↦ (state, ok (resolved found))
          | ok (creates account_id payload) ↦
              elim (log.append "CANONICAL_ACCOUNT_CREATED" now payload state) [
                | err x ↦ (state, err x)
                | ok (after, _) ↦ (after, ok (created account_id))
              ]
        ]
