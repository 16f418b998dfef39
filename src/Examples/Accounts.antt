-- ===== src/Examples/Accounts.antt =====
-- A candidate with a known tax number, among two accounts of one name.
use customs_buyer_intelligen.Prelude.{ℕ, Option, none, true, false, List, [], ◌∷◌, All, ◌≡◌, refl}
use customs_buyer_intelligen.Python.{
  Value, get, stripped, or_value, obj, set_field, str, Fields, field, end, caseless, ok as returned,
  strip,
}
use customs_buyer_intelligen.Chain.{Text, ok, read, signed, digest}
use customs_buyer_intelligen.Chain.Extending.{next_event}
use customs_buyer_intelligen.Chain.Log.{chain_log, FitsFile, chain_appends}
use customs_buyer_intelligen.Registry.{
  lifted, registered, session_accounts, set_defaults, plan_missing, plan_account, chosen_id,
  numbered_id, highest, account_payload, keys_value, session_account, read_line, Keys, created,
  creates, accounts, account_fields, plan, resolve_or_create, is_taken, precedes, Unicode, Match,
  Entry, matched, resolve, is_invalid, says_nothing, keys_of, matches_of, sorted, outcome_of,
}
use customs_buyer_intelligen.Registry.Weighing.{IsMatchIn, Weighed}
use customs_buyer_intelligen.Registry.Resolving.{Yields, resolve-Yields}
use customs_buyer_intelligen.Registry.Entries.{entry_of}
use customs_buyer_intelligen.Registry.Created.{resolve_or_create-created}
use customs_buyer_intelligen.Examples.Plain.{plain?, plain?_sound}
use customs_buyer_intelligen.Examples.Codec.{
  naturals, codec, codec-RoundTrips, print, load, checksum,
}

-- Texts that are in NFKC and hold letters and digits only.
abbrev plain : Unicode
plain = record { nfkc = λ s. s; is_kept = λ c. true }

abbrev candidate : Fields ℕ
candidate = field "name" (str "Acme") (field "tax_id" (str "T1") end)

abbrev rows : List (Entry ℕ)
rows =
    record {
      account_id = "C002";
      account = field "name" (str "ACME") end;
      origin = "CANONICAL_REGISTRY";
    }
    ∷ record {
      account_id = "C001";
      account = field "tax_id" (str "t1") end;
      origin = "SESSION_HEADER";
    }
    ∷ []

abbrev by_tax : Match
by_tax = record {
  account_id = "C001";
  score = 95;
  reasons = "TAX_ID" ∷ [];
  origin = "SESSION_HEADER";
}

abbrev by_name : Match
by_name = record {
  account_id = "C002";
  score = 85;
  reasons = "NAME_COUNTRY" ∷ [];
  origin = "CANONICAL_REGISTRY";
}

resolve_runs : resolve plain candidate "" rows ≡ returned (matched by_tax (by_tax ∷ by_name ∷ []))
unfolding resolve is_invalid strip keys_of says_nothing matches_of outcome_of sorted precedes
resolve_runs = refl

resolve-Yields_example :
    (keys : Keys) × (keys_of plain candidate ≡ returned keys)
    × IsMatchIn plain keys (strip "") rows by_tax
    × All (Weighed plain keys (strip "") (Yields caseless by_tax)) rows
resolve-Yields_example =
    resolve-Yields plain candidate "" rows by_tax (by_tax ∷ by_name ∷ []) resolve_runs

-- A session that knows one account, and a registry that is empty.
abbrev session_line : Text
session_line = print (
    obj (
      field "payload"
        (obj (
          field "account" (obj (field "account_id" (str "C007") (field "name" (str "Other") end)))
            end))
        end))

abbrev no_decimal : ℕ → Option ℕ
no_decimal c = none

abbrev new_keys : Keys
new_keys = record {
  names = "acme" ∷ [];
  tax_ids = "t1" ∷ [];
  addresses = [];
  external_ids = [];
  countries = [];
}

abbrev new_account : Fields ℕ
new_account = set_field "account_id" (str "C008") candidate

abbrev new_payload : Value ℕ
new_payload = obj (
    account_fields codec (chain_log codec) plain no_decimal "C008" new_account new_keys
      "2026-01-01T00:00:00Z")

planned :
    plan codec
      (chain_log codec)
      plain
      no_decimal
      (session_line ∷ [])
      candidate
      ""
      true
      "2026-01-01T00:00:00Z"
      none
    ≡ ok (creates "C008" new_payload)
unfolding plan lifted resolve is_invalid strip keys_of says_nothing matches_of accounts chain_log
    read registered session_accounts load print set_defaults plan_missing outcome_of sorted precedes
    plan_account chosen_id numbered_id highest is_taken set_field account_payload checksum
    keys_value get stripped or_value session_account read_line
planned = refl

new_payload-FitsFile :
    FitsFile codec "CANONICAL_ACCOUNT_CREATED" "2026-01-01T00:00:00Z" new_payload none
unfolding read plain? print checksum signed keys_value set_field digest
new_payload-FitsFile = (
  [],
  [],
  refl,
  refl,
  plain?_sound
      (print
        (obj (next_event codec [] "CANONICAL_ACCOUNT_CREATED" "2026-01-01T00:00:00Z" new_payload)))
      refl,
)

resolve_or_create-created_example :
    (after : Option Text) × (before : List (Entry ℕ)) × (later : List (Entry ℕ))
    × (resolve_or_create codec
          (chain_log codec)
          plain
          no_decimal
          (session_line ∷ [])
          candidate
          ""
          true
          "2026-01-01T00:00:00Z"
          "2026-01-01T00:00:00Z"
          none
        ≡ (after, ok (created "C008")))
    × (accounts codec (chain_log codec) (session_line ∷ []) none ≡ ok before)
    × (is_taken "C008" before ≡ false)
    × (accounts codec (chain_log codec) (session_line ∷ []) after ≡ ok later)
    × (entry_of "C007" later ≡ entry_of "C007" before)
unfolding chain_appends
resolve_or_create-created_example =
    resolve_or_create-created codec (chain_log codec) plain no_decimal
      (chain_appends codec codec-RoundTrips) (session_line ∷ []) candidate "" true
      "2026-01-01T00:00:00Z" "2026-01-01T00:00:00Z" none "C008" "C007" new_payload planned
      new_payload-FitsFile
