-- ===== src/Journal/Loading.antt =====
-- A receipt that was queued is loaded again, and answered for with its own envelope.
use customs_buyer_intelligen.Prelude.{
  String, true, false, List, [], ◌∷◌, none, some, ◌==◌, ◌≡◌, refl, eq_refl, Bool-cases, inl, inr,
}
use customs_buyer_intelligen.Python.{bool, str, obj, Fields, Host, set_field}
use customs_buyer_intelligen.Chain.{Text, ok, universal, need, as_object, Codec}
use customs_buyer_intelligen.Chain.Log.{EventLog}
use customs_buyer_intelligen.Journal.Files.{Store, path_of, add_file, file_at, comes_first}
use customs_buyer_intelligen.Journal.Defs.{Row, file_text, new_envelope, load}
use customs_buyer_intelligen.Journal.Queue.{queue_again}
use customs_buyer_intelligen.Journal.Queueing.{kept_envelope, parsed-loads, has_hash}

pub file_at-add_file :
    (name : String) (text : Text) (files : List (String × Text))
    → file_at name files ≡ none
    → file_at name (add_file name text files) ≡ some text
unfolding add_file
file_at-add_file name text [] h = rw (eq_refl name) refl
file_at-add_file name text ((n, t) ∷ files) h = elim (Bool-cases (n == name)) [
  | inl same ↦ cc (rw same at h)
  | inr other ↦ elim (Bool-cases (comes_first n name)) [
    | inl first ↦ rw (first, other) (file_at-add_file name text files (rw other at h))
    | inr later ↦ rw (later, eq_refl name) refl
  ]
]

module _ {F L : Type 0} ⦃py : Host F⦄ (codec : Codec F) (log : EventLog F L) where
  -- The reply for a row with the request, once it is loaded.
  abbrev pub answered : String → Fields F → Fields F
  answered name envelope = set_field "path" (str name) (
      set_field "deduplicated" (bool true)
        (set_field "queued" (bool false) (set_field "status" (str "PENDING") envelope)))

  module _ (id tool investigation_id now name : String) (payload : Fields F) (store : Store L) where
    abbrev envelope : Fields F
    envelope = kept_envelope codec id tool investigation_id now payload

    load-kept :
        path_of id ≡ ok name
        → file_at name store.files ≡ some (file_text codec (obj envelope))
        → codec.loads (universal false (file_text codec (obj envelope))) ≡ some (obj envelope)
        → load codec id store ≡ ok envelope
    unfolding load as_object need new_envelope
    load-kept valid there loads =
        rw
          (
            valid,
            there,
            parsed-loads codec id tool investigation_id now payload _
                (file_text codec (obj envelope)) (obj envelope) loads,
            has_hash codec id tool investigation_id now payload,
            load,
          )
          refl

    pub queue_again-kept :
        (row : Row F)
        → row.journal_id ≡ id
        → row.path ≡ name
        → row.status ≡ str "PENDING"
        → path_of id ≡ ok name
        → file_at name store.files ≡ some (file_text codec (obj envelope))
        → codec.loads (universal false (file_text codec (obj envelope))) ≡ some (obj envelope)
        → queue_again codec log row store ≡ ok (answered name envelope)
    unfolding queue_again
    queue_again-kept row own at_name pending valid there loads =
        rw (own, at_name, pending, load-kept valid there loads, queue_again) refl
