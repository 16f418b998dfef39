-- ===== src/Session/Decoding.antt =====
-- `_read_unlocked` and `_read_valid_prefix_unlocked` on the bytes of a session's file: the one decodes
-- them strictly, the other with `errors="replace"`.
use customs_buyer_intelligen.Prelude.{
  List, Option, none, some, ◌≡◌, ◌⊎◌, refl, inl, inr, subst, sym, Option-cases,
}
use customs_buyer_intelligen.Python.{Fields, Host}
use customs_buyer_intelligen.Chain.{Text, Error, Result, err, other, Codec}
use customs_buyer_intelligen.Session.{read, valid_prefix}
use customs_buyer_intelligen.Session.Prefix.{Tells, valid_prefix-Tells}

-- Python's decoder of UTF-8. Text that decodes strictly has nothing to replace.
pub record Utf8 (B : Type 0) : Type 0 where
  pub strict : B → Option Text
  pub replacing : B → Text
  pub agrees : (b : B) (t : Text) → strict b ≡ some t → replacing b ≡ t

module _ {F B : Type 0} ⦃py : Host F⦄ (codec : Codec F) (utf8 : Utf8 B) where
  -- `_read_unlocked`, on the file's bytes.
  unfoldable pub read_bytes : Option B → Result (List (Fields F))
  unfolding read
  read_bytes none = read codec none
  read_bytes (some b) = elim (utf8.strict b) [
    | none ↦ err (other "UnicodeDecodeError")
    | some text ↦ read codec (some text)
  ]

  -- `_read_valid_prefix_unlocked`, on the file's bytes.
  unfoldable pub valid_prefix_bytes : Option B → Result (List (Fields F) × Option Error)
  unfolding valid_prefix
  valid_prefix_bytes none = valid_prefix codec none
  valid_prefix_bytes (some b) = valid_prefix codec (some (utf8.replacing b))

  -- What the result of `read_valid_prefix` says of the bytes.
  abbrev pub TellsBytes : Option B → Result (List (Fields F) × Option Error) → Type 0
  TellsBytes none r = (read_bytes none ≡ read codec none) × Tells codec none r
  TellsBytes (some b) r =
      ((text : Text) × (utf8.strict b ≡ some text)
        × (read_bytes (some b) ≡ read codec (some text))
        × Tells codec (some text) r)
      ⊎ ((utf8.strict b ≡ none)
          × (read_bytes (some b) ≡ err (other "UnicodeDecodeError"))
          × Tells codec (some (utf8.replacing b)) r)

  -- `read_valid_prefix` against `read`, for a session's file of any bytes whose lines hold JSON values
  -- with a canonical text. Where the bytes are UTF-8 or there is no file: with no error it returns what
  -- `read` does; with an error `read` fails with it, the returned events are read from that many first
  -- lines, and either one line more fails with the error or all lines are read and only the header is
  -- missing; and the exception of a line that is no JSON object leaves both. Where the bytes are not
  -- UTF-8, `read` raises `UnicodeDecodeError`, while `read_valid_prefix` says all this of the text in
  -- which the bad bytes are replaced.
  pub valid_prefix_bytes-TellsBytes : (file : Option B) → TellsBytes file (valid_prefix_bytes file)
  unfolding read_bytes valid_prefix_bytes
  valid_prefix_bytes-TellsBytes none = (refl, valid_prefix-Tells codec none)
  valid_prefix_bytes-TellsBytes (some b) = elim (Option-cases (utf8.strict b)) [
    | inl bad ↦
        inr (bad, rw (bad, read_bytes) refl, valid_prefix-Tells codec (some (utf8.replacing b)))
    | inr (text, good) ↦ inl (
      text,
      good,
      rw (good, read_bytes) refl,
      subst (λ t. Tells codec (some text) (valid_prefix codec (some t)))
          (sym (utf8.agrees b text good)) (valid_prefix-Tells codec (some text)),
    )
  ]
