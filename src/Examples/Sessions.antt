-- ===== src/Examples/Sessions.antt =====
-- The session log's theorems at concrete sessions.
use customs_buyer_intelligen.Prelude.{
  ℕ, [], ◌∷◌, ◌++◌, some, ◌≡◌, refl, ◌⊎◌, Bool, true, ltb, ◌&&◌, Option, none, arith, Bool-cases,
  inl, inr, ◌∙◌, if◌then◌else◌,
}
use customs_buyer_intelligen.Python.{null, str, obj, Fields, equals_int}
use customs_buyer_intelligen.Chain.{
  Text, IsPlain, unlines, read_lines, is_break, read_event, ok, err, invalid, zeros,
  unsigned_digest,
}
use customs_buyer_intelligen.Chain.Reading.{end_hash}
use customs_buyer_intelligen.Session.{Row, event, read, append, append_many, append_if_tail}
use customs_buyer_intelligen.Session.Appending.{IsLog, next_event, read_after_append}
use customs_buyer_intelligen.Session.Batch.{one_by_one, append_many-cons}
use customs_buyer_intelligen.Session.Tail.{append_if_tail_race}
use customs_buyer_intelligen.Session.Decoding.{
  Utf8, valid_prefix_bytes, TellsBytes, valid_prefix_bytes-TellsBytes,
}
use customs_buyer_intelligen.Examples.Plain.{plain?, plain?_sound}
use customs_buyer_intelligen.Examples.Codec.{
  codec, codec-RoundTrips, naturals, print, load, checksum,
}
use customs_buyer_intelligen.Examples.Logs.{note}

abbrev started : Row ℕ
started = record {
  now = "2026-01-01T00:00:00Z";
  event_type = "INVESTIGATION_STARTED";
  payload = note;
}

abbrev found : Row ℕ
found = record { now = "2026-01-02T00:00:00Z"; event_type = "INFORMATION_RECORDED"; payload = note }

abbrev header : Fields ℕ
header = event codec null 1 (str zeros) started

abbrev session : Text
session = unlines (print (obj header) ∷ [])

abbrev finding : Fields ℕ
finding = next_event codec null (header ∷ []) found

header-IsPlain : IsPlain (print (obj header))
unfolding plain? print event checksum
header-IsPlain = plain?_sound (print (obj header)) refl

finding-IsPlain : IsPlain (print (obj finding))
unfolding plain? print event checksum unsigned_digest
finding-IsPlain = plain?_sound (print (obj finding)) refl

session-IsLog : IsLog session (print (obj header) ∷ [])
session-IsLog = (refl, (header-IsPlain, tt))

session_reads : read codec (some session) ≡ ok (header ∷ [])
unfolding read event print load checksum read_lines is_break read_event equals_int
session_reads = refl

read_after_append_example :
    let after = session ++ (print (obj finding) ++ (10 ∷ [])) in
    (append codec null found (some session) ≡ ok (after, finding))
    × IsLog after (print (obj header) ∷ print (obj finding) ∷ [])
    × (read codec (some after) ≡ ok (header ∷ finding ∷ []))
read_after_append_example =
    read_after_append codec codec-RoundTrips null found session (print (obj header) ∷ [])
      (header ∷ []) session-IsLog session_reads finding-IsPlain

append_many-cons_example :
    append_many codec null (found ∷ found ∷ []) (some session)
    ≡ one_by_one codec null found (found ∷ []) (some session)
append_many-cons_example =
    append_many-cons codec codec-RoundTrips null found (found ∷ []) session
      (print (obj header) ∷ []) (header ∷ []) session-IsLog session_reads finding-IsPlain

append_if_tail_race_example :
    let after = session ++ (print (obj finding) ++ (10 ∷ [])) in
    let tail = end_hash codec zeros (header ∷ []) in
    (append_if_tail codec null tail found (some session) ≡ ok (after, finding))
    × ((append_if_tail codec null tail started (some after)
          ≡ err (invalid "investigation changed after evaluation; retry required"))
        ⊎ (unsigned_digest codec finding ≡ tail))
append_if_tail_race_example =
    append_if_tail_race codec codec-RoundTrips null null (end_hash codec zeros (header ∷ [])) found
      started session (print (obj header) ∷ []) (header ∷ []) session-IsLog session_reads refl
      finding-IsPlain

-- Bytes that are decoded as ASCII stand for UTF-8: any other byte is bad.
is_ascii : Text → Bool
is_ascii [] = true
is_ascii (c ∷ cs) = ltb c 128 && is_ascii cs

abbrev replaced : Text → Text
replaced [] = []
replaced (c ∷ cs) = (if ltb c 128 then c else 65533) ∷ replaced cs

replaced_of_ascii : (cs : Text) → is_ascii cs ≡ true → replaced cs ≡ cs
unfolding is_ascii
replaced_of_ascii [] h = refl
replaced_of_ascii (c ∷ cs) h =
    let rest = replaced_of_ascii cs (ground (arith, h)) in
    let small : ltb c 128 ≡ true = ground (arith, h) in rw (small, rest) refl

abbrev decoded : Text → Option Text
decoded cs = if is_ascii cs then some cs else none

decoded-agrees : (cs t : Text) → decoded cs ≡ some t → replaced cs ≡ t
decoded-agrees cs t h = elim (Bool-cases (is_ascii cs)) [
  | inl good ↦ let same : cs ≡ t = some_injective (rw good at h) in replaced_of_ascii cs good ∙ same
  | inr bad ↦ cc (rw bad at h)
]
  where
    some_injective : {a b : Text} → some a ≡ some b → a ≡ b
    some_injective q = cc

abbrev ascii : Utf8 Text
ascii = record { strict = decoded; replacing = replaced; agrees = decoded-agrees }

valid_prefix_bytes-TellsBytes_example :
    TellsBytes codec ascii
      (some (255 ∷ session))
      (valid_prefix_bytes codec ascii (some (255 ∷ session)))
valid_prefix_bytes-TellsBytes_example =
    valid_prefix_bytes-TellsBytes codec ascii (some (255 ∷ session))
