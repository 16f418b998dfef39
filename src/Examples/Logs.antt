-- ===== src/Examples/Logs.antt =====
-- The log's theorems at concrete files.
use Prim.Native.Char.{char}
use customs_buyer_intelligen.Prelude.{
  ℕ, String, true, false, [], ◌∷◌, ◌++◌, map, none, some, ◌≡◌, refl, ◌⊎◌,
}
use customs_buyer_intelligen.Python.{Value, str, obj, Fields, end, field}
use customs_buyer_intelligen.Chain.{
  Text, IsPlain, IsPlain-HasNoCr, is_break, unlines, ok, err, corrupt, zeros, read, append, digest,
  signed,
}
use customs_buyer_intelligen.Chain.Reading.{IsChain, read-IsChain}
use customs_buyer_intelligen.Chain.Extending.{IsLog, next_event, read-append, append-breaks}
use customs_buyer_intelligen.Chain.Evidence.{Collision, content, read_evidence}
use customs_buyer_intelligen.Examples.Plain.{plain?, plain?_sound}
use customs_buyer_intelligen.Examples.Codec.{
  codec, codec-RoundTrips, naturals, print, load, checksum,
}

abbrev pub note : Value ℕ
note = obj (field "note" (str "first") end)

abbrev first : Fields ℕ
first = next_event codec [] "NOTE" "2026-01-01T00:00:00Z" note

abbrev first_line : Text
first_line = print (obj first)

first_line-IsPlain : IsPlain first_line
unfolding plain? print signed digest checksum
first_line-IsPlain = plain?_sound first_line refl

empty_reads : read codec none ≡ ok []
unfolding read
empty_reads = refl

read-append_example :
    (append codec "NOTE" "2026-01-01T00:00:00Z" note none ≡ ok (unlines (first_line ∷ []), first))
    × IsLog (some (unlines (first_line ∷ []))) (first_line ∷ [])
    × (read codec (some (unlines (first_line ∷ []))) ≡ ok (first ∷ []))
read-append_example =
    read-append codec codec-RoundTrips "NOTE" "2026-01-01T00:00:00Z" note none [] [] refl
      empty_reads first_line-IsPlain

read-IsChain_example : IsChain codec 1 zeros (first ∷ [])
read-IsChain_example =
    read-IsChain codec (some (unlines (first_line ∷ []))) (first ∷ []) read-append_example.2

read_evidence_example : Collision codec ⊎ (map content (first ∷ []) ≡ map content (first ∷ []))
read_evidence_example =
    read_evidence codec codec-RoundTrips (some (unlines (first_line ∷ [])))
      (some (unlines (first_line ∷ []))) (first ∷ []) (first ∷ []) read-append_example.2
      read-append_example.2 refl refl

-- A note with a line separator in its text.
abbrev split_note : Value ℕ
split_note = obj (field "note" (str (String.◌∷◌ (char 97 tt) (String.◌∷◌ (char 8232 tt) "b"))) end)

abbrev split_event : Fields ℕ
split_event = next_event codec [] "NOTE" "2026-01-01T00:00:00Z" split_note

before_break : Text → Text
unfolding is_break
before_break [] = []
before_break (c ∷ t) =
    let rest = before_break t in elim (is_break c) [ true ↦ [] | false ↦ c ∷ rest ]

after_break : Text → Text
unfolding is_break
after_break [] = []
after_break (c ∷ t) = let rest = after_break t in elim (is_break c) [ true ↦ t | false ↦ rest ]

abbrev head_part : Text
head_part = before_break (print (obj split_event))

abbrev tail_part : Text
tail_part = after_break (print (obj split_event))

split_parts : codec.dumps (obj split_event) ≡ head_part ++ (8232 ∷ tail_part)
unfolding before_break after_break print signed digest checksum
split_parts = refl

head_part-IsPlain : IsPlain head_part
unfolding before_break plain? print signed digest checksum
head_part-IsPlain = plain?_sound head_part refl

tail_part-IsPlain : IsPlain tail_part
unfolding after_break plain? print signed digest checksum
tail_part-IsPlain = plain?_sound tail_part refl

head_part_torn : load head_part ≡ none
unfolding load before_break print signed digest checksum
head_part_torn = refl

append-breaks_example :
    (after : Text) × (append codec "NOTE" "2026-01-01T00:00:00Z" split_note none
      ≡ ok (after, split_event))
    × (read codec (some after) ≡ err (corrupt 1))
    × ((event_type now : String) (payload : Value ℕ)
        → append codec event_type now payload (some after) ≡ err (corrupt 1))
unfolding is_break
append-breaks_example =
    append-breaks codec "NOTE" "2026-01-01T00:00:00Z" split_note none [] [] head_part 8232 tail_part
      refl empty_reads split_parts head_part-IsPlain refl
      (refl, IsPlain-HasNoCr tail_part tail_part-IsPlain) tail_part-IsPlain head_part_torn
