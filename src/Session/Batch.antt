-- ===== src/Session/Batch.antt =====
-- `append_many` writes what appending its rows one by one writes.
use customs_buyer_intelligen.Prelude.{
  List, [], ◌∷◌, ◌++◌, Option, some, length, ◌≡◌, refl, append_assoc, append-nil, length-append,
}
use customs_buyer_intelligen.Python.{Value, str, obj, Fields, Host}
use customs_buyer_intelligen.Chain.{
  Text, IsPlain, unlines, Result, ok, ◌>>=◌, Codec, RoundTrips, zeros, last_hash,
}
use customs_buyer_intelligen.Chain.Reading.{end_hash}
use customs_buyer_intelligen.Session.{Row, read, append, batch, lines_of, append_many}
use customs_buyer_intelligen.Session.Appending.{
  IsLog, next_event, read_after_append, append-eq, last_hash-append, tail_of_read,
}

module _ {F : Type 0} ⦃py : Host F⦄ (codec : Codec F) where
  -- `append` for the first row, and `append_many` for the others.
  abbrev pub one_by_one :
      Value F → Row F → List (Row F) → Option Text → Result (Option Text × List (Fields F))
  one_by_one sanitization row rows file = do
    (text, e) ← append codec sanitization row file
    (file', es) ← append_many codec sanitization rows (some text)
    ok (file', e ∷ es)

  append_many-eq :
      (sanitization : Value F) (row : Row F) (rows : List (Row F)) (text : Text)
      (es : List (Fields F))
      → read codec (some text) ≡ ok es
      → let new = batch codec sanitization (length es) (last_hash (str zeros) es) (row ∷ rows) in
        append_many codec sanitization (row ∷ rows) (some text)
        ≡ ok (some (text ++ unlines (lines_of codec new)), new)
  unfolding append_many
  append_many-eq sanitization row rows text es h = rw h

  -- The batch after the first row starts where the log with that row ends.
  rest_of_batch :
      (sanitization : Value F) (row : Row F) (rows : List (Row F)) (es : List (Fields F))
      → last_hash (str zeros) es ≡ str (end_hash codec zeros es)
      → let e = next_event codec sanitization es row in
        batch codec sanitization (length es) (last_hash (str zeros) es) (row ∷ rows)
        ≡ e
          ∷ batch codec sanitization
              (length (es ++ e ∷ []))
              (last_hash (str zeros) (es ++ e ∷ []))
              rows
  unfolding batch
  rest_of_batch sanitization row rows es tip =
      let e = next_event codec sanitization es row in
      rw (last_hash-append codec (str zeros) es e, tip, length-append es (e ∷ [])) refl

  append_many_after :
      (rt : RoundTrips codec) (sanitization : Value F) (row : Row F) (rows : List (Row F))
      (text : Text) (ls : List Text) (es : List (Fields F))
      → IsLog text ls
      → read codec (some text) ≡ ok es
      → IsPlain (codec.dumps (obj (next_event codec sanitization es row)))
      → let e = next_event codec sanitization es row in
        let later =
          batch codec sanitization
            (length (es ++ e ∷ []))
            (last_hash (str zeros) (es ++ e ∷ []))
            rows in
        append_many codec sanitization rows (some (text ++ (codec.dumps (obj e) ++ (10 ∷ []))))
        ≡ ok (
          some ((text ++ (codec.dumps (obj e) ++ (10 ∷ []))) ++ unlines (lines_of codec later)),
          later,
        )
  unfolding append_many batch
  append_many_after rt sanitization row [] text ls es log h plain = rw append-nil
  append_many_after rt sanitization row (r ∷ rows) text ls es log h plain =
      append_many-eq sanitization r rows _ _
        (read_after_append codec rt sanitization row text ls es log h plain).2

  -- On a session that reads and is whole plain lines, the last one ended, a batch whose first event's
  -- text is one plain line leaves the file and returns the events that appending its first row and
  -- then the batch of the others does.
  pub append_many-cons :
      (rt : RoundTrips codec) (sanitization : Value F) (row : Row F) (rows : List (Row F))
      (text : Text) (ls : List Text) (es : List (Fields F))
      → IsLog text ls
      → read codec (some text) ≡ ok es
      → IsPlain (codec.dumps (obj (next_event codec sanitization es row)))
      → append_many codec sanitization (row ∷ rows) (some text)
        ≡ one_by_one sanitization row rows (some text)
  append_many-cons rt sanitization row rows text ls es log h plain =
      rw
        (
          append_many-eq sanitization row rows text es h,
          append-eq codec sanitization row text ls es log h,
          append_many_after rt sanitization row rows text ls es log h plain,
          rest_of_batch sanitization row rows es (tail_of_read codec text ls es log h),
        )
        (simp append_assoc)
