-- ===== src/Chain/Extending.antt =====
-- `append` extends the log by one event, which the next `read` returns.
use customs_buyer_intelligen.Prelude.{
  ℕ, ◌+◌, String, true, List, [], ◌∷◌, ◌++◌, All, Option, none, some, length, ◌≡◌, refl, subst,
  arith, sym, ◌∙◌,
}
use customs_buyer_intelligen.Python.{Value, str, obj, Fields, Host}
use customs_buyer_intelligen.Chain.Lines.{
  Text, IsPlain, HasNoCr, is_break, unlines, unlines-append, read_lines-unlines, read_lines-broken,
  All-append,
}
use customs_buyer_intelligen.Chain.Outcome.{Error, ok, err, corrupt}
use customs_buyer_intelligen.Chain.Defs.{
  Codec, RoundTrips, zeros, decode, read_event, read_from, read, signed, written, append,
}
use customs_buyer_intelligen.Chain.Reading.{
  end_hash, last_hash-end_hash, read_from-IsChain, read_from-append, read_from-refused,
  signed-IsLink, read_event_of_dumps,
}

-- A file of whole lines, none of which `splitlines` breaks: absent, or lines with their newlines.
abbrev pub IsLog : Option Text → List Text → Type 0
IsLog none ls = ls ≡ []
IsLog (some text) ls = (text ≡ unlines ls) × All IsPlain ls

module _ {F : Type 0} ⦃py : Host F⦄ (codec : Codec F) where
  pub read-eq-read_from :
      (file : Option Text) (ls : List Text)
      → IsLog file ls
      → read codec file ≡ read_from codec 1 zeros ls
  unfolding read
  read-eq-read_from none ls h = rw h
  read-eq-read_from (some text) ls h = rw (h.0, read_lines-unlines ls h.1)

  written-unlines :
      (file : Option Text) (ls : List Text) → IsLog file ls → written file ≡ unlines ls
  written-unlines none ls h = rw h
  written-unlines (some text) ls h = h.0

  IsLog-IsPlain : (file : Option Text) (ls : List Text) → IsLog file ls → All IsPlain ls
  IsLog-IsPlain none ls h = rw h tt
  IsLog-IsPlain (some text) ls h = h.1

  -- the event that `append` writes after `events`
  abbrev pub next_event : List (Fields F) → String → String → Value F → Fields F
  next_event events event_type now payload =
      signed codec (length events + 1) (str (end_hash codec zeros events)) event_type now payload

  append-IsLog :
      (event_type now : String) (payload : Value F) (file : Option Text) (ls : List Text)
      (events : List (Fields F))
      → IsLog file ls
      → read codec file ≡ ok events
      → append codec event_type now payload file
        ≡ ok (
          unlines (ls ++ codec.dumps (obj (next_event events event_type now payload)) ∷ []),
          next_event events event_type now payload,
        )
  unfolding append
  append-IsLog event_type now payload file ls events log h =
      let chain =
        (read_from-IsChain codec 1 zeros ls events (sym (read-eq-read_from file ls log) ∙ h)).0 in
      rw (
        h,
        last_hash-end_hash codec 1 zeros events chain,
        written-unlines file ls log,
        unlines-append,
      )

  read_event_of_torn :
      (n : ℕ) (previous : String) (l : Text)
      → codec.loads l ≡ none
      → read_event codec n previous l ≡ err (corrupt n)
  unfolding read_event
  read_event_of_torn n previous l h = rw (h, decode)

  append_of_refused :
      (event_type now : String) (payload : Value F) (file : Option Text) {x : Error}
      → read codec file ≡ err x
      → append codec event_type now payload file ≡ err x
  unfolding append
  append_of_refused event_type now payload file h = rw h

  refused :
      (ls : List Text) (events : List (Fields F)) (a : Text) (c : ℕ) (b : Text)
      → All IsPlain ls
      → read_from codec 1 zeros ls ≡ ok events
      → IsPlain a
      → is_break c ≡ true
      → HasNoCr (c ∷ b)
      → IsPlain b
      → codec.loads a ≡ none
      → read codec (some (unlines (ls ++ (a ++ (c ∷ b)) ∷ []))) ≡ err (corrupt (1 + length ls))
  unfolding read
  refused ls events a c b plains h plain breaks no_cr plain' torn =
      rw (read_lines-broken ls a c b plains plain breaks no_cr plain') (
        read_from-refused codec 1 zeros ls a (b ∷ []) events (corrupt (1 + length ls)) h
          (read_event_of_torn (1 + length ls) (end_hash codec zeros events) a torn))

  reads_next :
      (rt : RoundTrips codec) (event_type now : String) (payload : Value F) (ls : List Text)
      (events : List (Fields F))
      → read_from codec 1 zeros ls ≡ ok events
      → read_event codec
          (1 + length ls)
          (end_hash codec zeros events)
          (codec.dumps (obj (next_event events event_type now payload)))
        ≡ ok (next_event events event_type now payload)
  reads_next rt event_type now payload ls events h =
      let (chain, count) = read_from-IsChain codec 1 zeros ls events h in
      let hash = end_hash codec zeros events in
      subst
        (λ n.
          read_event codec n hash (codec.dumps (obj (next_event events event_type now payload)))
          ≡ ok (next_event events event_type now payload))
        (omega (arith, count))
        (read_event_of_dumps codec rt (length events + 1) hash _
          (signed-IsLink codec (length events + 1) hash event_type now payload))

  -- On a log that reads and is not there yet or is whole plain lines, the last one ended, an append of
  -- an event whose text is one plain line succeeds, leaves such a log of one more line, and the next
  -- read returns the events of before and the new one.
  pub read-append :
      (rt : RoundTrips codec) (event_type now : String) (payload : Value F) (file : Option Text)
      (ls : List Text) (events : List (Fields F))
      → IsLog file ls
      → read codec file ≡ ok events
      → IsPlain (codec.dumps (obj (next_event events event_type now payload)))
      → let line = codec.dumps (obj (next_event events event_type now payload)) in
        (append codec event_type now payload file
          ≡ ok (unlines (ls ++ line ∷ []), next_event events event_type now payload))
        × IsLog (some (unlines (ls ++ line ∷ []))) (ls ++ line ∷ [])
        × (read codec (some (unlines (ls ++ line ∷ [])))
            ≡ ok (events ++ next_event events event_type now payload ∷ []))
  read-append rt event_type now payload file ls events log h plain =
      let event = next_event events event_type now payload in
      let line = codec.dumps (obj event) in
      let now_log : IsLog (some (unlines (ls ++ line ∷ []))) (ls ++ line ∷ []) =
        (refl, All-append IsPlain ls (line ∷ []) (IsLog-IsPlain file ls log) (plain, tt)) in
      let before : read_from codec 1 zeros ls ≡ ok events =
        sym (read-eq-read_from file ls log) ∙ h in
      (
        append-IsLog event_type now payload file ls events log h,
        now_log,
        read-eq-read_from _ _ now_log
            ∙ read_from-append codec 1 zeros ls line events event before
                (reads_next rt event_type now payload ls events before),
      )

  -- An append whose text holds a character that `splitlines` breaks at (a line separator U+2028,
  -- say, which `json.dumps` leaves as it is) succeeds, and from then on the log cannot be read and
  -- no append succeeds: the text before that character is no JSON.
  pub append-breaks :
      (event_type now : String) (payload : Value F) (file : Option Text) (ls : List Text)
      (events : List (Fields F)) (a : Text) (c : ℕ) (b : Text)
      → IsLog file ls
      → read codec file ≡ ok events
      → codec.dumps (obj (next_event events event_type now payload)) ≡ a ++ (c ∷ b)
      → IsPlain a
      → is_break c ≡ true
      → HasNoCr (c ∷ b)
      → IsPlain b
      → codec.loads a ≡ none
      → (after : Text) × (append codec event_type now payload file
          ≡ ok (after, next_event events event_type now payload))
        × (read codec (some after) ≡ err (corrupt (1 + length ls)))
        × ((event_type' now' : String) (payload' : Value F)
            → append codec event_type' now' payload' (some after) ≡ err (corrupt (1 + length ls)))
  append-breaks event_type now payload file ls events a c b log h text plain breaks no_cr plain'
        torn =
      let after = unlines (ls ++ (a ++ (c ∷ b)) ∷ []) in
      let unreadable =
        refused ls events a c b (IsLog-IsPlain file ls log)
          (sym (read-eq-read_from file ls log) ∙ h) plain breaks no_cr plain' torn in
      (
        after,
        append-IsLog event_type now payload file ls events log h ∙ rw text refl,
        unreadable,
        λ event_type' now' payload'.
            append_of_refused event_type' now' payload' (some after) unreadable,
      )
