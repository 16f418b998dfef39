-- ===== src/Chain/Log.antt =====
-- The log as its clients see it (the registry and the journal of unified_runtime/resilience.py):
-- `read` and `append`, and that an append is read back.
use customs_buyer_intelligen.Prelude.{
  String, List, [], ◌∷◌, ◌++◌, Option, some, ◌≡◌, refl, sym, ◌∙◌,
}
use customs_buyer_intelligen.Python.{get, Value, str, obj, Fields, Host, find, set_field}
use customs_buyer_intelligen.Chain.Lines.{Text, IsPlain, unlines}
use customs_buyer_intelligen.Chain.Outcome.{Result, ok, ok_injective, ◌>>=◌}
use customs_buyer_intelligen.Chain.Defs.{Codec, RoundTrips, read, append, signed, unsigned}
use customs_buyer_intelligen.Chain.Extending.{IsLog, next_event, read-append}

-- The operations, on a state `L` of the log. `append` is given the type, the clock and the payload.
pub record EventLog (F L : Type 0) : Type 0 where
  pub read : L → Result (List (Fields F))
  pub append : String → String → Value F → L → Result (L × Fields F)

-- The laws: an append that fits the log succeeds, and the event holds what it was given.
pub record Appends {F L : Type 0} (log : EventLog F L) : Type 1 where
  pub Fits : String → String → Value F → L → Type 0
  pub append-read :
      (event_type now : String) (payload : Value F) (state : L) (events : List (Fields F))
      → Fits event_type now payload state
      → log.read state ≡ ok events
      → (after : L) × (e : Fields F) × (log.append event_type now payload state ≡ ok (after, e))
        × (log.read after ≡ ok (events ++ e ∷ []))
        × (find "event_type" e ≡ some (str event_type))
        × (find "recorded_at" e ≡ some (str now))
        × (find "payload" e ≡ some payload)
        × (seq : Value F) × (find "seq" e ≡ some seq)

module _ {F : Type 0} ⦃py : Host F⦄ (codec : Codec F) where
  -- `HashChainLog` over its file.
  unfoldable pub chain_log : EventLog F (Option Text)
  chain_log = record {
    read = read codec;
    append = λ event_type now payload file. do
      (text, e) ← append codec event_type now payload file
      ok (some text, e);
  }

  -- The file is one of plain lines, and the event's text is one too.
  abbrev pub FitsFile : String → String → Value F → Option Text → Type 0
  FitsFile event_type now payload file =
      (ls : List Text) × (events : List (Fields F)) × IsLog file ls
      × (read codec file ≡ ok events)
      × IsPlain (codec.dumps (obj (next_event codec events event_type now payload)))

  abbrev written_line : List Text → List (Fields F) → String → String → Value F → Text
  written_line ls es event_type now payload =
      unlines (ls ++ codec.dumps (obj (next_event codec es event_type now payload)) ∷ [])

  pub append_is_read :
      (rt : RoundTrips codec) (event_type now : String) (payload : Value F) (file : Option Text)
      (events : List (Fields F))
      → FitsFile event_type now payload file
      → read codec file ≡ ok events
      → (after : Option Text) × (e : Fields F) × (chain_log.append event_type now payload file
          ≡ ok (after, e))
        × (chain_log.read after ≡ ok (events ++ e ∷ []))
        × (find "event_type" e ≡ some (str event_type))
        × (find "recorded_at" e ≡ some (str now))
        × (find "payload" e ≡ some payload)
        × (seq : Value F) × (find "seq" e ≡ some seq)
  unfolding chain_log signed find set_field unsigned get
  append_is_read rt event_type now payload file events (ls, es, log, h, plain) k =
      let (appended, _, later) =
        read-append codec rt event_type now payload file ls es log h plain in
      let same : es ≡ events = ok_injective (sym h ∙ k) in
      rw (← same) (
        some (written_line ls es event_type now payload),
        next_event codec es event_type now payload,
        rw appended,
        later,
        refl,
        refl,
        refl,
        get "seq" (next_event codec es event_type now payload),
        refl,
      )

  -- `HashChainLog` keeps the laws of the log.
  unfoldable pub chain_appends : RoundTrips codec → Appends chain_log
  unfolding chain_log read
  chain_appends rt = record { Fits = FitsFile; append-read = append_is_read rt }
