-- ===== src/Chain/Defs.antt =====
-- Reading, verifying and extending a hash-chained log.
use customs_buyer_intelligen.Prelude.{
  ℕ, suc, ◌+◌, String, not, ◌||◌, List, [], ◌∷◌, ◌++◌, Option, none, some, length, if◌then◌else◌,
  ◌≡◌,
}
use customs_buyer_intelligen.Python.{
  pos, Value, int, str, obj, Fields, end, field, Host, get, without, set_field, equals_int,
  equals_str,
}
use customs_buyer_intelligen.Chain.Lines.{Text, read_lines}
use customs_buyer_intelligen.Chain.Outcome.{
  Result, ok, err, corrupt, broken, mismatch, attribute_error, ◌>>=◌,
}

-- The libraries that the log calls: `json.loads` of a line (`none` for a `JSONDecodeError`),
-- `canonical_json`, and the hexadecimal SHA-256 of a text's UTF-8.
pub record Codec (F : Type 0) : Type 0 where
  pub loads : Text → Option (Value F)
  pub dumps : Value F → Text
  pub sha256 : Text → String

-- `json.loads` gives back what `canonical_json` wrote. Values hold finite floats, and the order of a
-- dict's keys is not part of a value.
pub record RoundTrips {F : Type 0} (codec : Codec F) : Type 0 where
  pub loads-dumps : (v : Value F) → codec.loads (codec.dumps v) ≡ some v

abbrev pub zeros : String
zeros = "0000000000000000000000000000000000000000000000000000000000000000"

module _ {F : Type 0} where
  -- `events[-1]["event_hash"]`, or what an empty log gives.
  unfoldable pub last_hash : Value F → List (Fields F) → Value F
  unfolding get
  last_hash start [] = start
  last_hash start (event ∷ events) = last_hash (get "event_hash" event) events

  -- The event as it is hashed.
  unfoldable pub unsigned : ℕ → Value F → String → String → Value F → Fields F
  unsigned seq prev event_type now payload = field "seq" (int (pos seq)) (
      field "prev_hash" prev (
        field "event_type" (str event_type)
          (field "recorded_at" (str now) (field "payload" payload end))))

abbrev pub written : Option Text → Text
written none = []
written (some text) = text

module _ {F : Type 0} ⦃py : Host F⦄ (codec : Codec F) where
  unfoldable pub digest : Value F → String
  digest v = codec.sha256 (codec.dumps v)

  -- The JSON of a line; `.get` wants an object.
  unfoldable pub decode : ℕ → Text → Result (Fields F)
  decode n line = elim (codec.loads line) [
    | none ↦ err (corrupt n)
    | some (obj fs) ↦ ok fs
    | some _ ↦ err attribute_error
  ]

  -- The hash over all of an event but its own hash.
  unfoldable pub unsigned_digest : Fields F → String
  unfolding digest without
  unsigned_digest event = digest (obj (without "event_hash" event))

  unfoldable pub verify : ℕ → String → Fields F → Result (Fields F)
  unfolding unsigned_digest get
  verify n previous event =
      if not (equals_int (get "seq" event) (pos n))
        || not (equals_str (get "prev_hash" event) previous)
      then err (broken n)
      else if not (equals_str (get "event_hash" event) (unsigned_digest event))
      then err (mismatch n)
      else ok event

  -- One round of the reading loop.
  unfoldable pub read_event : ℕ → String → Text → Result (Fields F)
  unfolding decode verify
  read_event n previous line = do event ← decode n line; verify n previous event

  -- The loop from line n on, with the hash that the line before claimed.
  unfoldable pub read_from : ℕ → String → List Text → Result (List (Fields F))
  read_from n previous [] = ok []
  read_from n previous (line ∷ lines) = do
    event ← read_event n previous line
    events ← read_from (suc n) (unsigned_digest event) lines
    ok (event ∷ events)

  -- `_read_unlocked`; `none` where the file is not there.
  unfoldable pub read : Option Text → Result (List (Fields F))
  unfolding read_from
  read none = ok []
  read (some text) = read_from 1 zeros (read_lines text)

  -- The event with its hash.
  unfoldable pub signed : ℕ → Value F → String → String → Value F → Fields F
  unfolding unsigned digest set_field
  signed seq prev event_type now payload =
      let event = unsigned seq prev event_type now payload in
      set_field "event_hash" (str (digest (obj event))) event

  -- `append`: the file afterwards, and the event. `now` is what the clock says.
  unfoldable pub append : String → String → Value F → Option Text → Result (Text × Fields F)
  unfolding read signed last_hash
  append event_type now payload file = do
    events ← read file
    let event = signed (length events + 1) (last_hash (str zeros) events) event_type now payload
    ok (written file ++ (codec.dumps (obj event) ++ (10 ∷ [])), event)
