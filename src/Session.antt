-- ===== src/Session.antt =====
-- `SessionStore` of unified_runtime/core.py: the log of one investigation, for an identifier that
-- `path` accepts. Each operation runs under the investigation's lock, so it is one step.
mod Header
pub mod Appending
pub mod Batch
pub mod Tail
pub mod Prefix
pub mod Decoding
use customs_buyer_intelligen.Prelude.{
  ℕ, suc, ◌+◌, String, not, List, [], ◌∷◌, ◌++◌, map, Option, none, some, length, if◌then◌else◌,
}
use customs_buyer_intelligen.Python.{
  set_field, pos, Value, null, int, str, obj, Fields, end, field, Host, get, truthy, equals_str,
}
use customs_buyer_intelligen.Chain.{
  Text, unlines, read_lines, Error, Result, ok, err, invalid, attribute_error, ◌>>=◌, Codec, zeros,
  digest, unsigned_digest, read_event, read_from, last_hash, unsigned,
}

-- What `append_many` is given for each event: the clock, the event type and the payload.
pub record Row (F : Type 0) : Type 0 where
  pub now : String
  pub event_type : String
  pub payload : Value F

module _ {F : Type 0} where
  -- What a refused line makes of the prefix: only the exception of `.get` leaves the function.
  unfoldable pub stopped : Error → Result (List (Fields F) × Option Error)
  stopped attribute_error = err attribute_error
  stopped x = ok ([], some x)

module _ {F : Type 0} ⦃py : Host F⦄ where
  -- `not events or events[0].get("event_type") != "INVESTIGATION_STARTED"`
  unfoldable pub with_header : List (Fields F) → Result (List (Fields F))
  unfolding get equals_str
  with_header [] = err (invalid "session header missing")
  with_header (e ∷ es) =
      if not (equals_str (get "event_type" e) "INVESTIGATION_STARTED")
      then err (invalid "session header missing")
      else ok (e ∷ es)

  -- The header is looked at where the loop came to the end.
  unfoldable pub with_header? :
      List (Fields F) × Option Error → Result (List (Fields F) × Option Error)
  unfolding with_header
  with_header? (es, some x) = ok (es, some x)
  with_header? (es, none) = elim (with_header es) [ ok _ ↦ ok (es, none) | err x ↦ ok (es, some x) ]

abbrev pub text_of : Option Text → Text
text_of none = []
text_of (some text) = text

module _ {F : Type 0} ⦃py : Host F⦄ (codec : Codec F) where
  -- `_event`; `sanitization` is the context variable, `null` where it is not set.
  unfoldable pub event : Value F → ℕ → Value F → Row F → Fields F
  unfolding unsigned digest set_field truthy
  event sanitization seq prev row =
      let base = unsigned seq prev row.event_type row.now row.payload in
      let full =
        if truthy sanitization then set_field "input_sanitization" sanitization base else base in
      set_field "event_hash" (str (digest codec (obj full))) full

  -- `_read_unlocked`, of the text that the file's bytes decode to; `Session/Decoding` has the bytes.
  unfoldable pub read : Option Text → Result (List (Fields F))
  unfolding read_from with_header
  read none = err (invalid "investigation not found")
  read (some text) = do events ← read_from codec 1 zeros (read_lines text); with_header events

  -- The loop of `_read_valid_prefix_unlocked`: the events, and what stopped it.
  unfoldable pub prefix_from : ℕ → String → List Text → Result (List (Fields F) × Option Error)
  unfolding stopped
  prefix_from n previous [] = ok ([], none)
  prefix_from n previous (line ∷ lines) = elim (read_event codec n previous line) [
    | err x ↦ stopped x
    | ok e ↦ do (es, stop) ← prefix_from (suc n) (unsigned_digest codec e) lines; ok (e ∷ es, stop)
  ]

  -- `_read_valid_prefix_unlocked`, of the text that it decodes, bad bytes replaced.
  unfoldable pub valid_prefix : Option Text → Result (List (Fields F) × Option Error)
  unfolding prefix_from with_header?
  valid_prefix none = ok ([], some (invalid "investigation not found"))
  valid_prefix (some text) = do found ← prefix_from 1 zeros (read_lines text); with_header? found

  -- `create`: opening with mode "x" refuses a file that is there.
  unfoldable pub create : Value F → String → Value F → Option Text → Result (Text × Fields F)
  unfolding event
  create sanitization now payload (some text) = err (invalid "investigation_id collision")
  create sanitization now payload none =
      let e =
        event sanitization 1 (str zeros)
          (record { now = now; event_type = "INVESTIGATION_STARTED"; payload = payload }) in
      ok (codec.dumps (obj e) ++ (10 ∷ []), e)

  unfoldable pub append : Value F → Row F → Option Text → Result (Text × Fields F)
  unfolding read event last_hash
  append sanitization row file = do
    events ← read file
    let e = event sanitization (length events + 1) (last_hash (str zeros) events) row
    ok (text_of file ++ (codec.dumps (obj e) ++ (10 ∷ [])), e)

  -- The loop of `append_many` over the rows, from the last number and hash on.
  unfoldable pub batch : Value F → ℕ → Value F → List (Row F) → List (Fields F)
  unfolding event
  batch sanitization seq prev [] = []
  batch sanitization seq prev (row ∷ rows) =
      let e = event sanitization (seq + 1) prev row in
      e ∷ batch sanitization (seq + 1) (get "event_hash" e) rows

  abbrev pub lines_of : List (Fields F) → List Text
  lines_of = map (λ e. codec.dumps (obj e))

  -- `append_many`; with no rows nothing is read, and the file stays as it is.
  unfoldable pub append_many :
      Value F → List (Row F) → Option Text → Result (Option Text × List (Fields F))
  unfolding read batch last_hash
  append_many sanitization [] file = ok (file, [])
  append_many sanitization (row ∷ rows) file = do
    events ← read file
    let new = batch sanitization (length events) (last_hash (str zeros) events) (row ∷ rows)
    ok (some (text_of file ++ unlines (lines_of new)), new)

  -- `append_if_tail`
  unfoldable pub append_if_tail : Value F → String → Row F → Option Text → Result (Text × Fields F)
  unfolding read event last_hash equals_str
  append_if_tail sanitization expected row file = do
    events ← read file
    let e = event sanitization (length events + 1) (str expected) row
    if not (equals_str (last_hash (str zeros) events) expected)
        then err (invalid "investigation changed after evaluation; retry required")
        else ok (text_of file ++ (codec.dumps (obj e) ++ (10 ∷ [])), e)
