-- ===== src/Runtime/Growing.antt =====
-- The state of a log that has grown: the steps of its new events, from the state of before.
use customs_buyer_intelligen.Prelude.{
  List, [], ◌∷◌, ◌++◌, Option, some, ◌≡◌, refl, sym, ap, ◌∙◌, subst, arith,
}
use customs_buyer_intelligen.Python.{Value, obj, Fields, Host}
use customs_buyer_intelligen.Chain.{
  Text, IsPlain, Codec, RoundTrips, Result, ok, ok_injective, ◌>>=◌, >>=-eq-ok, need, as_object,
}
use customs_buyer_intelligen.Session.{Row, read, append}
use customs_buyer_intelligen.Session.Appending.{IsLog, next_event, read_after_append}
use customs_buyer_intelligen.Runtime.State.{Findings}
use customs_buyer_intelligen.Runtime.Replay.{
  RuntimeState, initial, step_event, replay, state_from, state,
}

module _ {F : Type 0} ⦃py : Host F⦄ where
  pub replay-append :
      (xs ys : List (Fields F)) (s t : Findings F)
      → replay xs s ≡ ok t
      → replay (xs ++ ys) s ≡ replay ys t
  unfolding replay
  replay-append [] ys s t done = ap (replay ys) (ok_injective done)
  replay-append (x ∷ xs) ys s t done =
      let (u, stepped, replayed) = >>=-eq-ok (step_event x s) _ done in
      rw stepped (replay-append xs ys u t replayed)

  -- The state of before with what further events make of it.
  unfoldable pub grown : List (Fields F) → RuntimeState F → Result (RuntimeState F)
  unfolding replay
  grown more s = do
    after ← replay more s.progress
    ok (record { events = s.events ++ more; start = s.start; progress = after })

  -- The whole function, from what each of its parts returns.
  grown_of :
      (first : Fields F) (rest more : List (Fields F)) (payload : Value F) (start : Fields F)
      (before after : Findings F)
      → need "payload" first ≡ ok payload
      → as_object payload ≡ ok start
      → initial start ≡ ok before
      → replay rest before ≡ ok after
      → state_from (first ∷ rest ++ more)
        ≡ grown more (record { events = first ∷ rest; start = start; progress = after })
  unfolding state_from grown
  grown_of first rest more payload start before after paid opened begun ran =
      rw (paid, opened, begun, replay-append rest more before after ran) refl

  pub state_from-append :
      (es more : List (Fields F)) (s : RuntimeState F)
      → state_from es ≡ ok s
      → state_from (es ++ more) ≡ grown more s
  unfolding state_from
  state_from-append [] more s done = cc
  state_from-append (first ∷ rest) more s done =
      let (payload, paid, opened) = >>=-eq-ok (need "payload" first) _ done in
      let (start, is_start, begun) = >>=-eq-ok (as_object payload) _ opened in
      let (before, is_before, ran) = >>=-eq-ok (initial start) _ begun in
      let (after, is_after, made) = >>=-eq-ok (replay rest before) _ ran in
      subst (λ x. state_from (first ∷ rest ++ more) ≡ grown more x) (ok_injective made)
        (grown_of first rest more payload start before after paid is_start is_before is_after)

  pub state_from-events :
      (es : List (Fields F)) (s : RuntimeState F) → state_from es ≡ ok s → s.events ≡ es
  unfolding state_from
  state_from-events [] s done = cc
  state_from-events (first ∷ rest) s done =
      let (payload, paid, opened) = >>=-eq-ok (need "payload" first) _ done in
      let (start, is_start, begun) = >>=-eq-ok (as_object payload) _ opened in
      let (before, is_before, ran) = >>=-eq-ok (initial start) _ begun in
      let (after, is_after, made) = >>=-eq-ok (replay rest before) _ ran in
      ap (λ x. x.events) (sym (ok_injective made))

  pub grown-one :
      (e : Fields F) (s : RuntimeState F)
      → grown (e ∷ []) s ≡ (
          step_event e s.progress >>= λ t.
          ok (record { events = s.events ++ e ∷ []; start = s.start; progress = t }))
  unfolding grown replay
  grown-one e s = ground arith

module _ {F : Type 0} ⦃py : Host F⦄ (codec : Codec F) where
  pub state-read :
      (file : Option Text) (s : RuntimeState F)
      → state codec file ≡ ok s
      → read codec file ≡ ok s.events
  unfolding state
  state-read file s done =
      let (es, is_read, made) = >>=-eq-ok (read codec file) _ done in
      is_read ∙ ap ok (sym (state_from-events es s made))

  -- A file whose events are those of another, and more.
  pub state-grown :
      (file later : Option Text) (more : List (Fields F)) (s : RuntimeState F)
      → state codec file ≡ ok s
      → read codec later ≡ ok (s.events ++ more)
      → state codec later ≡ grown more s
  unfolding state
  state-grown file later more s done reads =
      let (es, is_read, made) = >>=-eq-ok (read codec file) _ done in
      let same = state_from-events es s made in
      rw reads (ap (λ xs. state_from (xs ++ more)) same ∙ state_from-append es more s made)

  -- Where a session of plain lines has a state, and the text of the next event is one line, the append
  -- of the event succeeds, and the state is then what that one event makes of the state of before,
  -- an error included.
  pub append-state :
      (rt : RoundTrips codec) (sanitization : Value F) (row : Row F) (text : Text) (ls : List Text)
      (s : RuntimeState F)
      → IsLog text ls
      → state codec (some text) ≡ ok s
      → IsPlain (codec.dumps (obj (next_event codec sanitization s.events row)))
      → let e = next_event codec sanitization s.events row in
        let after = text ++ (codec.dumps (obj e) ++ (10 ∷ [])) in
        (append codec sanitization row (some text) ≡ ok (after, e))
        × (state codec (some after) ≡ (
            step_event e s.progress >>= λ t.
            ok (record { events = s.events ++ e ∷ []; start = s.start; progress = t })))
  append-state rt sanitization row text ls s log done plain =
      let reads = state-read (some text) s done in
      let (appended, _, later) =
        read_after_append codec rt sanitization row text ls s.events log reads plain in
      let e = next_event codec sanitization s.events row in
      let after = text ++ (codec.dumps (obj e) ++ (10 ∷ [])) in
      (appended, state-grown (some text) (some after) (e ∷ []) s done later ∙ grown-one e s)
