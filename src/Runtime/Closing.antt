-- ===== src/Runtime/Closing.antt =====
-- Events that close anchors.
use customs_buyer_intelligen.Prelude.{
  String, Bool, true, false, List, [], ◌∷◌, ◌++◌, Option, ◌==◌, eq_iff, ◌≡◌, refl, subst, ap, sym,
  ◌∙◌, arith, inl, inr, Bool-cases, if◌then◌else◌,
}
use customs_buyer_intelligen.Python.{Value, obj, Fields, Host, equals_str, equals_str-eq}
use customs_buyer_intelligen.Chain.{
  Text, Codec, Result, Error, ok, err, other, ok_injective, ◌>>=◌, >>=-eq-ok, need, as_object,
}
use customs_buyer_intelligen.Session.{read}
use customs_buyer_intelligen.Runtime.State.{Findings, discard, id_at}
use customs_buyer_intelligen.Runtime.Events.{on_anchor_closed, close_anchor}
use customs_buyer_intelligen.Runtime.Replay.{RuntimeState, handle, step_event, replay, state}
use customs_buyer_intelligen.Runtime.Sets.{Within}
use customs_buyer_intelligen.Runtime.Growing.{grown, state-grown}

Within-nil : (xs : List String) → Within xs [] → xs ≡ []
Within-nil [] h = refl
Within-nil (x ∷ xs) h = cc

discard-Within : (x : String) (xs ys : List String) → Within xs (x ∷ ys) → Within (discard x xs) ys
unfolding discard
discard-Within x [] ys h = tt
discard-Within x (y ∷ xs) ys h = elim (Bool-cases (x == y)) [
  | inl p ↦ rw p (discard-Within x xs ys h.1)
  | inr p ↦ rw p (ground (arith, h.0, eq_iff x y, eq_iff y x), discard-Within x xs ys h.1)
]

module _ {F : Type 0} ⦃py : Host F⦄ where
  -- The anchor that an event closes.
  abbrev closes : Fields F → Result String
  closes event = do
    payload ← need "payload" event
    kind ← need "event_type" event
    fs ← as_object payload
    anchor_id ← id_at "anchor_id" (obj fs)
    if equals_str kind "ANCHOR_EXPANSION_CLOSED" then ok anchor_id else err (other "kind")

  abbrev pub all_close : List (Fields F) → Result (List String)
  all_close [] = ok []
  all_close (event ∷ events) = do
    anchor_id ← closes event
    anchors ← all_close events
    ok (anchor_id ∷ anchors)

  step_on :
      (event : Fields F) (payload kind : Value F) (fs : Fields F) (anchor_id : String)
      (s : Findings F)
      → need "payload" event ≡ ok payload
      → need "event_type" event ≡ ok kind
      → as_object payload ≡ ok fs
      → id_at "anchor_id" (obj fs) ≡ ok anchor_id
      → equals_str kind "ANCHOR_EXPANSION_CLOSED" ≡ true
      → step_event event s ≡ ok (close_anchor anchor_id s)
  unfolding step_event handle equals_str on_anchor_closed
  step_on event payload kind fs anchor_id s paid typed opened named tested =
      rw (paid, typed, equals_str-eq kind "ANCHOR_EXPANSION_CLOSED" tested, opened, named) refl

  step_closes :
      (event : Fields F) (anchor_id : String) (s : Findings F)
      → closes event ≡ ok anchor_id
      → step_event event s ≡ ok (close_anchor anchor_id s)
  step_closes event anchor_id s done =
      let (payload, paid, typed) = >>=-eq-ok (need "payload" event) _ done in
      let (kind, is_kind, opened) = >>=-eq-ok (need "event_type" event) _ typed in
      let (fs, is_object, named) = >>=-eq-ok (as_object payload) _ opened in
      let (found, is_id, tested) = >>=-eq-ok (id_at "anchor_id" (obj fs)) _ named in
      let (same, is_kind_too) =
        only_if (equals_str kind "ANCHOR_EXPANSION_CLOSED") found _ anchor_id tested in
      step_on event payload kind fs anchor_id s paid is_kind is_object (is_id ∙ ap ok same)
        is_kind_too
    where
      only_if :
          (b : Bool) (x : String) (r : Error) (y : String)
          → (if b then ok x else err r) ≡ ok y
          → (x ≡ y) × (b ≡ true)
      only_if true x r y h = (ok_injective h, refl)
      only_if false x r y h = cc

  replay_closes :
      (events : List (Fields F)) (anchors : List String) (s : Findings F)
      → all_close events ≡ ok anchors
      → Within s.anchor_queue anchors
      → (t : Findings F) × (replay events s ≡ ok t) × (t.anchor_queue ≡ [])
  unfolding replay
  replay_closes [] anchors s done within = (
    s,
    refl,
    Within-nil s.anchor_queue (subst (Within s.anchor_queue) (sym (ok_injective done)) within),
  )
  replay_closes (event ∷ events) anchors s done within =
      let (anchor_id, closed, rest) = >>=-eq-ok (closes event) _ done in
      let (later, closes_later, same) = >>=-eq-ok (all_close events) _ rest in
      let within_later = subst (Within s.anchor_queue) (sym (ok_injective same)) within in
      let (t, ran, empty) =
        replay_closes events later (close_anchor anchor_id s) closes_later
          (discard-Within anchor_id s.anchor_queue later within_later) in
      (t, ap (λ r. r >>= replay events) (step_closes event anchor_id s closed) ∙ ran, empty)

module _ {F : Type 0} ⦃py : Host F⦄ (codec : Codec F) where
  -- Where an investigation has a state and its log has grown by events that close anchors, all those
  -- that wait among them, the state can be read again, and no anchor waits.
  pub closing-state :
      (file later : Option Text) (events : List (Fields F)) (anchors : List String)
      (s : RuntimeState F)
      → state codec file ≡ ok s
      → read codec later ≡ ok (s.events ++ events)
      → all_close events ≡ ok anchors
      → Within s.progress.anchor_queue anchors
      → (t : RuntimeState F) × (state codec later ≡ ok t) × (t.progress.anchor_queue ≡ [])
  unfolding grown
  closing-state file later events anchors s done reads closing within =
      let (t, ran, empty) = replay_closes events anchors s.progress closing within in
      (
        record { events = s.events ++ events; start = s.start; progress = t },
        state-grown codec file later events s done reads ∙ ap (λ r. r >>= with_progress) ran,
        empty,
      )
    where
      with_progress : Findings F → Result (RuntimeState F)
      with_progress t = ok (record { events = s.events ++ events; start = s.start; progress = t })
