-- ===== src/Runtime/Advancing.antt =====
-- What no event undoes: an anchor once closed stays closed, a token once rendered stays so, and
-- the queue of anchors stays sound.
use customs_buyer_intelligen.Prelude.{
  String, true, false, List, [], ◌∷◌, All, is_in, ◌≡◌, subst, arith, inl, inr, Bool-cases,
  if◌then◌else◌,
}
use customs_buyer_intelligen.Python.{
  Value, obj, Fields, Host, equals_str, get_or, set_field, int, pos,
}
use customs_buyer_intelligen.Chain.{Result, ok, >>=-eq-ok, ok_injective, need, as_object, as_text}
use customs_buyer_intelligen.Runtime.State.{Findings, add, id_at}
use customs_buyer_intelligen.Runtime.Events.{
  on_peer, on_anchor_closed, on_rendered, promote, is_promoted, close_anchor, depth_of,
}
use customs_buyer_intelligen.Runtime.Replay.{branches, handle, step_event, replay}
use customs_buyer_intelligen.Runtime.Sets.{
  Distinct, Apart, is_in-add, discard-Distinct, discard-Apart, append-Distinct, append-Apart,
}
use customs_buyer_intelligen.Runtime.Keeping.{
  Keeps, on_execution-Keeps, on_information-Keeps, on_plan-Keeps, on_provider-Keeps, on_crm-Keeps,
  on_closure-Keeps, on_prepared-Keeps,
}

-- No anchor waits twice, and none that waits is closed.
abbrev pub IsSound : {F : Type 0} → Findings F → Type 0
IsSound s = Distinct s.anchor_queue × Apart s.anchor_queue s.anchor_closed

abbrev pub Grows : List String → List String → Type 0
Grows xs ys = (x : String) → is_in x xs ≡ true → is_in x ys ≡ true

abbrev pub Advances : {F : Type 0} → Findings F → Findings F → Type 0
Advances s t =
    Grows s.anchor_closed t.anchor_closed
    × Grows s.rendered_tokens t.rendered_tokens
    × (IsSound s → IsSound t)

add-Grows : (y : String) (xs : List String) → Grows xs (add y xs)
add-Grows y xs x h = ground (arith, is_in-add x y xs, h)

module _ {F : Type 0} ⦃py : Host F⦄ where
  pub Advances-refl : (s : Findings F) → Advances s s
  Advances-refl s = (λ x h. h, λ x h. h, λ h. h)

  pub Advances-trans : (s t u : Findings F) → Advances s t → Advances t u → Advances s u
  Advances-trans s t u h k =
      (λ x m. k.0 x (h.0 x m), λ x m. k.1 x (h.1 x m), λ sound. k.2 (h.2 sound))

  Keeps-Advances : (s t : Findings F) → Keeps s t → Advances s t
  Keeps-Advances s t (queue, closed, rendered) = rw (queue, closed, rendered) (Advances-refl s)

  close_anchor-Advances :
      (anchor_id : String) (s : Findings F) → Advances s (close_anchor anchor_id s)
  close_anchor-Advances anchor_id s = (
    add-Grows anchor_id s.anchor_closed,
    λ x h. h,
    λ sound. (
      discard-Distinct anchor_id s.anchor_queue sound.0,
      discard-Apart anchor_id s.anchor_queue s.anchor_closed sound.1,
    ),
  )

  promote-Advances :
      (peer_id : String) (receipt : Fields F) (s t : Findings F)
      → is_in peer_id s.anchor_queue ≡ false
      → is_in peer_id s.anchor_closed ≡ false
      → promote peer_id receipt s ≡ ok t
      → Advances s t
  unfolding promote
  promote-Advances peer_id receipt s t new fresh done =
      let (depth, _, promoted) =
        >>=-eq-ok (depth_of (get_or "anchor_depth" (int (pos 1)) receipt)) _ done in
      subst (Advances s) (ok_injective promoted) (
        λ x h. h,
        λ x h. h,
        λ sound. (
          append-Distinct s.anchor_queue peer_id sound.0 new,
          append-Apart s.anchor_queue s.anchor_closed peer_id sound.1 fresh,
        ),
      )

  on_anchor_closed-Advances :
      (payload : Fields F) (s t : Findings F) → on_anchor_closed payload s ≡ ok t → Advances s t
  unfolding on_anchor_closed
  on_anchor_closed-Advances payload s t done =
      let (anchor_id, _, closed) = >>=-eq-ok (id_at "anchor_id" (obj payload)) _ done in
      subst (Advances s) (ok_injective closed) (close_anchor-Advances anchor_id s)

  on_rendered-Advances :
      (payload : Fields F) (s t : Findings F) → on_rendered payload s ≡ ok t → Advances s t
  unfolding on_rendered
  on_rendered-Advances payload s t done =
      let (token, _, rendered) = >>=-eq-ok (id_at "render_token" (obj payload)) _ done in
      subst (Advances s) (ok_injective rendered)
        (λ x h. h, add-Grows token s.rendered_tokens, λ sound. sound)

  -- The branch once its receipt has been read.
  peer_Advances :
      (peer_id : String) (held : Value F) (receipt : Fields F) (decision : Value F)
      (s t : Findings F)
      → let held_too = record s { peers = set_field peer_id held s.peers } in
        (if is_promoted decision peer_id held_too
            then promote peer_id receipt held_too
            else ok held_too)
          ≡ ok t
        → Advances s t
  unfolding is_promoted
  peer_Advances peer_id held receipt decision s t done =
      let kept = record s { peers = set_field peer_id held s.peers } in
      elim (Bool-cases (is_promoted decision peer_id kept)) [
        | inl opens ↦
            promote-Advances peer_id receipt kept t (ground (arith, opens)) (ground (arith, opens))
              (rw opens at done)
        | inr shut ↦ subst (Advances s) (ok_injective (rw shut at done)) (Advances-refl s)
      ]

  on_peer-Advances :
      (payload : Fields F) (s t : Findings F) → on_peer payload s ≡ ok t → Advances s t
  unfolding on_peer
  on_peer-Advances payload s t done =
      let (held, _, opened) = >>=-eq-ok (need "receipt" payload) _ done in
      let (receipt, _, named) = >>=-eq-ok (as_object held) _ opened in
      let (name, _, read) = >>=-eq-ok (need "peer_id" receipt) _ named in
      let (peer_id, _, decided) = >>=-eq-ok (as_text name) _ read in
      let (decision, _, branched) = >>=-eq-ok (need "promotion_decision" receipt) _ decided in
      peer_Advances peer_id held receipt decision s t branched

  abbrev IsAdvancing : String × (Fields F → Findings F → Result (Findings F)) → Type 0
  IsAdvancing (name, on) = (fs : Fields F) (s t : Findings F) → on fs s ≡ ok t → Advances s t

  handle-Advances :
      (kind payload : Value F)
      (rows : List (String × (Fields F → Findings F → Result (Findings F))))
      → All IsAdvancing rows
      → (s t : Findings F) → handle kind payload s rows ≡ ok t
      → Advances s t
  unfolding handle
  handle-Advances kind payload [] each s t done =
      subst (Advances s) (ok_injective done) (Advances-refl s)
  handle-Advances kind payload ((name, on) ∷ rows) each s t done =
      elim (Bool-cases (equals_str kind name)) [
        | inl here ↦
            let (fs, _, ran) = >>=-eq-ok (as_object payload) _ (rw here at done) in
            each.0 fs s t ran
        | inr later ↦ handle-Advances kind payload rows each.1 s t (rw later at done)
      ]

  branches-IsAdvancing : (event : Fields F) → All IsAdvancing (branches event)
  branches-IsAdvancing event = (
    λ fs s t r. Keeps-Advances s t (on_execution-Keeps fs s t r),
    (
      λ fs s t r. Keeps-Advances s t (on_information-Keeps fs s t r),
      (
        on_peer-Advances,
        (
          λ fs s t r. Keeps-Advances s t (on_plan-Keeps fs s t r),
          (
            λ fs s t r. Keeps-Advances s t (on_provider-Keeps fs s t r),
            (
              on_anchor_closed-Advances,
              (
                λ fs s t r. Keeps-Advances s t (on_crm-Keeps fs s t r),
                (
                  λ fs s t r. Keeps-Advances s t (on_closure-Keeps fs s t event r),
                  (
                    λ fs s t r. Keeps-Advances s t (on_prepared-Keeps fs s t event r),
                    (on_rendered-Advances, tt),
                  ),
                ),
              ),
            ),
          ),
        ),
      ),
    ),
  )

  pub step_event-Advances :
      (event : Fields F) (s t : Findings F) → step_event event s ≡ ok t → Advances s t
  unfolding step_event
  step_event-Advances event s t done =
      let (payload, _, paid) = >>=-eq-ok (need "payload" event) _ done in
      let (kind, _, handled) = >>=-eq-ok (need "event_type" event) _ paid in
      handle-Advances kind payload (branches event) (branches-IsAdvancing event) s t handled

  pub replay-Advances :
      (events : List (Fields F)) (s t : Findings F) → replay events s ≡ ok t → Advances s t
  unfolding replay
  replay-Advances [] s t done = subst (Advances s) (ok_injective done) (Advances-refl s)
  replay-Advances (event ∷ events) s t done =
      let (u, stepped, replayed) = >>=-eq-ok (step_event event s) _ done in
      Advances-trans s u t (step_event-Advances event s u stepped)
        (replay-Advances events u t replayed)
