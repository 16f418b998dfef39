-- ===== src/Runtime/Anchors.antt =====
-- The queue of anchors of an investigation whose log grows.
use customs_buyer_intelligen.Prelude.{
  String, List, [], ◌∷◌, ◌++◌, Option, is_in, ◌≡◌, refl, subst, sym, ◌∙◌, eq_refl, arith, inl, inr,
  Bool-cases,
}
use customs_buyer_intelligen.Python.{Fields, Host, get, or_value, arr, nil}
use customs_buyer_intelligen.Chain.{Text, Codec, ok, ok_injective, >>=-eq-ok, need, as_object}
use customs_buyer_intelligen.Session.{read}
use customs_buyer_intelligen.Runtime.State.{Findings, each, id_texts}
use customs_buyer_intelligen.Runtime.Replay.{
  RuntimeState, first_depths, initial, replay, state_from, state,
}
use customs_buyer_intelligen.Runtime.Sets.{Distinct, Apart, Within}
use customs_buyer_intelligen.Runtime.Advancing.{IsSound, Grows, replay-Advances}
use customs_buyer_intelligen.Runtime.Growing.{grown, state-grown}

Apart-nil : (xs : List String) → Apart xs []
Apart-nil [] = tt
Apart-nil (x ∷ xs) = (refl, Apart-nil xs)

Within-refl : (xs ys : List String) → Grows xs ys → Within xs ys
Within-refl [] ys h = tt
Within-refl (x ∷ xs) ys h =
    (h x (ground (arith, eq_refl x)), Within-refl xs ys (λ y m. h y (ground (arith, m))))

-- What is not in a set is in none that it has grown from.
Apart-earlier : (xs ys zs : List String) → Apart xs zs → Grows ys zs → Apart xs ys
Apart-earlier [] ys zs h grows = tt
Apart-earlier (x ∷ xs) ys zs h grows =
    let rest = Apart-earlier xs ys zs h.1 grows in
    elim (Bool-cases (is_in x ys)) [
      | inl old ↦ ground (arith, grows x old, h.0)
      | inr new ↦ (new, rest)
    ]

module _ {F : Type 0} ⦃py : Host F⦄ where
  initial-IsSound :
      (start : Fields F) (before : Findings F)
      → initial start ≡ ok before
      → Distinct before.anchor_queue
      → IsSound before
  unfolding initial
  initial-IsSound start before begun distinct =
      let (queue, _, a) = >>=-eq-ok (need "anchor_queue" start) _ begun in
      let (anchors, _, b) = >>=-eq-ok (each queue) _ a in
      let (anchor_queue, _, c) = >>=-eq-ok (id_texts anchors) _ b in
      let (depths, _, d) = >>=-eq-ok (first_depths start) _ c in
      let (visual, _, e) =
        >>=-eq-ok (each (or_value (get "manual_visual_queue" start) (arr nil))) _ d in
      let (manual, _, made) = >>=-eq-ok (id_texts visual) _ e in
      subst (λ x. Distinct x.anchor_queue → IsSound x) (ok_injective made)
        (λ h. (h, Apart-nil anchor_queue)) distinct

  state_from-IsSound :
      (es : List (Fields F)) (s : RuntimeState F) (before : Findings F)
      → state_from es ≡ ok s
      → initial s.start ≡ ok before
      → Distinct before.anchor_queue
      → IsSound s.progress
  unfolding state_from
  state_from-IsSound [] s before done begun distinct = cc
  state_from-IsSound (first ∷ rest) s before done begun distinct =
      let (payload, paid, opened) = >>=-eq-ok (need "payload" first) _ done in
      let (start, is_start, starts) = >>=-eq-ok (as_object payload) _ opened in
      let (before', is_before, ran) = >>=-eq-ok (initial start) _ starts in
      let (after, is_after, made) = >>=-eq-ok (replay rest before') _ ran in
      subst (λ x. initial x.start ≡ ok before → IsSound x.progress) (ok_injective made)
        (λ k. (replay-Advances rest before' after is_after).2 (
          subst IsSound (ok_injective (sym k ∙ is_before))
            (initial-IsSound start before k distinct)))
        begun

module _ {F : Type 0} ⦃py : Host F⦄ (codec : Codec F) where
  -- Where an investigation has a state, its first queue holds no anchor twice, and its log has grown
  -- to one that has a state too: in both states no anchor waits twice and none that waits is closed;
  -- and an anchor that was closed in the first is closed in the second, and does not wait there.
  pub state-IsSound :
      (file later : Option Text) (more : List (Fields F)) (s t : RuntimeState F)
      (before : Findings F)
      → state codec file ≡ ok s
      → initial s.start ≡ ok before
      → Distinct before.anchor_queue
      → read codec later ≡ ok (s.events ++ more)
      → state codec later ≡ ok t
      → IsSound s.progress
        × IsSound t.progress
        × Within s.progress.anchor_closed t.progress.anchor_closed
        × Apart t.progress.anchor_queue s.progress.anchor_closed
  unfolding state grown
  state-IsSound file later more s t before done begun distinct reads after =
      let (es, _, made) = >>=-eq-ok (read codec file) _ done in
      let sound = state_from-IsSound es s before made begun distinct in
      let (u, replayed, same) =
        >>=-eq-ok (replay more s.progress) _
          (sym (state-grown codec file later more s done reads) ∙ after) in
      let (closed, _, keeps) = replay-Advances more s.progress u replayed in
      subst
        (λ x.
          IsSound s.progress
          × IsSound x.progress
          × Within s.progress.anchor_closed x.progress.anchor_closed
          × Apart x.progress.anchor_queue s.progress.anchor_closed)
        (ok_injective same)
        (sound, keeps sound, Within-refl _ _ closed, Apart-earlier _ _ _ (keeps sound).1 closed)
