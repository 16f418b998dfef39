-- ===== src/Wal/Outcomes.antt =====
-- What a recovery is evidence of, what it does not depend on, and that no key is missing in it.
use customs_buyer_intelligen.Prelude.{
  String, List, [], ◌∷◌, ◌++◌, All, some, ◌≡◌, refl, ap, ◌∙◌, ◌==◌, arith, Bool-cases, Option-cases,
  inl, inr,
}
use customs_buyer_intelligen.Python.{ok, >>=-eq-ok, ℤ, Value, Fields, Host, stripped}
use customs_buyer_intelligen.Wal.Contract.{Binding, binding_of, validate}
use customs_buyer_intelligen.Wal.Recovering.{
  recovered, wal_request_sha256, exact_events, event_seq, rebuilt, answer, from_single, from_exact,
  recover_prepared,
}
use customs_buyer_intelligen.Wal.Exact.{IsFor, IsOnly, exact_events-IsOnly, exact_events_of_others}
use customs_buyer_intelligen.Wal.Proofs.{Holds, validate_iff}

module _ {F : Type 0} ⦃py : Host F⦄ (digest : Value F → String) where
  -- The one event that a recovery rests on.
  pub record Proven (tool : String) (arguments : Fields F) (correlation : String)
      (events : List (Fields F)) (result : Value F) (b : Binding) (event : Fields F) : Type 0 where
    pub bound : binding_of tool ≡ some b
    pub only : IsOnly digest b correlation (wal_request_sha256 digest tool arguments) event events
    pub holds : Holds b event
    pub rebuilds : rebuilt digest tool b event ≡ ok ([], result)

  answer-recovered :
      (b : Binding) (h correlation a : String) (e : Fields F) (r : List String × Value F)
      (h' c' p : String) (s : ℤ) (a' : String) (result : Value F)
      → answer digest b h correlation a e r ≡ ok (recovered h' c' p s a' result)
      → (r ≡ ([], result)) × (c' ≡ correlation) × (h' ≡ h)
  unfolding answer
  answer-recovered b h correlation a e (x ∷ xs, v) h' c' p s a' result q = cc
  answer-recovered b h correlation a e ([], v) h' c' p s a' result q =
      let (n, _, same) = >>=-eq-ok (event_seq digest e) _ q in (cc, cc, cc)

  from_single-recovered :
      (tool : String) (b : Binding) (h correlation : String) (e : Fields F) (h' c' p : String)
      (s : ℤ) (a : String) (result : Value F)
      → from_single digest tool b h correlation e ≡ ok (recovered h' c' p s a result)
      → Holds b e × (rebuilt digest tool b e ≡ ok ([], result)) × (c' ≡ correlation) × (h' ≡ h)
  unfolding from_single
  from_single-recovered tool b h correlation e h' c' p s a result q =
      elim (Bool-cases (validate b e).valid) [
        | inl good ↦
            let (r, built, answered) = >>=-eq-ok (rebuilt digest tool b e) _ (rw good at q) in
            let (pair, c, d) =
              answer-recovered b h correlation (validate b e).recovery_action e r h' c' p s a result
                answered in
            ((validate_iff b e).0 good, built ∙ ap ok pair, c, d)
        | inr bad ↦ cc (rw bad at q)
      ]

  from_exact-recovered :
      (tool : String) (b : Binding) (h correlation : String) (es : List (Fields F))
      (h' c' p : String) (s : ℤ) (a : String) (result : Value F)
      → from_exact digest tool b h correlation es ≡ ok (recovered h' c' p s a result)
      → (e : Fields F) × (es ≡ e ∷ [])
        × Holds b e
        × (rebuilt digest tool b e ≡ ok ([], result))
        × (c' ≡ correlation)
        × (h' ≡ h)
  unfolding from_exact
  from_exact-recovered tool b h correlation [] h' c' p s a result q = cc
  from_exact-recovered tool b h correlation (e ∷ []) h' c' p s a result q =
      let (x, y, z, w) = from_single-recovered tool b h correlation e h' c' p s a result q in
      (e, refl, x, y, z, w)
  from_exact-recovered tool b h correlation (e ∷ f ∷ es) h' c' p s a result q = cc

  -- A recovery rests on one durable event whose `event_type` is the mutation's, whose
  -- `correlation_id` is the given one, stripped, and whose `request_sha256` is, but for case, the hash
  -- of the very request; no event before or after it in the log has all three. The contract holds of
  -- it, and the result is rebuilt from it without a blocker.
  pub recover_prepared-Proven :
      (tool : String) (arguments : Fields F) (correlation_id : Value F) (events : List (Fields F))
      (h c p : String) (s : ℤ) (a : String) (result : Value F)
      → recover_prepared digest tool arguments correlation_id events
        ≡ ok (recovered h c p s a result)
      → (b : Binding) × (e : Fields F) × Proven tool arguments
          (stripped correlation_id)
          events
          result
          b
          e
        × (c ≡ stripped correlation_id)
        × (h ≡ wal_request_sha256 digest tool arguments)
  unfolding recover_prepared
  recover_prepared-Proven tool arguments correlation_id events h c p s a result q =
      elim (Option-cases (binding_of tool)) [
        | inl unknown ↦ cc (rw (unknown, recover_prepared) at q)
        | inr (b, known) ↦ elim (Bool-cases (stripped correlation_id == "")) [
          | inl blank ↦ cc (rw blank at (rw (known, recover_prepared) at q))
          | inr there ↦
              let (e, x, y, z, c', h') =
                from_exact-recovered tool b _ (stripped correlation_id) _ h c p s a result
                  (rw there at (rw (known, recover_prepared) at q)) in
              (
                b,
                e,
                record {
                  bound = known;
                  only = exact_events-IsOnly digest b _ _ events e x;
                  holds = y;
                  rebuilds = z;
                },
                c',
                h',
              )
        ]
      ]

  exact_events-append :
      (b : Binding) (correlation h : String) (es fs : List (Fields F))
      → exact_events digest b correlation h (es ++ fs)
        ≡ exact_events digest b correlation h es ++ exact_events digest b correlation h fs
  unfolding exact_events
  exact_events-append b correlation h [] fs = refl
  exact_events-append b correlation h (e ∷ es) fs =
      ground (arith, exact_events-append b correlation h es fs)

  -- For a tool with a binding, events that lack the mutation's type, the correlation or, but for case,
  -- the hash of the request change nothing: the recovery is the same with a run of them taken out of
  -- the log, wherever it stands.
  pub recover_prepared_noise :
      (tool : String) (arguments : Fields F) (correlation_id : Value F) (b : Binding)
      (es noise fs : List (Fields F))
      → binding_of tool ≡ some b
      → All
          (λ e. ¬ IsFor b (stripped correlation_id) (wal_request_sha256 digest tool arguments) e)
          noise
      → recover_prepared digest tool arguments correlation_id (es ++ (noise ++ fs))
        ≡ recover_prepared digest tool arguments correlation_id (es ++ fs)
  unfolding recover_prepared
  recover_prepared_noise tool arguments correlation_id b es noise fs known n =
      let correlation = stripped correlation_id in
      let h = wal_request_sha256 digest tool arguments in
      rw (known, recover_prepared)
        (rw (
          exact_events-append b correlation h es (noise ++ fs),
          exact_events-append b correlation h noise fs,
          exact_events_of_others digest b correlation h noise n,
          exact_events-append b correlation h es fs,
        ))
