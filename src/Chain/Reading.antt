-- ===== src/Chain/Reading.antt =====
-- What the reading loop accepts, and that it accepts what `append` writes.
use customs_buyer_intelligen.Prelude.{
  ℕ, suc, ◌+◌, String, true, List, [], ◌∷◌, ◌++◌, none, some, length, Option, ◌≡◌, refl, ap, subst,
  arith, eqb_refl, eq_refl,
}
use customs_buyer_intelligen.Python.{
  pos, Value, str, obj, Fields, Host, get, find, equals_int, equals_str, eqb_ℤ, without,
  equals_str-eq,
}
use customs_buyer_intelligen.Chain.Lines.{Text, read_lines}
use customs_buyer_intelligen.Chain.Outcome.{Error, ok, err, >>=-eq-ok}
use customs_buyer_intelligen.Chain.Defs.{
  Codec, RoundTrips, zeros, digest, decode, unsigned_digest, verify, read_event, read_from, read,
  last_hash, unsigned, signed,
}

module _ {F : Type 0} ⦃py : Host F⦄ (codec : Codec F) where
  -- The event stands at place n, names `previous`, and carries its own hash.
  pub record IsLink (n : ℕ) (previous : String) (event : Fields F) : Type 0 where
    pub numbered : equals_int (get "seq" event) (pos n) ≡ true
    pub linked : equals_str (get "prev_hash" event) previous ≡ true
    pub hashed : equals_str (get "event_hash" event) (unsigned_digest codec event) ≡ true

  -- Events from place n on, each linked to the one before.
  abbrev pub IsChain : ℕ → String → List (Fields F) → Type 0
  IsChain n previous [] = Unit
  IsChain n previous (event ∷ events) =
      IsLink n previous event × IsChain (suc n) (unsigned_digest codec event) events

  -- The hash that the next event must name.
  abbrev pub end_hash : String → List (Fields F) → String
  end_hash previous [] = previous
  end_hash previous (event ∷ events) = end_hash (unsigned_digest codec event) events

  pub verify-IsLink :
      (n : ℕ) (previous : String) (event e : Fields F)
      → verify codec n previous event ≡ ok e
      → (e ≡ event) × IsLink n previous event
  unfolding verify
  verify-IsLink n previous event e h = ground arith

  pub verify_of_IsLink :
      (n : ℕ) (previous : String) (event : Fields F)
      → IsLink n previous event
      → verify codec n previous event ≡ ok event
  unfolding verify
  verify_of_IsLink n previous event h = rw (h.numbered, h.linked, h.hashed)

  -- The last event's stored hash is the hash that it was verified to have.
  pub last_hash-end_hash :
      (n : ℕ) (previous : String) (es : List (Fields F))
      → IsChain n previous es
      → last_hash (str previous) es ≡ str (end_hash previous es)
  unfolding last_hash
  last_hash-end_hash n previous [] h = refl
  last_hash-end_hash n previous (e ∷ es) h =
      rw (equals_str-eq (get "event_hash" e) (unsigned_digest codec e) h.0.hashed)
        (last_hash-end_hash (suc n) (unsigned_digest codec e) es h.1)

  read_event-IsLink :
      (n : ℕ) (previous : String) (l : Text) (e : Fields F)
      → read_event codec n previous l ≡ ok e
      → IsLink n previous e
  unfolding read_event
  read_event-IsLink n previous l e h =
      let (d, decoded, checked) = >>=-eq-ok (decode codec n l) (verify codec n previous) h in
      let (same, link) = verify-IsLink n previous d e checked in rw same link

  read_from-cons :
      (n : ℕ) (previous : String) (l : Text) (ls : List Text) (es : List (Fields F))
      → read_from codec n previous (l ∷ ls) ≡ ok es
      → (e : Fields F) × (rest : List (Fields F)) × (read_event codec n previous l ≡ ok e)
        × (read_from codec (suc n) (unsigned_digest codec e) ls ≡ ok rest)
        × (e ∷ rest ≡ es)
  unfolding read_from
  read_from-cons n previous l ls es h =
      let (e, first, h') = >>=-eq-ok (read_event codec n previous l) _ h in
      let (rest, later, h'') =
        >>=-eq-ok (read_from codec (suc n) (unsigned_digest codec e) ls) (λ r. ok (e ∷ r)) h' in
      (e, rest, first, later, cc)

  -- What the loop accepts is a chain, with an event for each line.
  pub read_from-IsChain :
      (n : ℕ) (previous : String) (ls : List Text) (es : List (Fields F))
      → read_from codec n previous ls ≡ ok es
      → IsChain n previous es × (length es ≡ length ls)
  unfolding read_from
  read_from-IsChain n previous [] [] h = (tt, refl)
  read_from-IsChain n previous [] (e ∷ es) h = cc
  read_from-IsChain n previous (l ∷ ls) es h =
      let (e, rest, first, later, same) = read_from-cons n previous l ls es h in
      let (chain, count) = read_from-IsChain (suc n) (unsigned_digest codec e) ls rest later in
      rw (← same) ((read_event-IsLink n previous l e first, chain), ap suc count)

  at_place :
      (i j : ℕ) (previous : String) (l : Text) (e : Fields F)
      → i ≡ j
      → read_event codec i previous l ≡ ok e
      → read_event codec j previous l ≡ ok e
  at_place i j previous l e p h = subst (λ k. read_event codec k previous l ≡ ok e) p h

  refused_at :
      (i j : ℕ) (previous : String) (l : Text) (x : Error)
      → i ≡ j
      → read_event codec i previous l ≡ err x
      → read_event codec j previous l ≡ err x
  refused_at i j previous l x p h = subst (λ k. read_event codec k previous l ≡ err x) p h

  -- One more line is one more event.
  pub read_from-append :
      (n : ℕ) (previous : String) (ls : List Text) (l : Text) (es : List (Fields F))
      (new : Fields F)
      → read_from codec n previous ls ≡ ok es
      → read_event codec (n + length ls) (end_hash previous es) l ≡ ok new
      → read_from codec n previous (ls ++ l ∷ []) ≡ ok (es ++ new ∷ [])
  unfolding read_from
  read_from-append n previous [] l [] new h k =
      rw (at_place (n + 0) n previous l new (omega arith) k)
  read_from-append n previous [] l (e ∷ es) new h k = cc
  read_from-append n previous (m ∷ ls) l es new h k =
      let (e, rest, first, later, same) = read_from-cons n previous m ls es h in
      let k' = rw (← same) at k in
      rw (← same) (
        rw (
          first,
          read_from-append (suc n) (unsigned_digest codec e) ls l rest new later (
              at_place (n + suc (length ls)) (suc n + length ls)
                (end_hash (unsigned_digest codec e) rest) l new (omega arith) k'),
        ))

  -- A line that is refused ends the loop, whatever stands below it.
  pub read_from-refused :
      (n : ℕ) (previous : String) (ls : List Text) (l : Text) (below : List Text)
      (es : List (Fields F)) (x : Error)
      → read_from codec n previous ls ≡ ok es
      → read_event codec (n + length ls) (end_hash previous es) l ≡ err x
      → read_from codec n previous (ls ++ l ∷ below) ≡ err x
  unfolding read_from
  read_from-refused n previous [] l below [] x h k =
      rw (refused_at (n + 0) n previous l x (omega arith) k)
  read_from-refused n previous [] l below (e ∷ es) x h k = cc
  read_from-refused n previous (m ∷ ls) l below es x h k =
      let (e, rest, first, later, same) = read_from-cons n previous m ls es h in
      let k' = rw (← same) at k in
      rw (
        first,
        read_from-refused (suc n) (unsigned_digest codec e) ls l below rest x later (
            refused_at (n + suc (length ls)) (suc n + length ls)
              (end_hash (unsigned_digest codec e) rest) l x (omega arith) k'),
      )

  -- The event that is written is the link that the chain wants next.
  pub signed-IsLink :
      (n : ℕ) (previous event_type now : String) (payload : Value F)
      → IsLink n previous (signed codec n (str previous) event_type now payload)
  unfolding signed get find equals_int eqb_ℤ equals_str unsigned_digest without
  signed-IsLink n previous event_type now payload = record {
    numbered = eqb_refl n;
    linked = eq_refl previous;
    hashed = eq_refl (digest codec (obj (unsigned n (str previous) event_type now payload)));
  }

  -- Decoding gives the written event back.
  pub read_event_of_dumps :
      (rt : RoundTrips codec) (n : ℕ) (previous : String) (e : Fields F)
      → IsLink n previous e
      → read_event codec n previous (codec.dumps (obj e)) ≡ ok e
  unfolding read_event
  read_event_of_dumps rt n previous e h =
      rw (rt.loads-dumps (obj e), decode) (verify_of_IsLink n previous e h)

  -- The events that `read` returns are a chain from place 1 and 64 zeros.
  pub read-IsChain :
      (file : Option Text) (es : List (Fields F)) → read codec file ≡ ok es → IsChain 1 zeros es
  unfolding read
  read-IsChain none [] h = tt
  read-IsChain none (e ∷ es) h = cc
  read-IsChain (some text) es h = (read_from-IsChain 1 zeros (read_lines text) es h).0
