-- ===== src/Session/Tail.antt =====
-- `append_if_tail`: an event is written only on the log that its writer had evaluated.
use customs_buyer_intelligen.Prelude.{
  String, List, [], ◌∷◌, ◌++◌, some, ◌≡◌, refl, ◌⊎◌, inl, inr, Bool-cases, ◌==◌, eq_iff,
  if◌then◌else◌,
}
use customs_buyer_intelligen.Python.{Value, obj, Fields, Host}
use customs_buyer_intelligen.Chain.{
  Text, IsPlain, ok, err, invalid, Codec, RoundTrips, zeros, unsigned_digest,
}
use customs_buyer_intelligen.Chain.Reading.{end_hash}
use customs_buyer_intelligen.Session.{Row, read, append, append_if_tail}
use customs_buyer_intelligen.Session.Appending.{
  IsLog, next_event, read_after_append, append-eq, tail_of_read,
}

module _ {F : Type 0} ⦃py : Host F⦄ (codec : Codec F) where
  -- With a tail that is still the expected one it is `append`; else it is refused.
  pub append_if_tail-eq :
      (sanitization : Value F) (expected : String) (row : Row F) (text : Text) (ls : List Text)
      (es : List (Fields F))
      → IsLog text ls
      → read codec (some text) ≡ ok es
      → append_if_tail codec sanitization expected row (some text) ≡ (
          if end_hash codec zeros es == expected
          then append codec sanitization row (some text)
          else err (invalid "investigation changed after evaluation; retry required"))
  unfolding append_if_tail
  append_if_tail-eq sanitization expected row text ls es log h =
      elim (Bool-cases (end_hash codec zeros es == expected)) [
        | inl same ↦
            rw (h, tail_of_read codec text ls es log h, same)
              (rw (
                append-eq codec sanitization row text ls es log h,
                (eq_iff (end_hash codec zeros es) expected).0 same,
              ))
        | inr other ↦ rw (h, tail_of_read codec text ls es log h, other)
      ]

  end_hash-append :
      (previous : String) (es : List (Fields F)) (e : Fields F)
      → end_hash codec previous (es ++ e ∷ []) ≡ unsigned_digest codec e
  end_hash-append previous [] e = refl
  end_hash-append previous (f ∷ es) e = end_hash-append (unsigned_digest codec f) es e

  -- Of two writers that evaluated the same tail, the first is served, and then the second is refused,
  -- unless the first one's event has the very hash that it names as the hash before it.
  pub append_if_tail_race :
      (rt : RoundTrips codec) (sanitization sanitization' : Value F) (expected : String)
      (row row' : Row F) (text : Text) (ls : List Text) (es : List (Fields F))
      → IsLog text ls
      → read codec (some text) ≡ ok es
      → end_hash codec zeros es ≡ expected
      → IsPlain (codec.dumps (obj (next_event codec sanitization es row)))
      → let e = next_event codec sanitization es row in
        let after = text ++ (codec.dumps (obj e) ++ (10 ∷ [])) in
        (append_if_tail codec sanitization expected row (some text) ≡ ok (after, e))
        × ((append_if_tail codec sanitization' expected row' (some after)
              ≡ err (invalid "investigation changed after evaluation; retry required"))
            ⊎ (unsigned_digest codec e ≡ expected))
  append_if_tail_race rt sanitization sanitization' expected row row' text ls es log h tip plain =
      let e = next_event codec sanitization es row in
      let (appended, log', h') =
        read_after_append codec rt sanitization row text ls es log h plain in
      (
        rw (append_if_tail-eq sanitization expected row text ls es log h, (eq_iff _ _).1 tip)
            appended,
        elim (Bool-cases (unsigned_digest codec e == expected)) [
          | inl same ↦ inr ((eq_iff _ _).0 same)
          | inr other ↦ inl (
              rw (
                append_if_tail-eq sanitization' expected row' _ _ _ log' h',
                end_hash-append zeros es e,
                other,
              ))
        ],
      )
