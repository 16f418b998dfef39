-- ===== src/Session/Appending.antt =====
-- The writers of the session log: one event, a batch, and one event on a known tail.
use customs_buyer_intelligen.Prelude.{
  ℕ, ◌+◌, String, List, [], ◌∷◌, ◌++◌, All, some, length, ◌≡◌, refl, ap, subst, arith, eq_refl,
  eqb_refl, sym, ◌∙◌, inl, inr, Bool-cases,
}
use customs_buyer_intelligen.Python.{
  Value, str, obj, Fields, Host, get, find, truthy, equals_str, equals_int, eqb_ℤ, without,
}
use customs_buyer_intelligen.Chain.{
  Text, IsPlain, unlines, unlines-append, read_lines-unlines, All-append, ok, >>=-eq-ok, Codec,
  RoundTrips, zeros, unsigned_digest, read_event, read_from, last_hash,
}
use customs_buyer_intelligen.Chain.Reading.{
  IsLink, end_hash, last_hash-end_hash, read_from-IsChain, read_from-append, read_event_of_dumps,
}
use customs_buyer_intelligen.Session.Header.{with_header-same, with_header-append}
use customs_buyer_intelligen.Session.{Row, event, with_header, read, append}

-- A session file of whole lines, none of which `splitlines` breaks.
abbrev pub IsLog : Text → List Text → Type 0
IsLog text ls = (text ≡ unlines ls) × All IsPlain ls

module _ {F : Type 0} ⦃py : Host F⦄ (codec : Codec F) where
  -- The event that is written is the link that the chain wants next.
  event-IsLink :
      (sanitization : Value F) (n : ℕ) (previous : String) (row : Row F)
      → IsLink codec n previous (event codec sanitization n (str previous) row)
  unfolding event get find equals_int eqb_ℤ equals_str unsigned_digest without
  event-IsLink sanitization n previous row = elim (Bool-cases (truthy sanitization)) [
    | inl kept ↦
        rw kept (record { numbered = eqb_refl n; linked = eq_refl previous; hashed = eq_refl _ })
    | inr dropped ↦
        rw dropped (record { numbered = eqb_refl n; linked = eq_refl previous; hashed = eq_refl _ })
  ]

  -- The event that is written next after `es`.
  abbrev pub next_event : Value F → List (Fields F) → Row F → Fields F
  next_event sanitization es row =
      event codec sanitization (length es + 1) (str (end_hash codec zeros es)) row

  pub read_from_of_read :
      (text : Text) (ls : List Text) (es : List (Fields F))
      → IsLog text ls
      → read codec (some text) ≡ ok es
      → (read_from codec 1 zeros ls ≡ ok es) × (with_header es ≡ ok es)
  unfolding read
  read_from_of_read text ls es log h =
      let h' = rw (log.0, read_lines-unlines ls log.1) at h in
      let (fs, looped, headed) = >>=-eq-ok (read_from codec 1 zeros ls) with_header h' in
      let same = with_header-same fs es headed in (rw same looped, rw same (headed ∙ ap ok same))

  read_of_read_from :
      (text : Text) (ls : List Text) (es : List (Fields F))
      → IsLog text ls
      → read_from codec 1 zeros ls ≡ ok es
      → with_header es ≡ ok es
      → read codec (some text) ≡ ok es
  unfolding read
  read_of_read_from text ls es log looped headed =
      rw (log.0, read_lines-unlines ls log.1, looped) headed

  pub tail_of_read :
      (text : Text) (ls : List Text) (es : List (Fields F))
      → IsLog text ls
      → read codec (some text) ≡ ok es
      → last_hash (str zeros) es ≡ str (end_hash codec zeros es)
  tail_of_read text ls es log h =
      last_hash-end_hash codec 1 zeros es
        (read_from-IsChain codec 1 zeros ls es (read_from_of_read text ls es log h).0).0

  pub last_hash-append :
      (start : Value F) (es : List (Fields F)) (e : Fields F)
      → last_hash start (es ++ e ∷ []) ≡ get "event_hash" e
  unfolding last_hash
  last_hash-append start [] e = refl
  last_hash-append start (f ∷ es) e = last_hash-append (get "event_hash" f) es e

  pub append-eq :
      (sanitization : Value F) (row : Row F) (text : Text) (ls : List Text) (es : List (Fields F))
      → IsLog text ls
      → read codec (some text) ≡ ok es
      → append codec sanitization row (some text)
        ≡ ok (
          text ++ (codec.dumps (obj (next_event sanitization es row)) ++ (10 ∷ [])),
          next_event sanitization es row,
        )
  unfolding append
  append-eq sanitization row text ls es log h = rw (h, tail_of_read text ls es log h)

  reads_next :
      (rt : RoundTrips codec) (sanitization : Value F) (row : Row F) (ls : List Text)
      (es : List (Fields F))
      → read_from codec 1 zeros ls ≡ ok es
      → read_event codec
          (1 + length ls)
          (end_hash codec zeros es)
          (codec.dumps (obj (next_event sanitization es row)))
        ≡ ok (next_event sanitization es row)
  reads_next rt sanitization row ls es h =
      let (chain, count) = read_from-IsChain codec 1 zeros ls es h in
      let hash = end_hash codec zeros es in
      subst
        (λ n.
          read_event codec n hash (codec.dumps (obj (next_event sanitization es row)))
          ≡ ok (next_event sanitization es row))
        (omega (arith, count))
        (read_event_of_dumps codec rt (length es + 1) hash _
          (event-IsLink sanitization (length es + 1) hash row))

  -- On a session that reads, an append of an event whose text is one line succeeds, and the next
  -- read returns the events of before and the new one.
  pub read_after_append :
      (rt : RoundTrips codec) (sanitization : Value F) (row : Row F) (text : Text) (ls : List Text)
      (es : List (Fields F))
      → IsLog text ls
      → read codec (some text) ≡ ok es
      → IsPlain (codec.dumps (obj (next_event sanitization es row)))
      → let e = next_event sanitization es row in
        let after = text ++ (codec.dumps (obj e) ++ (10 ∷ [])) in
        (append codec sanitization row (some text) ≡ ok (after, e))
        × IsLog after (ls ++ codec.dumps (obj e) ∷ [])
        × (read codec (some after) ≡ ok (es ++ e ∷ []))
  read_after_append rt sanitization row text ls es log h plain =
      let e = next_event sanitization es row in
      let line = codec.dumps (obj e) in
      let after = text ++ (line ++ (10 ∷ [])) in
      let now_log : IsLog after (ls ++ line ∷ []) = (
        ap (λ t. t ++ (line ++ (10 ∷ []))) log.0 ∙ sym (unlines-append ls line),
        All-append IsPlain ls (line ∷ []) log.1 (plain, tt),
      ) in
      let (looped, headed) = read_from_of_read text ls es log h in
      (
        append-eq sanitization row text ls es log h,
        now_log,
        read_of_read_from after (ls ++ line ∷ []) (es ++ e ∷ []) now_log
            (read_from-append codec 1 zeros ls line es e looped
              (reads_next rt sanitization row ls es looped))
            (with_header-append es (e ∷ []) headed),
      )
