-- ===== src/Session/Prefix.antt =====
-- `read_valid_prefix` against `read`.
use customs_buyer_intelligen.Prelude.{
  ℕ, suc, String, List, [], ◌∷◌, Option, none, some, length, take, take-length, ◌∙◌, ◌≡◌, refl, ap,
  ◌⊎◌, inl, inr,
}
use customs_buyer_intelligen.Python.{Fields, Host}
use customs_buyer_intelligen.Chain.{
  Text, read_lines, Result-cases, Error, Result, ok, err, attribute_error, ◌>>=◌, Codec, zeros,
  unsigned_digest, read_event, read_from,
}
use customs_buyer_intelligen.Chain.Reading.{read_from-IsChain}
use customs_buyer_intelligen.Session.Header.{with_header-same}
use customs_buyer_intelligen.Session.{
  stopped, prefix_from, with_header, with_header?, read, valid_prefix,
}

module _ {F : Type 0} ⦃py : Host F⦄ (codec : Codec F) where
  -- What the prefix's loop says of the strict loop over the same lines.
  abbrev Describes : ℕ → String → List Text → Result (List (Fields F) × Option Error) → Type 0
  Describes n previous ls (err x) = (x ≡ attribute_error) × (read_from codec n previous ls ≡ err x)
  Describes n previous ls (ok (es, none)) = read_from codec n previous ls ≡ ok es
  Describes n previous ls (ok (es, some x)) =
      (read_from codec n previous (take (length es) ls) ≡ ok es)
      × (read_from codec n previous (take (suc (length es)) ls) ≡ err x)
      × (read_from codec n previous ls ≡ err x)

  Describes-cons :
      (n : ℕ) (previous : String) (l : Text) (ls : List Text) (e : Fields F)
      (r : Result (List (Fields F) × Option Error))
      → read_event codec n previous l ≡ ok e
      → Describes (suc n) (unsigned_digest codec e) ls r
      → Describes n previous (l ∷ ls) (r >>= λ (es, stop). ok (e ∷ es, stop))
  unfolding read_from
  Describes-cons n previous l ls e (err x) h d = (d.0, rw (h, d.1))
  Describes-cons n previous l ls e (ok (es, none)) h d = rw (h, d)
  Describes-cons n previous l ls e (ok (es, some x)) h d = (rw (h, d.0), rw (h, d.1), rw (h, d.2))

  Describes-refused :
      (n : ℕ) (previous : String) (l : Text) (ls : List Text) (x : Error)
      → read_event codec n previous l ≡ err x
      → Describes n previous (l ∷ ls) (stopped x)
  unfolding stopped read_from
  Describes-refused n previous l ls attribute_error h = (refl, rw h)
  Describes-refused n previous l ls x h = (refl, rw h, rw h)

  prefix_from-Describes :
      (n : ℕ) (previous : String) (ls : List Text)
      → Describes n previous ls (prefix_from codec n previous ls)
  unfolding prefix_from read_from
  prefix_from-Describes n previous [] = refl
  prefix_from-Describes n previous (l ∷ ls) = elim (Result-cases (read_event codec n previous l)) [
    | inl (e, h) ↦
        rw (h, prefix_from)
          (Describes-cons n previous l ls e (prefix_from codec (suc n) (unsigned_digest codec e) ls)
            h (prefix_from-Describes (suc n) (unsigned_digest codec e) ls))
    | inr (x, h) ↦ rw (h, prefix_from) (Describes-refused n previous l ls x h)
  ]

  -- What the result of `read_valid_prefix` says of the file.
  abbrev pub Tells : Option Text → Result (List (Fields F) × Option Error) → Type 0
  Tells file (err x) = (x ≡ attribute_error) × (read codec file ≡ err x)
  Tells file (ok (es, none)) = read codec file ≡ ok es
  Tells none (ok (es, some x)) = (es ≡ []) × (read codec none ≡ err x)
  Tells (some text) (ok (es, some x)) =
      (read codec (some text) ≡ err x)
      × (read_from codec 1 zeros (take (length es) (read_lines text)) ≡ ok es)
      × ((read_from codec 1 zeros (take (suc (length es)) (read_lines text)) ≡ err x)
          ⊎ ((read_from codec 1 zeros (read_lines text) ≡ ok es) × (with_header es ≡ err x)))

  Tells-with_header? :
      (text : Text) (r : Result (List (Fields F) × Option Error))
      → Describes 1 zeros (read_lines text) r
      → Tells (some text) (r >>= with_header?)
  unfolding read with_header?
  Tells-with_header? text (err x) d = (d.0, rw d.1)
  Tells-with_header? text (ok (es, some x)) d = (rw d.2, d.0, inl d.1)
  Tells-with_header? text (ok (es, none)) d = elim (Result-cases (with_header es)) [
    | inl (es', h) ↦ rw (h, with_header?) (rw d (h ∙ ap ok (with_header-same es es' h)))
    | inr (x, h) ↦ rw (h, with_header?) (rw d h, rw whole d, inr (d, h))
  ]
    where
      whole : take (length es) (read_lines text) ≡ read_lines text
      whole =
          rw (read_from-IsChain codec 1 zeros (read_lines text) es d).1
            (take-length (read_lines text))

  -- `read_valid_prefix` against `read` on any file: with no error it returns what `read` does. With an
  -- error `read` fails with it, the returned events are read from that many first lines, and either
  -- one line more fails with the error or all lines are read and only the header is missing. The
  -- exception of a line that is no JSON object leaves both.
  pub valid_prefix-Tells : (file : Option Text) → Tells file (valid_prefix codec file)
  unfolding valid_prefix read
  valid_prefix-Tells none = (refl, refl)
  valid_prefix-Tells (some text) =
      Tells-with_header? text _ (prefix_from-Describes 1 zeros (read_lines text))
