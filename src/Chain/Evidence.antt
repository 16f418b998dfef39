-- ===== src/Chain/Evidence.antt =====
-- What a log that verifies is evidence of: its length and last hash fix the whole history.
use native.Mathlib.Decide.{ℕ_discrete}
use customs_buyer_intelligen.Prelude.{
  ℕ, suc, String, List, [], ◌∷◌, map, Option, some, length, ◌≡◌, ◌≢◌, refl, ap, sym, ◌∙◌, subst,
  ◌⊎◌, inl, inr, true, arith,
}
use customs_buyer_intelligen.Python.{
  Value, obj, Fields, Host, get, without, get-without, equals_str, equals_str_unique,
}
use customs_buyer_intelligen.Chain.Lines.{Text}
use customs_buyer_intelligen.Chain.Outcome.{ok}
use customs_buyer_intelligen.Chain.Defs.{Codec, RoundTrips, zeros, digest, unsigned_digest, read}
use customs_buyer_intelligen.Chain.Reading.{IsChain, end_hash, read-IsChain}

Text-discrete : Discrete Text
Text-discrete = hlevel ℕ_discrete

-- Two texts with one SHA-256.
abbrev pub Collision : {F : Type 0} → Codec F → Type 0
Collision codec = (a : Text) × (b : Text) × (a ≢ b) × (codec.sha256 a ≡ codec.sha256 b)

-- An event without the hash that is computed from the rest.
abbrev pub content : {F : Type 0} → Fields F → Fields F
content = without "event_hash"

module _ {F : Type 0} ⦃py : Host F⦄ (codec : Codec F) (rt : RoundTrips codec) where
  obj-injective : {a b : Fields F} → obj a ≡ obj b → a ≡ b
  obj-injective p = cc

  dumps-injective : (v w : Value F) → codec.dumps v ≡ codec.dumps w → v ≡ w
  dumps-injective v w p = some_eq (sym (rt.loads-dumps v) ∙ ap codec.loads p ∙ rt.loads-dumps w)
    where
      some_eq : {a b : Value F} → some a ≡ some b → a ≡ b
      some_eq q = cc

  content_of_digest :
      (e f : Fields F)
      → unsigned_digest codec e ≡ unsigned_digest codec f
      → Collision codec ⊎ (content e ≡ content f)
  unfolding unsigned_digest digest
  content_of_digest e f h =
      elim (Text-discrete (codec.dumps (obj (content e))) (codec.dumps (obj (content f)))) [
        | yes same ↦ inr (obj-injective (dumps-injective _ _ same))
        | no differ ↦ inl (codec.dumps (obj (content e)), codec.dumps (obj (content f)), differ, h)
      ]

  prev_hash-content : (e : Fields F) → get "prev_hash" e ≡ get "prev_hash" (content e)
  prev_hash-content e = sym (get-without "event_hash" "prev_hash" e)

  -- Chains of one length that end in one hash.
  pub chain_evidence :
      (n : ℕ) (p q : String) (es fs : List (Fields F))
      → IsChain codec n p es
      → IsChain codec n q fs
      → length es ≡ length fs
      → end_hash codec p es ≡ end_hash codec q fs
      → Collision codec ⊎ ((p ≡ q) × (map content es ≡ map content fs))
  chain_evidence n p q [] [] h k len tip = inr (tip, refl)
  chain_evidence n p q [] (f ∷ fs) h k len tip = absurd (omega arith)
  chain_evidence n p q (e ∷ es) [] h k len tip = absurd (omega arith)
  chain_evidence n p q (e ∷ es) (f ∷ fs) h k len tip =
      elim (chain_evidence (suc n) (unsigned_digest codec e) (unsigned_digest codec f) es fs h.1 k.1
        (omega arith) tip) [
          | inl found ↦ inl found
          | inr later ↦ elim (content_of_digest e f later.0) [
            | inl found ↦ inl found
            | inr same ↦ inr (previous same, cc (same, later.1))
          ]
        ]
    where
      previous : content e ≡ content f → p ≡ q
      previous same = equals_str_unique (get "prev_hash" e) p q h.0.linked (
          subst (λ v. equals_str v q ≡ true)
            (prev_hash-content f ∙ ap (get "prev_hash") (sym same) ∙ sym (prev_hash-content e))
            k.0.linked)

  -- Two files that both verify, hold as many events and end in the same hash hold the same events,
  -- but for their stored hashes, unless two texts with one SHA-256 come out.
  pub read_evidence :
      (file file' : Option Text) (es fs : List (Fields F))
      → read codec file ≡ ok es
      → read codec file' ≡ ok fs
      → length es ≡ length fs
      → end_hash codec zeros es ≡ end_hash codec zeros fs
      → Collision codec ⊎ (map content es ≡ map content fs)
  read_evidence file file' es fs h k len tip =
      elim (chain_evidence 1 zeros zeros es fs (read-IsChain codec file es h)
        (read-IsChain codec file' fs k) len tip) [ inl found ↦ inl found | inr same ↦ inr same.1 ]
