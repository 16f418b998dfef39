-- ===== src/Wal/Proofs.antt =====
-- When a durable event proves its mutation, and that its fields are then all there.
use customs_buyer_intelligen.Prelude.{
  String, Bool, true, false, not, List, [], ◌∷◌, All, ◌≡◌, refl, ◌==◌, ◌↔◌, Bool-cases, when,
  is_empty, is_empty-append, is_empty-when, is_empty-unless, inl, inr,
}
use customs_buyer_intelligen.Python.{Fields, Host, get, has, truthy, or_str, stripped}
use customs_buyer_intelligen.Wal.Contract.{
  Binding, Expected, path_value, is_missing, sha256_like, meets, missing_fields, failed_constraints,
  snapshot_blockers, validate,
}

module _ {F : Type 0} ⦃py : Host F⦄ where
  abbrev pub HasField : Fields F → String → Type 0
  HasField e k = is_missing (path_value e k) ≡ false

  abbrev pub Meets : Fields F → String × Expected → Type 0
  Meets e c = meets (path_value e c.0) c.1 ≡ true

  -- What the contract asks of an event, as a conjunction.
  pub record Holds (b : Binding) (e : Fields F) : Type 0 where
    pub typed : (or_str "" (get "event_type" e) == b.event_type) ≡ true
    pub correlated : (stripped (get "correlation_id" e) == "") ≡ false
    pub hashed : sha256_like (get "request_sha256" e) ≡ true
    pub stored :
        b.requires_exact_result_snapshot ≡ true
        → (has "result_snapshot" e ≡ true) × (sha256_like (get "result_snapshot_sha256" e) ≡ true)
    pub no_raw_key : truthy (get "raw_idempotency_key_persisted" e) ≡ false
    pub complete : All (HasField e) b.required_event_fields
    pub exact : All (Meets e) b.required_exact_values

  missing_fields_iff :
      (e : Fields F) (ks : List String)
      → (is_empty (missing_fields e ks) ≡ true) ↔ All (HasField e) ks
  unfolding missing_fields
  missing_fields_iff e [] = (λ _. tt, λ _. refl)
  missing_fields_iff e (k ∷ ks) = elim (Bool-cases (is_missing (path_value e k))) [
    | inl gone ↦ (λ h. cc (rw gone at h), λ h. cc (gone, h.0))
    | inr there ↦
        rw there (λ h. (refl, (missing_fields_iff e ks).0 h), λ h. (missing_fields_iff e ks).1 h.1)
  ]

  failed_constraints_iff :
      (e : Fields F) (ks : List (String × Expected))
      → (is_empty (failed_constraints e ks) ≡ true) ↔ All (Meets e) ks
  unfolding failed_constraints
  failed_constraints_iff e [] = (λ _. tt, λ _. refl)
  failed_constraints_iff e ((k, x) ∷ ks) = elim (Bool-cases (meets (path_value e k) x)) [
    | inl met ↦
        rw met
          (λ h. (refl, (failed_constraints_iff e ks).0 h), λ h. (failed_constraints_iff e ks).1 h.1)
    | inr failed ↦ (λ h. cc (rw failed at h), λ h. cc (failed, h.0))
  ]

  abbrev Stored : Bool → Fields F → Type 0
  Stored b e =
      b ≡ true
      → (has "result_snapshot" e ≡ true) × (sha256_like (get "result_snapshot_sha256" e) ≡ true)

  snapshot_blockers_iff :
      (b : Bool) (e : Fields F) → (is_empty (snapshot_blockers b e) ≡ true) ↔ Stored b e
  unfolding snapshot_blockers
  snapshot_blockers_iff false e = (λ h p. cc, λ _. refl)
  snapshot_blockers_iff true e = (
    λ h p.
        let (k, l) = (is_empty-append (when (not (has "result_snapshot" e)) _) _).0 h in
        ((is_empty-unless _ _).0 k, (is_empty-unless _ _).0 l),
    λ h.
        let (k, l) = h refl in
        (is_empty-append _ _).1 ((is_empty-unless _ _).1 k, (is_empty-unless _ _).1 l),
  )

  valid-Holds : (b : Binding) (e : Fields F) → (validate b e).valid ≡ true → Holds b e
  unfolding validate
  valid-Holds b e h =
      let (h0, r0) = (is_empty-append _ _).0 h in
      let (h1, r1) = (is_empty-append _ _).0 r0 in
      let (h2, r2) = (is_empty-append _ _).0 r1 in
      let (h3, r3) = (is_empty-append _ _).0 r2 in
      let (h4, r4) = (is_empty-append _ _).0 r3 in
      let (h5, h6) = (is_empty-append _ _).0 r4 in
      record {
        typed = (is_empty-unless _ _).0 h0;
        correlated = (is_empty-when _ _).0 h1;
        hashed = (is_empty-unless _ _).0 h2;
        stored = (snapshot_blockers_iff _ e).0 h3;
        no_raw_key = (is_empty-when _ _).0 h4;
        complete = (missing_fields_iff e _).0 h5;
        exact = (failed_constraints_iff e _).0 h6;
      }

  Holds-valid : (b : Binding) (e : Fields F) → Holds b e → (validate b e).valid ≡ true
  unfolding validate
  Holds-valid b e h = (is_empty-append _ _).1 (
    (is_empty-unless _ _).1 h.typed,
    (is_empty-append _ _).1 (
      (is_empty-when _ _).1 h.correlated,
      (is_empty-append _ _).1 (
        (is_empty-unless _ _).1 h.hashed,
        (is_empty-append _ _).1 (
          (snapshot_blockers_iff _ e).1 h.stored,
          (is_empty-append _ _).1 (
            (is_empty-when _ _).1 h.no_raw_key,
            (is_empty-append _ _).1
                ((missing_fields_iff e _).1 h.complete, (failed_constraints_iff e _).1 h.exact),
          ),
        ),
      ),
    ),
  )

  -- An event is accepted exactly when all that the contract asks of it holds.
  pub validate_iff : (b : Binding) (e : Fields F) → ((validate b e).valid ≡ true) ↔ Holds b e
  validate_iff b e = (valid-Holds b e, Holds-valid b e)
