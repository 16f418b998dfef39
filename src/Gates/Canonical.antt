-- ===== src/Gates/Canonical.antt =====
-- unified_runtime/canonical_resolution_gate.py: what proof of identity lets an opportunity be made.
use customs_buyer_intelligen.Prelude.{
  String, Bool, true, false, not, ◌||◌, List, [], ◌∷◌, Option, none, some, is_in, ◌==◌,
  if◌then◌else◌, ◌≡◌, refl, ◌↔◌, Bool-cases, inl, inr, eq_iff, subst, sym, when, ◌⊕◌, is_empty,
  is_empty-append, is_empty-when, is_empty-unless,
}
use customs_buyer_intelligen.Python.{Fields, Host, get, truthy, stripped, upper_or}

abbrev pub allowed_authorities : List String
allowed_authorities =
    "EXACT_ACCOUNT_ID" ∷ "TAX_ID" ∷ "EXTERNAL_ID" ∷ "PRIMARY_LEGAL_NAME_COUNTRY" ∷ "EXPLICIT_NEW_ID"
    ∷ []

abbrev pub allowed_statuses : List String
allowed_statuses = "CONFIRMED" ∷ "CREATED" ∷ []

-- `text or None`
abbrev pub or_none : String → Option String
or_none s = if s == "" then none else some s

-- The branch on the status and the flag `ambiguous`.
unfoldable pub status_blockers : String → Bool → List String
status_blockers status ambiguous =
    if status == "AMBIGUOUS" || ambiguous
    then "CANONICAL_RESOLUTION_AMBIGUOUS" ∷ []
    else when (not (is_in status allowed_statuses)) "CANONICAL_STATUS_NOT_CONFIRMED"

-- The returned dict; its five policy flags are constants.
pub record Resolution : Type 0 where
  pub canonical_status : Option String
  pub canonical_account_id : Option String
  pub resolver_authority : Option String
  pub opportunity_creation_allowed : Bool
  pub blockers : List String

ambiguous_is_not_allowed :
    (status : String) → (status == "AMBIGUOUS") ≡ true → is_in status allowed_statuses ≡ false
ambiguous_is_not_allowed status h =
    subst (λ s. is_in s allowed_statuses ≡ false) (sym ((eq_iff status "AMBIGUOUS").0 h)) refl

status_blockers_iff :
    (status : String) (ambiguous : Bool)
    → (is_empty (status_blockers status ambiguous) ≡ true)
      ↔ ((ambiguous ≡ false) × (is_in status allowed_statuses ≡ true))
unfolding status_blockers
status_blockers_iff status true = elim (Bool-cases (status == "AMBIGUOUS")) [
  | inl h ↦ rw h (λ k. cc, λ k. cc)
  | inr h ↦ rw h (λ k. cc, λ k. cc)
]
status_blockers_iff status false = elim (Bool-cases (status == "AMBIGUOUS")) [
  | inl h ↦ rw (h, ambiguous_is_not_allowed status h) (λ k. cc, λ k. cc)
  | inr h ↦ rw h (λ k. (refl, (is_empty-unless _ _).0 k), λ k. (is_empty-unless _ _).1 k.1)
]

module _ {F : Type 0} ⦃py : Host F⦄ (proof : Fields F) where
  unfoldable pub resolution_blockers : List String
  unfolding truthy status_blockers
  resolution_blockers =
      let status = upper_or "" (get "canonical_status" proof) in
      when (not (truthy (get "resolver_is_existing_production_authority" proof)))
        "PRODUCTION_CANONICAL_AUTHORITY_NOT_PROVEN"
      ⊕ status_blockers status (truthy (get "ambiguous" proof))
      ⊕ when (stripped (get "canonical_account_id" proof) == "") "CANONICAL_ACCOUNT_ID_MISSING"
      ⊕ when (not (is_in (upper_or "" (get "resolver_authority" proof)) allowed_authorities))
          "RESOLUTION_AUTHORITY_NOT_ALLOWED"
      ⊕ when (truthy (get "address_only_match" proof)) "ADDRESS_ONLY_MATCH_FORBIDDEN"
      ⊕ when (truthy (get "alias_only_match" proof)) "ALIAS_ONLY_MATCH_FORBIDDEN"
      ⊕ when (truthy (get "tax_conflict" proof)) "TAX_ID_CONFLICT"
      ⊕ when (truthy (get "country_conflict" proof)) "COUNTRY_CONFLICT"

  -- `validate_canonical_resolution_proof`, for a proof that is a dict.
  unfoldable pub validate_resolution : Resolution
  unfolding resolution_blockers
  validate_resolution = record {
    canonical_status = or_none (upper_or "" (get "canonical_status" proof));
    canonical_account_id = or_none (stripped (get "canonical_account_id" proof));
    resolver_authority = or_none (upper_or "" (get "resolver_authority" proof));
    opportunity_creation_allowed = is_empty resolution_blockers;
    blockers = resolution_blockers;
  }

  -- What it takes to create an opportunity.
  pub record IsResolved : Type 0 where
    pub by_production : truthy (get "resolver_is_existing_production_authority" proof) ≡ true
    pub unambiguous : truthy (get "ambiguous" proof) ≡ false
    pub confirmed : is_in (upper_or "" (get "canonical_status" proof)) allowed_statuses ≡ true
    pub identified : (stripped (get "canonical_account_id" proof) == "") ≡ false
    pub authorised : is_in (upper_or "" (get "resolver_authority" proof)) allowed_authorities ≡ true
    pub no_address_match : truthy (get "address_only_match" proof) ≡ false
    pub no_alias_match : truthy (get "alias_only_match" proof) ≡ false
    pub no_tax_conflict : truthy (get "tax_conflict" proof) ≡ false
    pub no_country_conflict : truthy (get "country_conflict" proof) ≡ false

  IsResolved-allowed : IsResolved → validate_resolution.opportunity_creation_allowed ≡ true
  unfolding validate_resolution
  IsResolved-allowed h = (is_empty-append _ _).1 (
    (is_empty-unless _ _).1 h.by_production,
    (is_empty-append _ _).1 (
      (status_blockers_iff _ _).1 (h.unambiguous, h.confirmed),
      (is_empty-append _ _).1 (
        (is_empty-when _ _).1 h.identified,
        (is_empty-append _ _).1 (
          (is_empty-unless _ _).1 h.authorised,
          (is_empty-append _ _).1 (
            (is_empty-when _ _).1 h.no_address_match,
            (is_empty-append _ _).1 (
              (is_empty-when _ _).1 h.no_alias_match,
              (is_empty-append _ _).1 (
                (is_empty-when _ _).1 h.no_tax_conflict,
                (is_empty-when _ _).1 h.no_country_conflict,
              ),
            ),
          ),
        ),
      ),
    ),
  )

  allowed-IsResolved : validate_resolution.opportunity_creation_allowed ≡ true → IsResolved
  unfolding validate_resolution
  allowed-IsResolved h =
      let (h0, r0) = (is_empty-append _ _).0 h in
      let (h1, r1) = (is_empty-append _ _).0 r0 in
      let (h2, r2) = (is_empty-append _ _).0 r1 in
      let (h3, r3) = (is_empty-append _ _).0 r2 in
      let (h4, r4) = (is_empty-append _ _).0 r3 in
      let (h5, r5) = (is_empty-append _ _).0 r4 in
      let (h6, h7) = (is_empty-append _ _).0 r5 in
      let (clear, confirmed') = (status_blockers_iff _ _).0 h1 in
      record {
        by_production = (is_empty-unless _ _).0 h0;
        unambiguous = clear;
        confirmed = confirmed';
        identified = (is_empty-when _ _).0 h2;
        authorised = (is_empty-unless _ _).0 h3;
        no_address_match = (is_empty-when _ _).0 h4;
        no_alias_match = (is_empty-when _ _).0 h5;
        no_tax_conflict = (is_empty-when _ _).0 h6;
        no_country_conflict = (is_empty-when _ _).0 h7;
      }

  -- An opportunity may be created exactly when the production authority proved the identity: its
  -- status is CONFIRMED or CREATED and not ambiguous, it has an account and an allowed authority, no
  -- match by address or alias alone, and no conflict of tax number or country.
  pub validate_resolution_iff :
      (validate_resolution.opportunity_creation_allowed ≡ true) ↔ IsResolved
  validate_resolution_iff = (allowed-IsResolved, IsResolved-allowed)
