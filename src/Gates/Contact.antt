-- ===== src/Gates/Contact.antt =====
-- unified_runtime/contact_exhaustion.py: how ready the known routes make an outreach, and when the
-- search for contacts is over.
use customs_buyer_intelligen.Prelude.{
  String, Bool, true, false, not, ◌&&◌, ◌||◌, List, [], ◌∷◌, is_in, ◌==◌, if◌then◌else◌,
}
use customs_buyer_intelligen.Python.{
  Outcome, ok, raise, key_error, ◌>>=◌, Value, obj, Fields, Host, get, truthy, or_str, or_value,
  upper, upper_or,
}
use customs_buyer_intelligen.Gates.Values.{listed, is_profile}

-- Also `_CURRENT_FRESHNESS` of unified_runtime/route_reuse.py.
abbrev pub current_freshness : List String
current_freshness = "LIVE" ∷ "CURRENT" ∷ "CURRENT_CONFIRMED" ∷ "CURRENT_LIKELY" ∷ "RECENT" ∷ []

-- Also `_COMPANY_SCOPES` of unified_runtime/route_reuse.py.
abbrev pub company_scopes : List String
company_scopes = "ACCOUNT" ∷ "COMPANY" ∷ "BUYER" ∷ []

abbrev pub terminal_results : List String
terminal_results = "NEGATIVE_EXHAUSTED" ∷ "NOT_APPLICABLE_JUSTIFIED" ∷ []

-- The varying part of what `recompute_outreach_readiness` returns.
pub record Readiness : Type 0 where
  pub outreach_readiness : String
  pub company_route_ready : Bool
  pub named_route_ready : Bool

pub record GradePolicy : Type 0 where
  pub deep_contact_research : Bool
  pub company_route_required : Bool
  pub named_route_policy : String
  pub named_route_exhaustive : Bool

-- `_grade_policy`
unfoldable pub grade_policy : String → GradePolicy
grade_policy grade =
    if grade == "A+"
    then record {
      deep_contact_research = true;
      company_route_required = true;
      named_route_policy = "EXHAUSTIVE";
      named_route_exhaustive = true;
    }
    else if is_in grade ("A" ∷ "A-" ∷ [])
    then record {
      deep_contact_research = true;
      company_route_required = true;
      named_route_policy = "HIGH_PRIORITY";
      named_route_exhaustive = false;
    }
    else if grade == "B+"
    then record {
      deep_contact_research = true;
      company_route_required = true;
      named_route_policy = "EIV_DRIVEN";
      named_route_exhaustive = false;
    }
    else if is_in grade ("B" ∷ "B-" ∷ [])
    then record {
      deep_contact_research = false;
      company_route_required = false;
      named_route_policy = "STRATEGIC_ONLY";
      named_route_exhaustive = false;
    }
    else record {
      deep_contact_research = false;
      company_route_required = false;
      named_route_policy = "NONE";
      named_route_exhaustive = false;
    }

-- The varying part of what `plan_contact_exhaustion` returns.
pub record Plan : Type 0 where
  pub product_profile_id : String
  pub commercial_value_grade : String
  pub policy : GradePolicy
  pub company_ready : Bool
  pub named_ready : Bool
  pub company_route_source_families : List String
  pub named_route_source_families : List String

abbrev pub company_families : List String
company_families =
    "official_home" ∷ "official_contact" ∷ "official_about_footer_mobile"
    ∷ "official_documents_media" ∷ "google_maps_business" ∷ "local_maps" ∷ "official_social"
    ∷ "local_directory" ∷ "association_exhibition_chamber" ∷ []

abbrev pub named_families : List String
named_families =
    "official_team" ∷ "linkedin_people" ∷ "government_registry" ∷ "official_news_jobs"
    ∷ "association_exhibition_chamber" ∷ "public_professional_profiles"
    ∷ "supplier_peer_partner_referral" ∷ "reverse_phone_email" ∷ []

-- `any(test(x) for x in xs)`
abbrev pub any : {A : Type 0} → (A → Bool) → List A → Bool
any test [] = false
any test (x ∷ xs) = test x || any test xs

-- The branches on the two flags.
abbrev pub readiness_of : Bool → Bool → String
readiness_of company named =
    if named
    then "NAMED_ROUTE_READY"
    else if company
    then "COMPANY_ROUTE_READY"
    else "IDENTITY_ONLY"

module _ {F : Type 0} ⦃py : Host F⦄ where
  -- `_route_is_current`
  unfoldable pub is_current : Fields F → Bool
  unfolding upper_or get
  is_current route = is_in (upper_or "UNKNOWN" (get "freshness" route)) current_freshness

  -- The test of `company_ready`.
  unfoldable pub ready_company_route : Value F → Bool
  unfolding truthy get upper_or is_current
  ready_company_route (obj route) =
      truthy (get "verified" route)
      && truthy (get "route_eligible" route)
      && is_in (upper_or "" (get "owner_scope" route)) company_scopes
      && not (truthy (get "guessed" route))
      && is_current route
  ready_company_route _ = false

  -- The test of `named_ready`.
  unfoldable pub ready_named_route : Value F → Bool
  unfolding truthy get is_current
  ready_named_route (obj route) =
      truthy (get "verified" route)
      && truthy (get "route_eligible" route)
      && not (truthy (get "guessed" route))
      && truthy (get "current_company_association" route)
      && truthy (get "role_relevant" route)
      && is_current route
  ready_named_route _ = false

  -- `recompute_outreach_readiness`
  unfoldable pub recompute_readiness : Fields F → Outcome Readiness
  unfolding listed get
  recompute_readiness route_state = do
    company_routes ← listed (get "company_routes" route_state)
    named_routes ← listed (get "named_routes" route_state)
    let company = any ready_company_route company_routes
    let named = any ready_named_route named_routes
    ok (record {
      outreach_readiness = readiness_of company named;
      company_route_ready = company;
      named_route_ready = named;
    })

  unfoldable pub is_terminal : Value F → Bool
  unfolding or_str get upper
  is_terminal (obj receipt) =
      is_in (upper py.tables (or_str "" (get "result" receipt))) terminal_results
  is_terminal _ = false

  -- The loop over the receipts, and the test before it that there are some.
  unfoldable pub all_terminal : List (Value F) → Bool
  unfolding is_terminal
  all_terminal [] = true
  all_terminal (receipt ∷ receipts) = is_terminal receipt && all_terminal receipts

  unfoldable pub receipts_exhausted : List (Value F) → Bool
  unfolding all_terminal
  receipts_exhausted [] = false
  receipts_exhausted (receipt ∷ receipts) = all_terminal (receipt ∷ receipts)

  -- The tests of the two statuses.
  unfoldable pub has_named_route : Fields F → Bool
  unfolding or_str get
  has_named_route plan_state =
      is_in (or_str "" (get "named_route_status" plan_state))
        ("NAMED_ROUTE_READY" ∷ "FOLLOW_UP_READY" ∷ "SEND_READY" ∷ [])

  unfoldable pub has_company_route : Fields F → Bool
  unfolding or_str get
  has_company_route plan_state =
      is_in (or_str "" (get "company_route_status" plan_state))
        ("COMPANY_ROUTE_READY" ∷ "FOLLOW_UP_READY" ∷ "SEND_READY" ∷ [])

  -- `contact_exhaustion_complete`
  unfoldable pub exhaustion_complete : Fields F → Outcome Bool
  exhaustion_complete plan_state =
      if has_named_route plan_state
      then ok true
      else if has_company_route plan_state
      then ok true
      else do
        receipts ← listed (get "applicable_material_source_receipts" plan_state)
        ok (receipts_exhausted receipts)

  -- `plan_contact_exhaustion`
  unfoldable pub plan_exhaustion : Fields F → Fields F → Outcome Plan
  unfolding or_str or_value get upper is_profile grade_policy
  plan_exhaustion opportunity current_routes =
      let grade = or_str "NQ" (get "commercial_value_grade" opportunity) in
      let profile_id = upper py.tables (or_str "" (get "product_profile_id" opportunity)) in
      let readiness = or_str "" (
        or_value (get "outreach_readiness" opportunity)
          (get "outreach_readiness" current_routes)) in
      let company =
        is_in readiness
          ("COMPANY_ROUTE_READY" ∷ "NAMED_ROUTE_READY" ∷ "FOLLOW_UP_READY" ∷ "SEND_READY" ∷ []) in
      let named = is_in readiness ("NAMED_ROUTE_READY" ∷ "FOLLOW_UP_READY" ∷ "SEND_READY" ∷ []) in
      if not (is_profile py.tables profile_id)
      then raise (key_error profile_id)
      else ok (record {
        product_profile_id = profile_id;
        commercial_value_grade = grade;
        policy = grade_policy grade;
        company_ready = company;
        named_ready = named;
        company_route_source_families = if company then [] else company_families;
        named_route_source_families =
            if named || (grade_policy grade).named_route_policy == "NONE"
            then []
            else named_families;
      })
