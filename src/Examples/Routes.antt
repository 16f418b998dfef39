-- ===== src/Examples/Routes.antt =====
-- Gates at concrete payloads.
use customs_buyer_intelligen.Prelude.{is_in, ℕ, ◌+◌, true, [], ◌∷◌, ◌++◌, some, ◌≡◌, refl, ◌↔◌, ◌⊎◌}
use customs_buyer_intelligen.Python.{
  null, bool, str, arr, obj, nil, cons, Fields, field, end, ok, get, upper_or, stripped,
}
use customs_buyer_intelligen.Gates.Canonical.{
  validate_resolution, IsResolved, validate_resolution_iff,
}
use customs_buyer_intelligen.Gates.Contact.{
  Readiness, recompute_readiness, exhaustion_complete, has_named_route, has_company_route,
  receipts_exhausted, company_scopes,
}
use customs_buyer_intelligen.Gates.Values.{listed}
use customs_buyer_intelligen.Gates.Route.{Reuse, scope_of, reuse_route}
use customs_buyer_intelligen.Gates.Reuse.{
  IsReady, reuse_route-IsReady, reuse_route-recompute_readiness,
}
use customs_buyer_intelligen.Gates.Exhaustion.{IsExhausted, exhaustion_complete_iff}
use customs_buyer_intelligen.Gates.Lifecycle.{Transition, moved, validate_transition}
use customs_buyer_intelligen.Gates.Stages.{validate_transition_trans}
use customs_buyer_intelligen.Examples.Codec.{naturals}

abbrev identity : Fields ℕ
identity = field "canonical_status" (str " confirmed") (
    field "canonical_account_id" (str "C001") (
      field "resolver_authority" (str "TAX_ID")
        (field "resolver_is_existing_production_authority" (bool true) end)))

abbrev route : Fields ℕ
route = field "verified" (bool true) (
    field "route_eligible" (bool true)
      (field "freshness" (str "live") (field "owner_scope" (str "company") end)))

abbrev opportunity : Fields ℕ
opportunity = field "product_profile_id" (str "pvc") (field "account_id" (str "C001") end)

abbrev reused : Reuse ℕ
reused = record {
  route_id = null;
  account_id = str "C001";
  product_profile_id = "PVC";
  route_reusable = true;
  reuse_scope = some "ACCOUNT_LEVEL_COMPANY_ROUTE";
  blockers = [];
}

abbrev account : Fields ℕ
account = field "company_routes" (arr (cons (obj route) nil)) end

abbrev searched : Fields ℕ
searched =
    field "applicable_material_source_receipts"
      (arr (cons (obj (field "result" (str "negative_exhausted") end)) nil)) end

identity_runs : (validate_resolution identity).opportunity_creation_allowed ≡ true
unfolding validate_resolution get upper_or stripped
identity_runs = refl

reuse_runs : reuse_route route opportunity ≡ ok reused
unfolding reuse_route scope_of
reuse_runs = refl

search_runs : exhaustion_complete searched ≡ ok true
unfolding exhaustion_complete has_named_route has_company_route listed receipts_exhausted
search_runs = refl

lists_company : listed (get "company_routes" account) ≡ ok ([] ++ obj route ∷ [])
unfolding listed get
lists_company = refl

lists_named : listed (get "named_routes" account) ≡ ok []
unfolding listed get
lists_named = refl

scoped : is_in (upper_or "" (get "owner_scope" route)) company_scopes ≡ true
unfolding upper_or get
scoped = refl

found_to_ready :
    validate_transition {F = ℕ} (str "discovered") (str "SALES_READY")
    ≡ ok (moved "DISCOVERED" "SALES_READY" 0 5)
unfolding validate_transition
found_to_ready = refl

ready_to_audited :
    validate_transition {F = ℕ} (str "SALES_READY") (str "FULLY_AUDITED")
    ≡ ok (moved "SALES_READY" "FULLY_AUDITED" 5 8)
unfolding validate_transition
ready_to_audited = refl

stays :
    validate_transition {F = ℕ} (str "SALES_READY") (str "sales_ready ")
    ≡ ok (moved "SALES_READY" "SALES_READY" 5 5)
unfolding validate_transition
stays = refl

back_again :
    validate_transition {F = ℕ} (str "sales_ready ") (str "SALES_READY")
    ≡ ok (moved "SALES_READY" "SALES_READY" 5 5)
unfolding validate_transition
back_again = refl

validate_resolution_iff_example :
    ((validate_resolution identity).opportunity_creation_allowed ≡ true) ↔ IsResolved identity
validate_resolution_iff_example = validate_resolution_iff identity

reuse_route-IsReady_example : IsReady route reused
reuse_route-IsReady_example = reuse_route-IsReady route opportunity reused reuse_runs refl

reuse_route-recompute_readiness_example :
    (s : Readiness) × (recompute_readiness account ≡ ok s)
    × (s.company_route_ready ≡ true)
    × ((s.outreach_readiness ≡ "NAMED_ROUTE_READY")
        ⊎ (s.outreach_readiness ≡ "COMPANY_ROUTE_READY"))
reuse_route-recompute_readiness_example =
    reuse_route-recompute_readiness route opportunity account reused [] [] [] reuse_runs refl scoped
      lists_company lists_named

exhaustion_complete_iff_example : (exhaustion_complete searched ≡ ok true) ↔ (
    (has_named_route searched ≡ true) ⊎ (has_company_route searched ≡ true) ⊎ IsExhausted searched)
exhaustion_complete_iff_example = exhaustion_complete_iff searched

validate_transition_trans_example :
    (v : Transition) × (validate_transition {F = ℕ} (str "discovered") (str "FULLY_AUDITED") ≡ ok v)
    × (v.current_stage ≡ "DISCOVERED")
    × (v.target_stage ≡ "FULLY_AUDITED")
    × (v.stage_delta ≡ 5 + 3)
validate_transition_trans_example =
    validate_transition_trans (str "discovered") (str "SALES_READY") (str "FULLY_AUDITED")
      (moved "DISCOVERED" "SALES_READY" 0 5) (moved "SALES_READY" "FULLY_AUDITED" 5 8)
      found_to_ready ready_to_audited
