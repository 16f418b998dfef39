-- ===== src/Gates/Route.antt =====
-- unified_runtime/route_reuse.py: whether a route found for one opportunity serves another.
use customs_buyer_intelligen.Prelude.{
  String, Bool, not, List, [], ◌∷◌, Option, none, some, is_in, ◌==◌, if◌then◌else◌, when, ◌⊕◌,
  is_empty,
}
use customs_buyer_intelligen.Python.{
  Outcome, ok, raise, key_error, ◌>>=◌, Value, Fields, Host, find, get, truthy, to_str, strip,
  upper, upper_or,
}
use customs_buyer_intelligen.Gates.Values.{iterated, is_profile}
use customs_buyer_intelligen.Gates.Contact.{current_freshness, company_scopes}

-- What `reuse_route_for_opportunity` returns; the other flags are constants.
pub record Reuse (F : Type 0) : Type 0 where
  pub route_id : Value F
  pub account_id : Value F
  pub product_profile_id : String
  pub route_reusable : Bool
  pub reuse_scope : Option String
  pub blockers : List String

module _ {F : Type 0} ⦃py : Host F⦄ where
  -- The blockers before the scope is looked at.
  unfoldable pub route_blockers : Fields F → List String
  unfolding truthy get upper_or
  route_blockers route =
      when (not (truthy (get "verified" route))) "ROUTE_NOT_VERIFIED"
      ⊕ when (not (truthy (get "route_eligible" route))) "ROUTE_NOT_ELIGIBLE"
      ⊕ when (truthy (get "guessed" route)) "GUESSED_ROUTE_FORBIDDEN"
      ⊕ when (not (is_in (upper_or "UNKNOWN" (get "freshness" route)) current_freshness))
          "ROUTE_NOT_CURRENT"

  -- `{str(value).strip().upper() for value in … if str(value).strip()}`
  unfoldable pub relevance_of : List (Value F) → List String
  unfolding to_str strip upper
  relevance_of [] = []
  relevance_of (v ∷ vs) =
      let rest = relevance_of vs in
      if strip (to_str v) == "" then rest else upper py.tables (strip (to_str v)) ∷ rest

  -- `for value in route.get("product_relevance", [])`
  unfoldable pub product_relevance : Fields F → Outcome (List String)
  unfolding find iterated relevance_of
  product_relevance route = elim (find "product_relevance" route) [
    | none ↦ ok []
    | some v ↦ do vs ← iterated v; ok (relevance_of vs)
  ]

  -- The branch of a named person's route.
  unfoldable pub person_scope : Fields F → String → List String → List String × Option String
  unfolding truthy get
  person_scope route profile_id relevance =
      let association =
        when (not (truthy (get "current_company_association" route)))
          "NAMED_ROUTE_COMPANY_ASSOCIATION_UNPROVEN"
        ⊕ when (not (truthy (get "role_relevant" route))) "NAMED_ROUTE_ROLE_RELEVANCE_UNPROVEN" in
      if is_in profile_id relevance
      then (association, some "NAMED_ROUTE_PRODUCT_SPECIFIC")
      else if is_in "GENERAL_PROCUREMENT" relevance
      then (association, some "NAMED_ROUTE_GENERAL_PROCUREMENT")
      else (association ⊕ "NAMED_ROUTE_PRODUCT_RELEVANCE_UNPROVEN" ∷ [], none)

  -- The branches on the owner's scope: more blockers, and the scope of the reuse.
  unfoldable pub scope_of : Fields F → String → Outcome (List String × Option String)
  unfolding upper_or get product_relevance person_scope
  scope_of route profile_id =
      let owner_scope = upper_or "" (get "owner_scope" route) in
      if is_in owner_scope company_scopes
      then ok ([], some "ACCOUNT_LEVEL_COMPANY_ROUTE")
      else if owner_scope == "PERSON"
      then (do relevance ← product_relevance route; ok (person_scope route profile_id relevance))
      else ok ("ROUTE_OWNER_SCOPE_NOT_REUSABLE" ∷ [], none)

  -- The dict that is returned.
  unfoldable pub reuse_of : Fields F → Fields F → String → List String × Option String → Reuse F
  unfolding route_blockers get
  reuse_of route opportunity profile_id (more, scope) =
      let all_blockers = route_blockers route ⊕ more in
      record {
        route_id = get "route_id" route;
        account_id = get "account_id" opportunity;
        product_profile_id = profile_id;
        route_reusable = is_empty all_blockers;
        reuse_scope = if is_empty all_blockers then scope else none;
        blockers = all_blockers;
      }

  -- `reuse_route_for_opportunity`, for two dicts.
  unfoldable pub reuse_route : Fields F → Fields F → Outcome (Reuse F)
  unfolding upper_or get is_profile reuse_of
  reuse_route route opportunity =
      let profile_id = upper_or "" (get "product_profile_id" opportunity) in
      if not (is_profile py.tables profile_id)
      then raise (key_error profile_id)
      else do found ← scope_of route profile_id; ok (reuse_of route opportunity profile_id found)
