-- ===== src/Gates/Reuse.antt =====
-- Routes that may be reused (route_reuse.py) are routes that make an outreach ready
-- (contact_exhaustion.py).
use customs_buyer_intelligen.Prelude.{
  String, Bool, true, false, not, List, [], ◌∷◌, ◌++◌, Option, some, is_in, ◌==◌, ◌≡◌, refl, ◌↔◌,
  ◌⊎◌, inl, inr, Bool-cases, arith, eq_iff, subst, ap, ◌∙◌, when, ◌⊕◌, is_empty, is_empty-append,
  is_empty-when, is_empty-unless,
}
use customs_buyer_intelligen.Python.{ok, >>=-eq-ok, Value, obj, Fields, Host, get, truthy, upper_or}
use customs_buyer_intelligen.Gates.Values.{listed, is_profile}
use customs_buyer_intelligen.Gates.Contact.{
  Readiness, any, company_scopes, is_current, ready_company_route, ready_named_route, readiness_of,
  recompute_readiness,
}
use customs_buyer_intelligen.Gates.Route.{
  Reuse, route_blockers, product_relevance, person_scope, scope_of, reuse_of, reuse_route,
}

both_unless :
    {b c : Bool} (x y : String)
    → is_empty (when (not b) x ⊕ when (not c) y) ≡ true
    → (b ≡ true) × (c ≡ true)
both_unless x y h =
    let (k, l) = (is_empty-append _ _).0 h in ((is_empty-unless _ _).0 k, (is_empty-unless _ _).0 l)

not_empty : {A : Type 0} (x : String) → is_empty (x ∷ []) ≡ true → A
not_empty x h = cc

readiness_of_company :
    (named : Bool)
    → (readiness_of true named ≡ "NAMED_ROUTE_READY")
      ⊎ (readiness_of true named ≡ "COMPANY_ROUTE_READY")
readiness_of_company true = inl refl
readiness_of_company false = inr refl

module _ {F : Type 0} ⦃py : Host F⦄ where
  -- What every route needs.
  pub record IsSound (route : Fields F) : Type 0 where
    pub verified : truthy (get "verified" route) ≡ true
    pub eligible : truthy (get "route_eligible" route) ≡ true
    pub not_guessed : truthy (get "guessed" route) ≡ false
    pub current : is_current route ≡ true

  route_blockers_iff : (route : Fields F) → (is_empty (route_blockers route) ≡ true) ↔ IsSound route
  unfolding route_blockers is_current
  route_blockers_iff route = (
    λ h.
        let (h0, r0) = (is_empty-append _ _).0 h in
        let (h1, r1) = (is_empty-append _ _).0 r0 in
        let (h2, h3) = (is_empty-append _ _).0 r1 in
        record {
          verified = (is_empty-unless _ _).0 h0;
          eligible = (is_empty-unless _ _).0 h1;
          not_guessed = (is_empty-when _ _).0 h2;
          current = (is_empty-unless _ _).0 h3;
        },
    λ s. (is_empty-append _ _).1 (
      (is_empty-unless _ _).1 s.verified,
      (is_empty-append _ _).1 (
        (is_empty-unless _ _).1 s.eligible,
        (is_empty-append _ _).1
            ((is_empty-when _ _).1 s.not_guessed, (is_empty-unless _ _).1 s.current),
      ),
    ),
  )

  abbrev HasCompanyScope : Fields F → Type 0
  HasCompanyScope route = is_in (upper_or "" (get "owner_scope" route)) company_scopes ≡ true

  ready_company_iff :
      (route : Fields F)
      → (ready_company_route (obj route) ≡ true) ↔ (IsSound route × HasCompanyScope route)
  unfolding ready_company_route
  ready_company_iff route = (
    λ h. (
      record {
        verified = ground arith;
        eligible = ground arith;
        not_guessed = ground arith;
        current = ground arith;
      },
      ground arith,
    ),
    λ (s, c). rw (s.verified, s.eligible, s.not_guessed, s.current, c),
  )

  -- A named route has its person's association and role proven.
  ready_named_of :
      (route : Fields F)
      → IsSound route
      → truthy (get "current_company_association" route) ≡ true
      → truthy (get "role_relevant" route) ≡ true
      → ready_named_route (obj route) ≡ true
  unfolding ready_named_route
  ready_named_of route s a r = rw (s.verified, s.eligible, s.not_guessed, s.current, a, r)

  person_scope-proven :
      (route : Fields F) (profile_id : String) (relevance : List String)
      → is_empty (person_scope route profile_id relevance).0 ≡ true
      → (truthy (get "current_company_association" route) ≡ true)
        × (truthy (get "role_relevant" route) ≡ true)
  unfolding person_scope
  person_scope-proven route profile_id relevance h =
      elim (Bool-cases (is_in profile_id relevance)) [
        | inl p ↦ both_unless _ _ (rw p at h)
        | inr p ↦ elim (Bool-cases (is_in "GENERAL_PROCUREMENT" relevance)) [
          | inl q ↦ both_unless _ _ (rw q at (rw p at h))
          | inr q ↦
              not_empty "NAMED_ROUTE_PRODUCT_RELEVANCE_UNPROVEN"
                ((is_empty-append _ ("NAMED_ROUTE_PRODUCT_RELEVANCE_UNPROVEN" ∷ [])).0
                  (rw q at (rw p at h))).1
        ]
      ]

  -- Ready as a route of its company, or as a route to a person in it.
  abbrev pub IsReady : Fields F → Reuse F → Type 0
  IsReady route r =
      ((r.reuse_scope ≡ some "ACCOUNT_LEVEL_COMPANY_ROUTE")
        × (ready_company_route (obj route) ≡ true))
      ⊎ ((upper_or "" (get "owner_scope" route) ≡ "PERSON")
          × (ready_named_route (obj route) ≡ true))

  scope_of-IsReady :
      (route opportunity : Fields F) (profile_id : String) (found : List String × Option String)
      → scope_of route profile_id ≡ ok found
      → (reuse_of route opportunity profile_id found).route_reusable ≡ true
      → IsReady route (reuse_of route opportunity profile_id found)
  unfolding scope_of reuse_of
  scope_of-IsReady route opportunity profile_id found h free =
      let (sound', rest) = (is_empty-append _ _).0 free in
      let sound = (route_blockers_iff route).0 sound' in
      elim (Bool-cases (is_in (upper_or "" (get "owner_scope" route)) company_scopes)) [
        | inl c ↦ inl (rw free (cc (rw c at h)), (ready_company_iff route).1 (sound, c))
        | inr c ↦ elim (Bool-cases (upper_or "" (get "owner_scope" route) == "PERSON")) [
          | inl p ↦ inr (
            (eq_iff _ _).0 p,
            let (relevance, _, same) =
                  >>=-eq-ok (product_relevance route) _ (rw p at (rw c at h)) in
                let (a, b) = person_scope-proven route profile_id relevance (cc (same, rest)) in
                ready_named_of route sound a b,
          )
          | inr p ↦
              let out : is_empty ("ROUTE_OWNER_SCOPE_NOT_REUSABLE" ∷ []) ≡ true =
                cc (rw p at (rw c at h), rest) in
              not_empty "ROUTE_OWNER_SCOPE_NOT_REUSABLE" out
        ]
      ]

  -- A route that may be reused counts as ready: it is a route of the company, reused as one, or one to a
  -- person whose association and role are proven; and it is verified, eligible, current and not guessed.
  pub reuse_route-IsReady :
      (route opportunity : Fields F) (r : Reuse F)
      → reuse_route route opportunity ≡ ok r
      → r.route_reusable ≡ true
      → IsReady route r
  unfolding reuse_route
  reuse_route-IsReady route opportunity r h free =
      elim (Bool-cases
        (is_profile py.tables (upper_or "" (get "product_profile_id" opportunity)))) [
          | inl known ↦
              let (found, scoped, same) = >>=-eq-ok (scope_of route _) _ (rw known at h) in
              let p : reuse_of route opportunity
                    (upper_or "" (get "product_profile_id" opportunity)) found
                  ≡ r =
                cc same in
              subst (IsReady route) p (
                scope_of-IsReady route opportunity _ found scoped
                  (ap (λ x. x.route_reusable) p ∙ free))
          | inr unknown ↦ cc (rw unknown at h)
        ]

  any-append :
      (test : Value F → Bool) (vs : List (Value F)) (v : Value F) (ws : List (Value F))
      → test v ≡ true
      → any test (vs ++ v ∷ ws) ≡ true
  any-append test [] v ws h = rw h
  any-append test (x ∷ vs) v ws h = elim (Bool-cases (test x)) [
    | inl p ↦ rw p
    | inr p ↦ rw (p, any-append test vs v ws h)
  ]

  company_ready :
      (route opportunity : Fields F) (r : Reuse F)
      → reuse_route route opportunity ≡ ok r
      → r.route_reusable ≡ true
      → HasCompanyScope route
      → ready_company_route (obj route) ≡ true
  company_ready route opportunity r h free scope =
      elim (reuse_route-IsReady route opportunity r h free) [
        | inl (_, ready) ↦ ready
        | inr (person, _) ↦ cc (subst (λ s. is_in s company_scopes ≡ true) person scope)
      ]

  -- Where the account's list of company routes holds a route of the company's scope that may be reused,
  -- the readiness is computed, the company route is ready, and so is the outreach, by a named route or
  -- by the company's.
  pub reuse_route-recompute_readiness :
      (route opportunity state : Fields F) (r : Reuse F) (vs ws named : List (Value F))
      → reuse_route route opportunity ≡ ok r
      → r.route_reusable ≡ true
      → is_in (upper_or "" (get "owner_scope" route)) company_scopes ≡ true
      → listed (get "company_routes" state) ≡ ok (vs ++ obj route ∷ ws)
      → listed (get "named_routes" state) ≡ ok named
      → (s : Readiness) × (recompute_readiness state ≡ ok s)
        × (s.company_route_ready ≡ true)
        × ((s.outreach_readiness ≡ "NAMED_ROUTE_READY")
            ⊎ (s.outreach_readiness ≡ "COMPANY_ROUTE_READY"))
  unfolding recompute_readiness
  reuse_route-recompute_readiness route opportunity state r vs ws named h free scope at_company
        at_named =
      let found =
        any-append ready_company_route vs (obj route) ws
          (company_ready route opportunity r h free scope) in
      rw (at_company, at_named)
        (
          record {
            outreach_readiness =
                readiness_of (any ready_company_route (vs ++ obj route ∷ ws))
                  (any ready_named_route named);
            company_route_ready = any ready_company_route (vs ++ obj route ∷ ws);
            named_route_ready = any ready_named_route named;
          },
          refl,
          found,
          rw found (readiness_of_company (any ready_named_route named)),
        )
