-- ===== src/Gates/Lifecycle.antt =====
-- unified_runtime/opportunity_domain.py: the stages of an opportunity and their transitions.
use customs_buyer_intelligen.Prelude.{
  ℕ, suc, ◌-◌, String, List, [], ◌∷◌, Option, none, some, ltb, eqb, ◌==◌, if◌then◌else◌,
}
use Prim.Native.String
use customs_buyer_intelligen.Python.{Value, Host, upper_or, Outcome, ok, raise, value_error}

abbrev pub stages : List String
stages =
    "DISCOVERED" ∷ "IDENTITY_VERIFIED" ∷ "OPPORTUNITY_CREATED" ∷ "QUALIFIED_TARGET"
    ∷ "CONTACT_EXHAUSTION" ∷ "SALES_READY" ∷ "ANCHOR_ELIGIBLE" ∷ "PROMOTED_ANCHOR" ∷ "FULLY_AUDITED"
    ∷ []

-- `LIFECYCLE_STAGES.index(stage)`, or `none` where it is not in the tuple.
unfoldable pub index_in : String → List String → Option ℕ
index_in s [] = none
index_in s (x ∷ xs) =
    let rest = index_in s xs in
    if x == s then some 0 else elim rest [ none ↦ none | some n ↦ some (suc n) ]

-- What `validate_lifecycle_transition` returns; `allowed` is the constant `True`.
pub record Transition : Type 0 where
  pub current_stage : String
  pub target_stage : String
  pub direction : String
  pub stage_delta : ℕ

-- The dict that is returned for the stages at two places.
abbrev pub moved : String → String → ℕ → ℕ → Transition
moved current target i j = record {
  current_stage = current;
  target_stage = target;
  direction = if eqb j i then "IDEMPOTENT" else "FORWARD";
  stage_delta = j - i;
}

-- From the two indices on.
unfoldable pub transition_of : String → String → Option ℕ → Option ℕ → Outcome Transition
transition_of current target (some i) (some j) =
    if ltb j i
    then raise (
        value_error (
          String.◌++◌ "lifecycle regression forbidden: "
            (String.◌++◌ current (String.◌++◌ " -> " target))))
    else ok (moved current target i j)
transition_of current target _ _ =
    raise (value_error "lifecycle transition requires canonical lifecycle stages")

module _ {F : Type 0} ⦃py : Host F⦄ where
  -- `validate_lifecycle_transition`
  unfoldable pub validate_transition : Value F → Value F → Outcome Transition
  unfolding upper_or index_in transition_of
  validate_transition current_stage target_stage =
      let current = upper_or "" current_stage in
      let target = upper_or "" target_stage in
      transition_of current target (index_in current stages) (index_in target stages)
