-- ===== src/Gates/Candidate.antt =====
-- unified_runtime/candidate_research_gate.py: what becomes of a discovered candidate.
use Prim.Native.String
use customs_buyer_intelligen.Prelude.{
  String, Bool, true, false, not, ◌&&◌, ◌||◌, List, [], ◌∷◌, is_in, ◌==◌, if◌then◌else◌, when, ◌⊕◌,
  is_empty,
}
use customs_buyer_intelligen.Python.{
  Value, float, Fields, Host, get, truthy, stripped, or_value, upper, upper_or, Outcome, ok, raise,
  value_error, ◌>>=◌,
}
use customs_buyer_intelligen.Gates.Values.{is_profile}

-- What the module does with floats: `0.0`, `float(v)`, `max(x, y)` and `x > 0.0`.
pub record Floats (F : Type 0) : Type 0 where
  pub zero : F
  pub to_float : Value F → Outcome F
  pub max : F → F → F
  pub is_positive : F → Bool

abbrev pub tiers : List String
tiers = "D1" ∷ "D2" ∷ "D3" ∷ "D4" ∷ []

abbrev pub canonical_ready_statuses : List String
canonical_ready_statuses = "CONFIRMED" ∷ "CREATED" ∷ []

-- What `assess_candidate_researchability` adds to the payload; the other flags are constants.
pub record Assessment (F : Type 0) : Type 0 where
  pub candidate_id : String
  pub company_name : String
  pub product_profile_id : String
  pub signal_tier : String
  pub eiv : F
  pub canonical_status : String
  pub research_state : String
  pub retain_in_candidate_pool : Bool
  pub rejected : Bool
  pub rejection_reasons : List String
  pub qualification_gaps : List String
  pub canonical_research_required : Bool
  pub opportunity_creation_ready : Bool

-- The four variables that the branches set.
pub record State : Type 0 where
  pub research_state : String
  pub retain : Bool
  pub rejected : Bool
  pub opportunity_ready : Bool

-- The branches: by the reasons to reject, by the proofs and the tier, by the signals.
unfoldable pub state_of : Bool → Bool → Bool → State
state_of has_reasons qualified active =
    if has_reasons
    then record {
      research_state = "REJECTED_PROVEN";
      retain = false;
      rejected = true;
      opportunity_ready = false;
    }
    else if qualified
    then record {
      research_state = "READY_FOR_QUALIFICATION";
      retain = true;
      rejected = false;
      opportunity_ready = true;
    }
    else if active
    then record {
      research_state = "RESEARCH_ACTIVE";
      retain = true;
      rejected = false;
      opportunity_ready = false;
    }
    else record {
      research_state = "DEFERRED_LOW_EIV";
      retain = true;
      rejected = false;
      opportunity_ready = false;
    }

module _ {F : Type 0} ⦃py : Host F⦄ where
  -- `_required_string`
  unfoldable pub required_string : Fields F → String → Outcome String
  unfolding stripped get
  required_string payload name =
      if stripped (get name payload) == ""
      then raise (value_error (String.◌++◌ name " is required"))
      else ok (stripped (get name payload))

  unfoldable pub rejection_reasons_of : Fields F → List String
  unfolding truthy get
  rejection_reasons_of payload =
      when (truthy (get "proven_negative" payload)) "PROVEN_NEGATIVE"
      ⊕ when (truthy (get "duplicate_proven" payload)) "PROVEN_DUPLICATE"
      ⊕ when (truthy (get "mismatch_proven" payload)) "PROVEN_MISMATCH"

  unfoldable pub qualification_gaps_of : Fields F → List String
  unfolding truthy get upper_or
  qualification_gaps_of payload =
      when
        (not
          (is_in (upper_or "UNRESOLVED" (get "canonical_status" payload)) canonical_ready_statuses))
        "CANONICAL_IDENTITY_UNRESOLVED"
      ⊕ when (not (truthy (get "procurement_proven" payload))) "PROCUREMENT_NOT_YET_PROVEN"
      ⊕ when (not (truthy (get "product_or_application_signal" payload)))
          "PRODUCT_OR_APPLICATION_SIGNAL_WEAK_OR_UNPROVEN"

  -- The last part, from the checked texts and the expected value on.
  unfoldable pub assessment_of :
      Floats F → Fields F → String → String → String → String → F → Assessment F
  unfolding truthy get upper_or rejection_reasons_of qualification_gaps_of state_of
  assessment_of floats payload candidate company profile tier value =
      let status = upper_or "UNRESOLVED" (get "canonical_status" payload) in
      let canonical_ready = is_in status canonical_ready_statuses in
      let reasons = rejection_reasons_of payload in
      let state =
        state_of (not (is_empty reasons))
          (canonical_ready
            && truthy (get "procurement_proven" payload)
            && is_in tier ("D1" ∷ "D2" ∷ []))
          (floats.is_positive value || truthy (get "product_or_application_signal" payload)) in
      record {
        candidate_id = candidate;
        company_name = company;
        product_profile_id = profile;
        signal_tier = tier;
        eiv = value;
        canonical_status = status;
        research_state = state.research_state;
        retain_in_candidate_pool = state.retain;
        rejected = state.rejected;
        rejection_reasons = reasons;
        qualification_gaps = qualification_gaps_of payload;
        canonical_research_required = not canonical_ready;
        opportunity_creation_ready = state.opportunity_ready;
      }

  -- `assess_candidate_researchability`, for a payload that is a dict.
  unfoldable pub assess : Floats F → Fields F → Outcome (Assessment F)
  unfolding required_string upper upper_or get is_profile or_value
  assess floats payload = do
    candidate ← required_string payload "candidate_id"
    company ← required_string payload "company_name"
    name ← required_string payload "product_profile_id"
    let profile = upper py.tables name
    let tier = upper_or "D4" (get "signal_tier" payload)
    if not (is_profile py.tables profile)
        then raise (value_error (String.◌++◌ "unknown product profile: " profile))
        else if not (is_in tier tiers)
        then raise (value_error (String.◌++◌ "unknown signal tier: " tier))
        else do
          value ← floats.to_float (or_value (get "eiv" payload) (float floats.zero))
          ok (
              assessment_of floats payload candidate company profile tier
                (floats.max floats.zero value))
