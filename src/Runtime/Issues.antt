-- ===== src/Runtime/Issues.antt =====
-- unified_runtime/core.py, `UnifiedRuntime.prepare_outreach`: its issues, part by part.
use customs_buyer_intelligen.Prelude.{
  ℕ, ◌+◌, String, Bool, true, false, not, ◌&&◌, ◌||◌, List, [], ◌∷◌, Option, none, some, is_in, ltb,
  leb, when, ◌⊕◌, ◌==◌, if◌then◌else◌,
}
use customs_buyer_intelligen.Python.{
  Value, int, str, obj, Fields, end, field, Host, Tables, get, get_or, truthy, equals_str, or_value,
  upper, ℤ, pos, negsuc,
}
use customs_buyer_intelligen.Chain.{
  Result, ok, err, invalid, other, ◌>>=◌, need, as_object, as_text,
}
use customs_buyer_intelligen.Runtime.State.{each, id_texts}
use customs_buyer_intelligen.Runtime.Inputs.{◌&◌, IsoTimes, parse_time}
use customs_buyer_intelligen.Runtime.Routes.{Patterns, route_gate}

-- `m < n`
unfoldable pub ltb_ℤ : ℤ → ℤ → Bool
ltb_ℤ (pos m) (pos n) = ltb m n
ltb_ℤ (pos m) (negsuc n) = false
ltb_ℤ (negsuc m) (pos n) = true
ltb_ℤ (negsuc m) (negsuc n) = ltb n m

-- `STAGE_RANK.get(stage)`
unfoldable pub rank_of : List (String × ℕ) → String → Option ℕ
rank_of [] stage = none
rank_of ((name, rank) ∷ rows) stage =
    let later = rank_of rows stage in if name == stage then some rank else later

abbrev pub stage_ranks : List (String × ℕ)
stage_ranks =
    ("FIRST_TOUCH", 10)
    ∷ ("FOLLOW_UP", 20)
    ∷ ("MEETING", 30)
    ∷ ("SAMPLE", 40)
    ∷ ("PI", 50)
    ∷ ("ORDER", 60)
    ∷ ("PAYMENT", 70)
    ∷ ("NEGOTIATION", 80)
    ∷ []

abbrev pub operational_types : List String
operational_types =
    "EXECUTION_RECEIPT_APPENDED" ∷ "PEER_RECEIPT_APPENDED" ∷ "ANCHOR_EXPANSION_CLOSED"
    ∷ "PROVIDER_PLAN_CREATED" ∷ "PROVIDER_RECEIPT_APPENDED" ∷ "CRM_WRITEBACK_RECEIPT_APPENDED" ∷ []

abbrev pub claim_names : List String
claim_names = "dimension" ∷ "density" ∷ "price" ∷ "certification" ∷ "performance" ∷ []

-- Whether both stages have a rank and the first one's is lower.
unfoldable pub is_regression : Option ℕ → Option ℕ → Bool
is_regression (some now) (some prior) = ltb now prior
is_regression _ _ = false

abbrev pub has_rank : Option ℕ → Bool
has_rank none = false
has_rank (some _) = true

module _ {F : Type 0} where
  -- Sequence numbers are integers.
  unfoldable pub seq_of : Fields F → Result ℤ
  unfolding need
  seq_of event = do seq ← need "seq" event; elim seq [ int n ↦ ok n | _ ↦ err (other "TypeError") ]

  -- `kind in names`, of an event's type
  unfoldable pub is_kind_in : Value F → List String → Bool
  is_kind_in (str s) names = is_in s names
  is_kind_in _ names = false

  unfoldable pub is_newer : Fields F → Fields F → Result Bool
  unfolding seq_of ltb_ℤ need is_kind_in
  is_newer closure event = do
    m ← seq_of event
    n ← seq_of closure
    let operational = do kind ← need "event_type" event; ok (is_kind_in kind operational_types)
    if ltb_ℤ n m then operational else ok false

  -- `newer_operational`
  unfoldable pub any_newer : Fields F → List (Fields F) → Result Bool
  unfolding is_newer
  any_newer closure [] = ok false
  any_newer closure (event ∷ events) = do
    here ← is_newer closure event
    let rest = any_newer closure events
    if here then ok true else rest

  -- `{}` where there is no closure: one that is kept is no empty dict.
  unfoldable pub dimensions_of : Option (Value F) → Result (Fields F)
  unfolding as_object get_or
  dimensions_of none = ok end
  dimensions_of (some held) = do
    closure ← as_object held
    as_object (get_or "state_dimensions" (obj end) closure)

  -- The rank of the stage that the history came to; one that is no text is none.
  unfoldable pub prior_rank : Value F → Option ℕ
  unfolding rank_of
  prior_rank (str stage) = rank_of stage_ranks stage
  prior_rank _ = none

  -- `any(item.get("stage") == stage for item in preparations.values())`
  unfoldable pub is_stage_taken : ⦃py : Host F⦄ → String → Fields F → Bool
  unfolding get equals_str
  is_stage_taken stage end = false
  is_stage_taken stage (field k (obj item) fs) =
      equals_str (get "stage" item) stage || is_stage_taken stage fs
  is_stage_taken stage (field k _ fs) = is_stage_taken stage fs

-- `except ValidationError as exc: issues.append(str(exc))`
unfoldable pub recovered_issues : Result (List String) → Result (List String)
recovered_issues (ok issues) = ok issues
recovered_issues (err (invalid message)) = ok (message ∷ [])
recovered_issues (err x) = err x

abbrev pub day : ℕ
day = 86_400_000_000

-- The issues of the time that the caller asks for, and the time.
unfoldable pub expiry_issues : ℕ → Result ℕ → List String × ℕ
expiry_issues now (err x) = ("OUTREACH_EXPIRY_INVALID" ∷ [], now)
expiry_issues now (ok expires) =
    (when (leb expires now || ltb (now + day) expires) "OUTREACH_EXPIRY_INVALID", expires)

-- The tests on a first message.
unfoldable pub first_touch_issues : Patterns → String → String → String → List String
first_touch_issues patterns stage body combined =
    let words = patterns.count_words body in
    if stage == "FIRST_TOUCH"
    then when (ltb words 80 || ltb 110 words) "FIRST_TOUCH_WORD_COUNT_OUTSIDE_80_110"
      ⊕ when (ltb 1 (patterns.count_links combined)) "FIRST_TOUCH_MULTIPLE_URLS"
    else []

unfoldable pub claim_issues : Tables → Patterns → List String → String → List String → List String
unfolding upper
claim_issues tables patterns authority combined [] = []
claim_issues tables patterns authority combined (name ∷ names) =
    when (patterns.has_claim name combined && not (is_in name authority))
      ("UNAUTHORIZED_CONCRETE_" & upper tables name & "_CLAIM")
    ⊕ claim_issues tables patterns authority combined names

module _ {F : Type 0} ⦃py : Host F⦄ where
  unfoldable pub closure_issues :
      IsoTimes → ℕ → Option (Value F) → List (Fields F) → Result (List String)
  unfolding as_object need parse_time any_newer truthy get
  closure_issues iso now none events = ok ("INVALID_CLOSURE_ID" ∷ [])
  closure_issues iso now (some held) events = do
    closure ← as_object held
    expiry ← need "expires_at" closure
    expires ← parse_time iso expiry "closure.expires_at"
    newer ← any_newer closure events
    ok (
        when (truthy (get "used" closure)) "CLOSURE_TOKEN_REPLAY"
        ⊕ when (ltb expires now) "CLOSURE_EXPIRED"
        ⊕ when newer "CLOSURE_STALE_AFTER_NEW_RESEARCH")

  unfoldable pub dimension_issues : Fields F → List String
  unfolding truthy get
  dimension_issues dimensions =
      when (not (truthy (get "research_complete" dimensions))) "RESEARCH_INCOMPLETE"
      ⊕ when (not (truthy (get "network_complete" dimensions))) "NETWORK_INCOMPLETE"
      ⊕ when (not (truthy (get "crm_sync_complete" dimensions))) "CRM_SYNC_INCOMPLETE"
      ⊕ when (not (truthy (get "outreach_prerequisites_complete" dimensions)))
          "OUTREACH_PREREQUISITES_INCOMPLETE"

  -- The digests of the start are texts.
  unfoldable pub digest_issues : Fields F → Fields F → Result (List String)
  unfolding need as_text get equals_str
  digest_issues args start = do
    history ← need "history_digest" start
    history_digest ← as_text history
    authority ← need "authority_digest" start
    authority_digest ← as_text authority
    ok (
        when (not (equals_str (get "history_digest" args) history_digest)) "HISTORY_DIGEST_MISMATCH"
        ⊕ when (not (equals_str (get "authority_digest" args) authority_digest))
            "AUTHORITY_DIGEST_MISMATCH")

  unfoldable pub route_issues : Patterns → Value F → Fields F → Fields F → Result (List String)
  unfolding recovered_issues route_gate
  route_issues patterns (obj route) start evidence =
      recovered_issues (route_gate patterns route start evidence)
  route_issues patterns _ start evidence = ok ("ROUTE_REQUIRED" ∷ [])

  -- From the subject to the number of links.
  unfoldable pub message_issues :
      Patterns → String → String → String → Fields F → Fields F → Result (List String)
  unfolding rank_of prior_rank or_value get is_stage_taken need each id_texts claim_issues
      first_touch_issues is_regression
  message_issues patterns subject body stage start preparations = do
    claims ← need "authority_claims" start
    rows ← each claims
    authority ← id_texts rows
    let rank = rank_of stage_ranks stage
    let prior = prior_rank (or_value (get "history_highest_stage" start) (str ""))
    let combined = subject & "\n" & body
    ok (
        when (subject == "" || body == "") "SUBJECT_AND_BODY_REQUIRED"
        ⊕ when (not (has_rank rank)) "INVALID_STAGE"
        ⊕ when (is_regression rank prior) "HISTORY_STAGE_REGRESSION"
        ⊕ when (is_stage_taken stage preparations) "STAGE_REPLAY"
        ⊕ when (patterns.is_leak combined) "CUSTOMS_OR_SUPPLIER_INTELLIGENCE_LEAK"
        ⊕ claim_issues py.tables patterns authority combined claim_names
        ⊕ first_touch_issues patterns stage body combined)
