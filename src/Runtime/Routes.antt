-- ===== src/Runtime/Routes.antt =====
-- unified_runtime/core.py: `required_fields` and `UnifiedRuntime._route_gate`, the tests on the route
-- of an outreach.
use Prim.Native.Char.{code}
use customs_buyer_intelligen.Prelude.{
  ℕ, String, Bool, true, false, not, ◌&&◌, ◌||◌, List, [], ◌∷◌, Option, none, some, is_in, is_empty,
  eqb, when, ◌⊕◌, first_of_each, ◌==◌, if◌then◌else◌,
}
use customs_buyer_intelligen.Python.{
  Value, str, arr, obj, Fields, end, Host, find, has, items, truthy, equals_str, is_bool, to_str,
  strip, upper, casefold, is_space, sorted_texts,
}
use customs_buyer_intelligen.Chain.{Result, ok, err, invalid, other, ◌>>=◌, need}
use customs_buyer_intelligen.Runtime.State.{id_at}
use customs_buyer_intelligen.Runtime.Inputs.{◌&◌, joined}

-- The module's regular expressions, as tests and counts: `fullmatch` of EMAIL_RE, URL_RE and
-- INTERNATIONAL_PHONE_RE, `search` of MASKED_CONTACT_RE, UNSAFE_OUTREACH and the pattern of a concrete
-- claim, and how many words and links `findall` finds.
pub record Patterns : Type 0 where
  pub is_email : String → Bool
  pub is_url : String → Bool
  pub is_phone : String → Bool
  pub is_masked : String → Bool
  pub is_leak : String → Bool
  pub has_claim : String → String → Bool
  pub count_words : String → ℕ
  pub count_links : String → ℕ

-- `re.sub(r"[\s()-]", "", text)`
unfoldable pub without_spacing : String → String
unfolding is_space
without_spacing String.[] = ""
without_spacing (String.◌∷◌ c s) =
    let rest = without_spacing s in
    if is_space (code c) || eqb (code c) 40 || eqb (code c) 41 || eqb (code c) 45
    then rest
    else String.◌∷◌ c rest

unfoldable pub is_prefix : String → String → Bool
is_prefix String.[] s = true
is_prefix (String.◌∷◌ c p) String.[] = false
is_prefix (String.◌∷◌ c p) (String.◌∷◌ d s) = eqb (code c) (code d) && is_prefix p s

-- `part in text`
unfoldable pub is_part : String → String → Bool
unfolding is_prefix
is_part p String.[] = is_prefix p ""
is_part p (String.◌∷◌ c s) = is_prefix p (String.◌∷◌ c s) || is_part p s

-- `not xs`
abbrev pub is_empty_list : {A : Type 0} → List A → Bool
is_empty_list [] = true
is_empty_list (_ ∷ _) = false

module _ {F : Type 0} where
  unfoldable pub absent_fields : List String → Fields F → List String
  unfolding has
  absent_fields [] fs = []
  absent_fields (k ∷ ks) fs = let rest = absent_fields ks fs in if has k fs then rest else k ∷ rest

  -- `required_fields`
  unfoldable pub required_fields : Fields F → List String → String → Result Unit
  unfolding absent_fields sorted_texts joined
  required_fields fs names name =
      let missing = absent_fields names fs in
      if is_empty missing
      then ok tt
      else err (invalid (name & ": missing fields: " & joined (sorted_texts missing)))

  -- `d.get(v)` of a dict whose keys are texts
  unfoldable pub found_by : Value F → Fields F → Result (Option (Value F))
  unfolding find
  found_by (str s) fs = ok (find s fs)
  found_by (arr vs) fs = err (other "TypeError")
  found_by (obj ks) fs = err (other "TypeError")
  found_by v fs = ok none

  -- `v if isinstance(v, list) else []`
  unfoldable pub rows_or_none : Value F → List (Value F)
  unfolding items
  rows_or_none (arr vs) = items vs
  rows_or_none _ = []

abbrev pub route_fields : List String
route_fields =
    "kind" ∷ "value" ∷ "verified" ∷ "current" ∷ "owned_by_account" ∷ "owner_entity_id"
    ∷ "evidence_ids" ∷ []

-- The test on the route's value, by its kind.
unfoldable pub kind_issues : Patterns → String → String → List String
unfolding without_spacing
kind_issues patterns kind value =
    if kind == "EMAIL" && (not (patterns.is_email value) || patterns.is_masked value)
    then "INVALID_EMAIL_ROUTE" ∷ []
    else if kind == "PHONE"
        && (patterns.is_masked value || not (patterns.is_phone (without_spacing value)))
    then "INVALID_PHONE_ROUTE" ∷ []
    else if is_in kind ("WHATSAPP" ∷ "ZALO" ∷ [])
    then when (not (patterns.is_phone (without_spacing value)))
        ("INVALID_" & kind & "_INTERNATIONAL_ROUTE")
    else when
        (is_in kind ("LINKEDIN" ∷ "FACEBOOK" ∷ "INSTAGRAM" ∷ "WEBSITE_FORM" ∷ [])
          && not (patterns.is_url value))
        "INVALID_SOCIAL_OR_FORM_URL"

module _ {F : Type 0} ⦃py : Host F⦄ (patterns : Patterns) where
  -- One round of the loop over the evidence.
  unfoldable pub evidence_issues : String → String → Option (Value F) → Result (List String)
  unfolding truthy id_at need to_str casefold is_part equals_str
  evidence_issues kind account_id none = ok ("ROUTE_EVIDENCE_OWNER_MISMATCH" ∷ [])
  evidence_issues kind account_id (some (obj end)) = ok ("ROUTE_EVIDENCE_OWNER_MISMATCH" ∷ [])
  evidence_issues kind account_id (some (obj fs)) = do
    owner ← need "owner_id" fs
    let promoted = do
      claim_key ← need "claim_key" fs
      let claim = casefold py.tables (to_str claim_key)
      ok (
          when (kind == "WHATSAPP" && not (is_part "whatsapp" claim))
            "PHONE_CANNOT_AUTO_PROMOTE_TO_WHATSAPP"
          ⊕ when (kind == "ZALO" && not (is_part "zalo" claim)) "PHONE_CANNOT_AUTO_PROMOTE_TO_ZALO")
    if equals_str owner account_id then promoted else ok ("ROUTE_EVIDENCE_OWNER_MISMATCH" ∷ [])
  evidence_issues kind account_id (some _) = err (other "TypeError")

  unfoldable pub all_evidence_issues :
      String → String → Fields F → List (Value F) → Result (List String)
  unfolding found_by evidence_issues
  all_evidence_issues kind account_id evidence [] = ok []
  all_evidence_issues kind account_id evidence (evidence_id ∷ rest) = do
    held ← found_by evidence_id evidence
    here ← evidence_issues kind account_id held
    later ← all_evidence_issues kind account_id evidence rest
    ok (here ⊕ later)

  -- `_route_gate`, of the route, the start of the investigation and its evidence.
  unfoldable pub route_gate : Fields F → Fields F → Fields F → Result (List String)
  unfolding required_fields need id_at to_str strip upper is_bool equals_str kind_issues
      rows_or_none all_evidence_issues first_of_each
  route_gate route start evidence = do
    checked ← required_fields route route_fields "route"
    kind_value ← need "kind" route
    value_value ← need "value" route
    account ← need "account" start
    account_id ← id_at "account_id" account
    verified ← need "verified" route
    current ← need "current" route
    owned ← need "owned_by_account" route
    owner ← need "owner_entity_id" route
    ids ← need "evidence_ids" route
    let kind = upper py.tables (to_str kind_value)
    let rows = rows_or_none ids
    found ← all_evidence_issues kind account_id evidence rows
    ok (
        first_of_each (
          when
            (not (is_bool verified true)
              || not (is_bool current true)
              || not (is_bool owned true)
              || not (equals_str owner account_id))
            "ROUTE_NOT_CURRENT_VERIFIED_ACCOUNT_OWNED"
          ⊕ kind_issues patterns kind (strip (to_str value_value))
          ⊕ when (is_empty_list rows) "ROUTE_EVIDENCE_REQUIRED"
          ⊕ found))
