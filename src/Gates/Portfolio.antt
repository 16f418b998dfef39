-- ===== src/Gates/Portfolio.antt =====
-- unified_runtime/portfolio_metrics.py: the counts of a portfolio.
use customs_buyer_intelligen.Prelude.{
  ℕ, String, Bool, List, [], ◌∷◌, length, is_in, first_of_each, ◌==◌, if◌then◌else◌,
}
use customs_buyer_intelligen.Python.{Value, obj, Fields, Host, get, or_value, stripped, upper_or}

abbrev pub qualified_grades : List String
qualified_grades = "B+" ∷ "A-" ∷ "A" ∷ "A+" ∷ []

abbrev pub named_states : List String
named_states = "NAMED_ROUTE_READY" ∷ "FOLLOW_UP_READY" ∷ "SEND_READY" ∷ []

abbrev pub company_states : List String
company_states = "COMPANY_ROUTE_READY" ∷ named_states

-- The result, less its two constant flags.
pub record Metrics : Type 0 where
  pub unique_account_count : ℕ
  pub product_opportunity_count : ℕ
  pub bplus_or_above_opportunity_count : ℕ
  pub company_route_ready_opportunity_count : ℕ
  pub named_route_ready_opportunity_count : ℕ
  pub sales_ready_qualified_opportunity_count : ℕ
  pub promoted_anchor_opportunity_count : ℕ
  pub cross_sell_hypothesis_count : ℕ

module _ {A : Type 0} where
  -- `[row for row in rows if test]`
  unfoldable pub those : (A → Bool) → List A → List A
  those test [] = []
  those test (x ∷ xs) = let rest = those test xs in if test x then x ∷ rest else rest

module _ {F : Type 0} ⦃py : Host F⦄ where
  -- `[row for row in opportunities if isinstance(row, dict)]`
  unfoldable pub dict_rows : List (Value F) → List (Fields F)
  dict_rows [] = []
  dict_rows (obj fs ∷ vs) = fs ∷ dict_rows vs
  dict_rows (_ ∷ vs) = dict_rows vs

  -- The texts of a field that are not blank.
  unfoldable pub names_at : String → List (Fields F) → List String
  unfolding stripped get
  names_at key [] = []
  names_at key (row ∷ rows) =
      let rest = names_at key rows in
      if stripped (get key row) == "" then rest else stripped (get key row) ∷ rest

  abbrev pub is_qualified : Fields F → Bool
  is_qualified row = is_in (upper_or "" (get "commercial_value_grade" row)) qualified_grades

  abbrev pub is_company_ready : Fields F → Bool
  is_company_ready row = is_in (upper_or "" (get "outreach_readiness" row)) company_states

  abbrev pub is_named_ready : Fields F → Bool
  is_named_ready row = is_in (upper_or "" (get "outreach_readiness" row)) named_states

  unfoldable pub is_anchor : Fields F → Bool
  unfolding upper_or or_value get
  is_anchor row =
      upper_or "" (or_value (get "stage" row) (get "lifecycle_stage" row)) == "PROMOTED_ANCHOR"

  unfoldable pub is_cross_sell : Fields F → Bool
  unfolding upper_or get
  is_cross_sell row = upper_or "" (get "state" row) == "CROSS_SELL_HYPOTHESIS"

  unfoldable pub metrics_of : List (Fields F) → Metrics
  unfolding first_of_each names_at those
  metrics_of rows =
      let qualified = those is_qualified rows in
      record {
        unique_account_count = length (first_of_each (names_at "account_id" rows));
        product_opportunity_count = length (first_of_each (names_at "opportunity_id" rows));
        bplus_or_above_opportunity_count = length qualified;
        company_route_ready_opportunity_count = length (those is_company_ready rows);
        named_route_ready_opportunity_count = length (those is_named_ready rows);
        sales_ready_qualified_opportunity_count = length (those is_company_ready qualified);
        promoted_anchor_opportunity_count = length (those is_anchor rows);
        cross_sell_hypothesis_count = length (those is_cross_sell rows);
      }

  -- `compute_portfolio_metrics`
  unfoldable pub compute_metrics : List (Value F) → Metrics
  unfolding dict_rows metrics_of
  compute_metrics opportunities = metrics_of (dict_rows opportunities)
