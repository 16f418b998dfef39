-- ===== src/Examples/Portfolios.antt =====
-- The counts of a small portfolio.
use customs_buyer_intelligen.Prelude.{ℕ, List, [], ◌∷◌, ◌≡◌, refl}
use customs_buyer_intelligen.Python.{Value, null, str, obj, field, end}
use customs_buyer_intelligen.Gates.Portfolio.{compute_metrics, is_anchor, is_cross_sell}
use customs_buyer_intelligen.Examples.Codec.{naturals}

abbrev portfolio : List (Value ℕ)
portfolio =
    obj (
      field "account_id" (str "C001") (
        field "opportunity_id" (str "O1") (
          field "commercial_value_grade" (str "a-")
            (field "outreach_readiness" (str "named_route_ready") end))))
    ∷ obj (
        field "account_id" (str "C001") (
          field "opportunity_id" (str "O2") (
            field "commercial_value_grade" (str "B") (
              field "outreach_readiness" (str "COMPANY_ROUTE_READY")
                (field "lifecycle_stage" (str "PROMOTED_ANCHOR") end)))))
    ∷ null
    ∷ []

portfolio_counts : compute_metrics portfolio ≡ record {
  unique_account_count = 1;
  product_opportunity_count = 2;
  bplus_or_above_opportunity_count = 1;
  company_route_ready_opportunity_count = 2;
  named_route_ready_opportunity_count = 1;
  sales_ready_qualified_opportunity_count = 1;
  promoted_anchor_opportunity_count = 1;
  cross_sell_hypothesis_count = 0;
}
unfolding compute_metrics is_anchor is_cross_sell
portfolio_counts = refl
