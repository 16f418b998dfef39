-- ===== src/Production/Accepted.antt =====
-- What the gate asks of the acceptance reports.
use customs_buyer_intelligen.Prelude.{true, Clear, ◌≡◌, ◌∙◌, ap, ◌↔◌}
use customs_buyer_intelligen.Python.{Fields, Host, get, truthy}
use customs_buyer_intelligen.Acceptance.Scenarios.{lower_text}
use customs_buyer_intelligen.Acceptance.Tests.{holds_of, of_holds}
use customs_buyer_intelligen.Production.Gate.{count_chars, acceptance_checks}
use customs_buyer_intelligen.Production.Tests.{is_source_drift-eq}

module _ {F : Type 0} ⦃py : Host F⦄ where
  -- The acceptance reports are verified, of the snapshot that runs.
  unfoldable pub IsAccepted : Fields F → Type 0
  IsAccepted payload =
      (truthy (get "render_r2_pvc_acceptance_verified" payload) ≡ true)
      × (truthy (get "backup_retention_verified" payload) ≡ true)
      × (truthy (get "exact_v63_recovery_acceptance_verified" payload) ≡ true)
      × (truthy (get "live_v63_backend_correlation_acceptance_verified" payload) ≡ true)
      × (truthy (get "live_v63_recovery_overlay_acceptance_verified" payload) ≡ true)
      × (count_chars (lower_text (get "current_production_source_snapshot_sha256" payload)) ≡ 64)
      × (lower_text (get "live_v63_backend_correlation_acceptance_snapshot_sha256" payload)
          ≡ lower_text (get "current_production_source_snapshot_sha256" payload))
      × (lower_text (get "live_v63_recovery_overlay_acceptance_snapshot_sha256" payload)
          ≡ lower_text (get "current_production_source_snapshot_sha256" payload))

  pub acceptance_checks-IsAccepted :
      (payload : Fields F) → Clear (acceptance_checks payload) ↔ IsAccepted payload
  unfolding IsAccepted
  acceptance_checks-IsAccepted payload =
      let current = lower_text (get "current_production_source_snapshot_sha256" payload) in
      let correlation =
        is_source_drift-eq
          (lower_text (get "live_v63_backend_correlation_acceptance_snapshot_sha256" payload))
          current in
      let recovery =
        is_source_drift-eq
          (lower_text (get "live_v63_recovery_overlay_acceptance_snapshot_sha256" payload))
          current in
      (
        λ (a, (b, (c, (d, (e, (f, (g, _))))))). (
          holds_of a,
          holds_of b,
          holds_of c,
          holds_of d,
          holds_of e,
          (correlation.0 f).1,
          (correlation.0 f).2,
          (recovery.0 g).2,
        ),
        λ (a, b, c, d, e, n, f, g). (
          of_holds a,
          (
            of_holds b,
            (
              of_holds c,
              (
                of_holds d,
                (
                  of_holds e,
                  (
                    correlation.1 (ap count_chars f ∙ n, n, f),
                    (recovery.1 (ap count_chars g ∙ n, n, g), tt),
                  ),
                ),
              ),
            ),
          ),
        ),
      )
