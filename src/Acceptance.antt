-- ===== src/Acceptance.antt =====
-- The acceptance reports of unified_runtime/: a release is accepted on reports in which every required
-- scenario was run once and passed. Three validators share the loops over the scenarios.
pub mod Scenarios
pub mod Covering
pub mod Tests
pub mod Recovery
pub mod Correlation
pub mod Overlay
