-- ===== src/Gates.antt =====
-- The gates between discovery, qualification and outreach: pure functions from a JSON payload to a
-- decision and the list of what stands in its way.
pub mod Canonical
pub mod Values
pub mod Contact
pub mod Route
pub mod Reuse
pub mod Exhaustion
pub mod Lifecycle
pub mod Stages
pub mod Candidate
pub mod Research
pub mod Portfolio
