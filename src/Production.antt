-- ===== src/Production.antt =====
-- The production gate of unified_runtime/: what must be proven of a live deployment before its mutations
-- are opened.
pub mod Live
pub mod Gate
pub mod Tests
pub mod Mapping
pub mod Gathering
pub mod Policies
pub mod Seeing
pub mod Bound
pub mod Accepted
pub mod Opening
pub mod Readiness
