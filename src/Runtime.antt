-- ===== src/Runtime.antt =====
-- unified_runtime/core.py, `UnifiedRuntime`: the state that an investigation's events come to, and
-- the operations that read it.
pub mod State
pub mod Events
pub mod Replay
pub mod Sets
pub mod Keeping
pub mod Advancing
pub mod Growing
pub mod Anchors
pub mod Closing
pub mod Inputs
pub mod Rendering
pub mod Spending
pub mod Once
pub mod Routes
pub mod Issues
pub mod Preparing
pub mod Clearing
pub mod Sendable
pub mod Prepared
pub mod Policy
pub mod Strict
pub mod Yielding
pub mod Promotion
pub mod Promoted
pub mod Unicode
pub mod Scalars
pub mod Accepting
