-- ===== src/Registry.antt =====
-- `CanonicalRegistry` of unified_runtime/resilience.py: the accounts that are known.
mod Matching
mod Accounts
mod Creating
unfoldable pub use Matching.*
unfoldable pub use Accounts.*
unfoldable pub use Creating.*
pub mod Weighing
pub mod Resolving
pub mod Entries
pub mod Created
