-- ===== src/Wal.antt =====
-- The write-ahead log's contract for the three v6.3 mutations, and the recovery of a prepared one
-- (unified_runtime/wal_contract_v63.py and recovery_semantics_v63.py).
mod Contract
mod Recovering
pub mod Exact
pub mod Proofs
pub mod Outcomes
pub mod Retries
unfoldable pub use Contract.*
unfoldable pub use Recovering.*
