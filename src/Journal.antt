-- ===== src/Journal.antt =====
-- `PendingReceiptJournal` of unified_runtime/resilience.py: receipts that wait for their tool.
mod Files
mod Defs
mod Queue
mod Sync
unfoldable pub use Files.*
unfoldable pub use Defs.*
unfoldable pub use Queue.*
unfoldable pub use Sync.*
pub mod Recording
pub mod Selecting
pub mod Syncing
pub mod Bounds
pub mod Finding
pub mod Queueing
pub mod Loading
pub mod Once
