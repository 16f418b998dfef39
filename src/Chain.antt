-- ===== src/Chain.antt =====
-- The hash-chained JSONL log: `HashChainLog` of unified_runtime/resilience.py. The loop that
-- verifies the chain stands in `SessionStore` of core.py once more, word for word.
mod Lines
mod Outcome
mod Subscript
mod Defs
pub mod Reading
pub mod Extending
pub mod Evidence
pub mod Log
unfoldable pub use Outcome.*
unfoldable pub use Lines.*
unfoldable pub use Defs.*
unfoldable pub use Subscript.*
