-- ===== src/Python.antt =====
-- What the program uses of Python: values, truth, text, equality with a constant and exceptions.
mod Text
mod Json
mod Laws
mod Raising
pub mod Yielding
unfoldable pub use Text.*
unfoldable pub use Json.*
pub use Laws.*
pub use Raising.*
