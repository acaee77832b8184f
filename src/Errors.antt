-- ===== src/Errors.antt =====
-- noble/errors.py: the typed failures of the control plane, and the computations that raise them.
mod Classes
mod Calls
pub mod Keeps
pub mod Laws
unfoldable pub use Classes.*
pub use Calls.*
