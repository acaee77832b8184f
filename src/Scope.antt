-- ===== src/Scope.antt =====
-- noble/scope.py: the deny-by-default scope engine.
mod Patterns
mod Networks
mod Engine
pub mod Lookalikes
pub mod Listed
pub mod Allowed
unfoldable pub use Patterns.*
unfoldable pub use Networks.*
unfoldable pub use Engine.*
