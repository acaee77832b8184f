-- ===== src/Store.antt =====
-- noble/store.py: the state database. Each method is an `Exec Store`, one transaction.
mod Tables
mod Rows
mod Records
mod Log
mod Lease
mod Events
pub mod Chain
pub mod Tamper
pub mod Limits
pub mod Traffic
pub mod Replay
pub mod Swap
pub mod Recovery
unfoldable pub use Tables.*
unfoldable pub use Rows.*
unfoldable pub use Records.*
unfoldable pub use Log.*
unfoldable pub use Lease.*
unfoldable pub use Events.*
