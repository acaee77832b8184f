-- ===== src/Approvals.antt =====
-- noble/approvals.py: approvals of high-risk requests, bound to the request and to the scope.
mod Requests
mod Decisions
mod Ensure
pub mod Valid
pub mod Decided
pub mod Changes
pub mod Lifecycle
pub mod Evolves
pub mod Outcomes
unfoldable pub use Requests.*
unfoldable pub use Decisions.*
unfoldable pub use Ensure.*
