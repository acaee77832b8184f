-- ===== src/Engine.antt =====
-- NobleEngine.run of noble/engine.py: its state, its gates, the run of the tool, what is collected of it,
-- the handlers and the `finally` block.
mod Steps
mod Gates
mod Clearance
mod Outcomes
mod Dispatch
mod Collect
mod Handlers
mod Finish
pub mod Underway
pub mod Undisturbed
pub mod Course
pub mod Entrance
pub mod Leasing
pub mod Working
pub mod Gathering
pub mod Ending
pub mod Closing
pub mod Recorded
pub mod Stopped
pub mod Settled
pub mod Whole
pub mod Frame
pub mod Permitted
pub mod Passed
pub mod Assured
pub mod Approved
pub mod Safety
pub mod Failures
unfoldable pub use Steps.*
unfoldable pub use Gates.*
unfoldable pub use Clearance.*
unfoldable pub use Outcomes.*
unfoldable pub use Dispatch.*
unfoldable pub use Collect.*
unfoldable pub use Handlers.*
unfoldable pub use Finish.*
