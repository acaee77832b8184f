-- ===== src/Outputs.antt =====
-- OutputValidator and build_evidence of noble/evidence.py: what of a worker's output is believed, and
-- what is recorded of it.
mod Decode
mod Fixture
mod Checks
mod Validate
mod Build
pub mod Sound
pub mod Passed
unfoldable pub use Decode.*
unfoldable pub use Fixture.*
unfoldable pub use Checks.*
unfoldable pub use Validate.*
unfoldable pub use Build.*
