-- ===== src/Models.antt =====
-- noble/models.py: the typed records that travel between the parts of the control plane.
mod Enums
mod Values
mod Records
mod Findings
unfoldable pub use Enums.*
unfoldable pub use Values.*
unfoldable pub use Records.*
unfoldable pub use Findings.*
