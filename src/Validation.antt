-- ===== src/Validation.antt =====
-- src/validation.rs: the checks that every request passes before it is sent.
mod Text
mod Refs
mod Metadata
pub mod Sound
pub mod Keys
pub mod Upserts
unfoldable pub use Text.*
unfoldable pub use Refs.*
unfoldable pub use Metadata.*
