-- ===== src/Mapping.antt =====
-- src/mapping.rs: from what the server tells to the types of the crate. A message that must be there
-- and is missing is a protocol error; text and bytes are copied.
mod Refs
mod Users
mod Cluster
pub mod Reading
unfoldable pub use Refs.*
unfoldable pub use Users.*
unfoldable pub use Cluster.*
