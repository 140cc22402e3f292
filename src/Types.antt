-- ===== src/Types.antt =====
-- src/types.rs: the data that the components exchange. Bytes are lists of numbers; i64 and i32 are
-- integers, u64, u32 and usize are numbers.
mod Core
mod Relay
mod Metadata
mod Attachments
mod Cluster
mod Requests
pub mod Builder
pub use Core.*
pub use Relay.*
unfoldable pub use Metadata.*
unfoldable pub use Attachments.*
pub use Cluster.*
pub use Requests.*
