-- ===== src/Proto.antt =====
-- The messages of proto/client.proto that the client sends and receives, as the structs that are
-- generated from them: a message inside a message may be missing, an enum is its number, and the
-- request id stands beside the message. `UserRef`, `MessageCursor` and `SessionRef` have the
-- fields of the types of src/types.rs and are these.
mod Core
mod Cluster
mod Requests
pub use Core.*
pub use Cluster.*
pub use Requests.*
