-- ===== src/Client/Requests.antt =====
-- The typed calls of src/client.rs.
pub mod Messages
pub mod Users
pub mod Metadata
pub mod Attachments
pub mod Cluster
pub mod Sendable
pub mod Checked
pub mod Related
