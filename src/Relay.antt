-- ===== src/Relay.antt =====
-- src/relay.rs: connections between users over the packets of the client.
pub mod Wire
pub mod Connection
pub mod Handlers
pub mod SendTask
pub mod Ordering
pub mod Frames
pub mod Window
pub mod Loss
pub mod Channel
pub mod Stall
pub mod Exhaustion
pub mod Closing
pub mod Queue
pub mod Manager
pub mod Incoming
pub mod Outgoing
pub mod Accepting
pub mod Registry
pub mod Registered
