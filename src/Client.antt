-- ===== src/Client.antt =====
-- src/client.rs: the WebSocket client.
pub mod Packets
pub mod Session
pub mod Calls
pub mod Incoming
pub mod Answers
pub mod Socket
pub mod Ping
pub mod Start
pub mod Call
pub mod Requests
pub mod Methods
pub mod Answered
pub mod Run
pub mod Retry
pub mod Shut
pub mod Closing
pub mod Delivery
pub mod Acked
