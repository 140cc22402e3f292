-- ===== src/Tests.antt =====
-- Concrete worlds, connections and frames, and the theorems applied to them.
mod Formats
mod Fixtures
mod Relays
mod Texts
mod Managers
mod Clients
mod Channels
mod Calls
mod Starts
