-- ===== src/Gateway.antt =====
-- The gateway: the players' WebSocket connections and the requests that come over them.
pub mod Connections
pub mod Sessions
pub mod Buffers
pub mod Members
pub mod Broadcasts
pub mod Requests
pub mod Wagers
pub mod Adapters
pub mod Frames
mod Tests
