-- ===== src/Rpc.antt =====
-- The gRPC clients of the services.
pub mod Client
pub mod Discovery
pub mod Calls
pub mod Trust
pub mod Profiles
pub mod Nacos
mod Tests
