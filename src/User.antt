-- ===== src/User.antt =====
-- Users: registration, login, tokens and sessions.
pub mod Defs
pub mod Accounts
pub mod Documented
pub mod Tokens
pub mod Sessions
pub mod Handlers
pub mod Responses
mod Tests
