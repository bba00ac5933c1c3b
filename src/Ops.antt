-- ===== src/Ops.antt =====
-- The operations console: cmd/ops/main.go.
pub mod Sessions
pub mod Folders
pub mod Console
pub mod Recordings
pub mod Viewers
mod Tests
