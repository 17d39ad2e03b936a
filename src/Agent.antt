-- ===== src/Agent.antt =====
-- The agent, the Go packages below agent/internal.
pub mod Ring
pub mod Capture
pub mod Control
pub mod Config
pub mod Auth
pub mod Wire
pub mod Session
pub mod Helper
pub mod Gateway
pub mod Watchdog
pub mod Provision
mod Tests
