-- ===== src/Update.antt =====
-- The desktop updater, the Go package in update/.
pub mod Semver
pub mod Release
pub mod Ref
pub mod Policy
pub mod Pin
pub mod Daemon
pub mod Menu
pub mod Github
pub mod Registry
mod Tests
