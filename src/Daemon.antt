-- ===== src/Daemon.antt =====
-- crates/premonition-daemon/src/lib.rs: the single-flight state machine of the service.
pub mod State
pub mod Codes
pub mod Handlers
pub mod Jobs
pub mod Service
pub mod Events
