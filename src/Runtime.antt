-- ===== src/Runtime.antt =====
-- The host executor: crates/lilo-rm-core and internal/runtime.
pub mod Lifecycle
pub mod Failure
pub mod EventLog
pub mod Kill
pub mod Nudge
pub mod Server
pub mod Paths
pub mod Docker
