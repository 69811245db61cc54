-- ===== src/Session.antt =====
-- The session layer, which keeps the sessions and their mail above the runtime daemon.
pub mod Namespace
pub mod Mail
pub mod Store
pub mod Selector
pub mod Feed
pub mod Messaging
pub mod Spawn
