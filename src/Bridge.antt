-- ===== src/Bridge.antt =====
-- internal/bridge: a receiver joined to a zone, and its advertisement.
pub mod Advertise
pub mod Session
pub mod Filename
pub mod Serve
mod Tests
