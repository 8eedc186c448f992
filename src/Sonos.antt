-- ===== src/Sonos.antt =====
-- internal/sonos: the zones and the commands to a player.
pub mod Zones
pub mod Escape
pub mod Client
pub mod Discovery
mod Tests
