-- ===== src/Raop.antt =====
-- internal/raop: the AirPlay receiver.
pub mod Base64
pub mod Challenge
pub mod Wire
pub mod Reorder
pub mod Rtp
pub mod Sdp
pub mod Resend
pub mod Receiver
mod AnnounceTests
mod WireTests
mod Tests
