-- ===== src/State.antt =====
-- The session state, proxy/state/.
pub mod Handshake
pub mod Channel
pub mod Session
mod Tests
