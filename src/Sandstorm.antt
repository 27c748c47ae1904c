-- ===== src/Sandstorm.antt =====
-- The daemon and web interface for Sandstorm, sandstorm/webui/ and cmd/sandstorm-irc-idler/.
pub mod Webui
pub mod Control
mod Tests
