-- ===== src/Proxy/NoPanic.antt =====
-- Panics in the loop of `Run` and in what it calls.
pub mod Steps
pub mod Logs
pub mod Messages
pub mod ClientSide
pub mod ServerSide
pub mod Events
mod Tests
