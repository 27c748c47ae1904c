-- ===== src/Irc.antt =====
-- The IRC protocol library, irc/.
pub mod Message
pub mod Parse
pub mod Reader
pub mod Writer
pub mod Codes
pub mod Validate
pub mod ClientId
pub mod Mask
pub mod Filters
mod Tests
