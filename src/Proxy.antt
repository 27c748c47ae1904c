-- ===== src/Proxy.antt =====
-- The proxy daemon, proxy/proxy.go.
pub mod World
pub mod Link
pub mod Log
pub mod Client
pub mod Server
pub mod Run
pub mod Stable
pub mod Handlers
pub mod Sends
pub mod Replay
pub mod Delivery
pub mod Wired
pub mod Leaving
pub mod Timeouts
pub mod Accepting
pub mod Welcome
pub mod Pings
pub mod PreLog
pub mod NoPanic
pub mod Rejoin
pub mod Agreement
pub mod Held
pub mod Uses
pub mod Threads
mod Tests
mod Samples
