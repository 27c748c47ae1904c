-- ===== src/Net.antt =====
-- The daemon's outgoing connections: internal/netextra/, and the functions of package net on
-- addresses that it calls.
pub mod HostPort
pub mod Dial
