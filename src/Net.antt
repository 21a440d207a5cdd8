-- ===== src/Net.antt =====
-- vakt-net: the daemon that brings the network up and keeps it up.
pub mod Config
pub mod Supplicant
pub mod Poll
pub mod Connect
pub mod Link
pub mod Daemon
pub mod Scan
mod Tests
