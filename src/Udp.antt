-- ===== src/Udp.antt =====
-- internal/proxy/udp.go: the sessions of the UDP proxy.
pub mod Sessions
pub mod Readers
pub mod Reaping
pub mod History
pub mod Datagrams
pub mod Flood
mod Examples
