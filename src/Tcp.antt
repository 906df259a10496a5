-- ===== src/Tcp.antt =====
-- internal/proxy/tcp.go and draining.go: the connections of a TCP proxy.
pub mod Drainer
pub mod Connections
pub mod Events
pub mod Holdings
pub mod Registry
pub mod Credits
pub mod Sound
pub mod Runs
pub mod Picking
pub mod History
pub mod Drained
pub mod Lookups
pub mod Late
pub mod Banned
pub mod Copies
mod Examples
