-- ===== src/Instances.antt =====
-- internal/proxy/manager.go: the instances of the proxies, and how one is built.
pub mod Settings
pub mod Build
pub mod Manager
pub mod Table
pub mod Outcome
pub mod History
pub mod Ports
pub mod Targets
pub mod Leftovers
mod Examples
