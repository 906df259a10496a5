-- ===== src/Acl.antt =====
-- internal/acl/engine.go: ordered CIDR rules that decide on a source address, and the composition
-- of two rule sets in internal/proxy/manager.go.
pub mod Engine
pub mod Decisions
pub mod Edits
pub mod Compose
mod Examples
