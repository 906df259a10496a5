-- ===== src/Proxy.antt =====
-- internal/proxy: the port resolver, the registry of live connections, and numbers as texts.
pub mod Numbers
pub mod Portmap
pub mod Conn
mod Examples
