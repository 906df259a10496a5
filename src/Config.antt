-- ===== src/Config.antt =====
-- internal/config: the port specifications and the validation of a proxy's configuration.
pub mod Ports
pub mod PortBounds
pub mod RateLimits
