-- ===== src/Iptables.antt =====
-- internal/iptables: the port lists of the firewall rules, and the validator of rate limits.
pub mod PortList
pub mod Listed
pub mod RoundTrip
pub mod Validator
pub mod Agreement
pub mod Rules
pub mod Scope
mod Examples
