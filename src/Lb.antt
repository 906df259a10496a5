-- ===== src/Lb.antt =====
-- internal/lb: upstream selection. The children model the targets, the sticky table, the selection
-- algorithms and the balancer, and prove what each of them does.
pub mod Target
pub mod Sticky
pub mod Algorithms
pub mod Balancer
pub mod Scanning
pub mod Least
pub mod Weights
pub mod Draws
pub mod Picks
pub mod Rotation
pub mod Ledger
pub mod Affinity
pub mod Race
pub mod Start
mod Examples
