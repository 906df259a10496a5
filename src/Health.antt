-- ===== src/Health.antt =====
-- internal/health: active TCP health checks. The children model the checker, and prove when a
-- target is ejected and readmitted and that the balancer's marks follow the checker.
pub mod Checker
pub mod Streaks
pub mod Marks
mod Examples
