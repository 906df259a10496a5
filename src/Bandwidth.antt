-- ===== src/Bandwidth.antt =====
-- internal/bandwidth/tracker.go: bytes in hourly buckets, quotas and suspension.
pub mod Tracker
pub mod Totals
pub mod Quotas
mod Examples
