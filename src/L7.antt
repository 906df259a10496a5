-- ===== src/L7.antt =====
-- internal/l7: payload inspection, bans, rate limits and scores of source addresses.
pub mod Patterns
pub mod VarInt
pub mod Inspector
pub mod Inspection
pub mod Bans
pub mod Window
pub mod Bucket
pub mod Engine
pub mod Scores
pub mod Log
pub mod Steps
pub mod Blocks
pub mod Banned
pub mod Offences
mod Examples
