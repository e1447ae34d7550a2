-- ===== src/Rank.antt =====
-- internal/rank: what the exit codes and the executions of a command are worth.
pub mod Outcome
pub mod Frecency
pub mod Gate
pub mod Matching
pub mod Weakest
pub mod Score
