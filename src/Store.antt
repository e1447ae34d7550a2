-- ===== src/Store.antt =====
-- internal/store: the event log, and the command rows that are derived from it.
pub mod Cursors
pub mod Types
pub mod Recompute
pub mod Log
pub mod Materialized
pub mod Unique
pub mod Delivery
pub mod Convergence
pub mod Rows
pub mod Ends
pub mod Replay
pub mod Outbox
pub mod Stats
pub mod Counts
pub mod Refresh
pub mod Growth
pub mod Queries
pub mod Dashboard
pub mod Keyed
pub mod Export
pub mod Follow
pub mod Candidates
