-- ===== src/Sync.antt =====
-- internal/sync: batches of events between machines, through shared storage.
pub mod Keys
pub mod KeyOrder
pub mod Pull
pub mod Consumed
pub mod Passed
pub mod PeerCursor
pub mod Push
pub mod Drain
pub mod Wire
pub mod Published
pub mod Loop
pub mod Floor
pub mod Files
pub mod Gcs
pub mod Cycle
