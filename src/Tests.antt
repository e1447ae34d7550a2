-- ===== src/Tests.antt =====
-- Runs of the definitions on concrete inputs, and the theorems at such inputs.
mod Store
mod Histfile
mod Redact
mod Sync
mod Loop
mod Stats
mod Rank
mod Daemon
mod Queries
mod Histimport
mod Tui
mod Theme
mod Files
mod Export
pub mod Gcs
pub mod Cycle
pub mod Load
pub mod Web
