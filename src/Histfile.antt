-- ===== src/Histfile.antt =====
-- internal/histfile/histfile.go: the history files that the shells keep for themselves.
pub mod Text
pub mod Entries
pub mod Escapes
pub mod Undated
pub mod Scanner
pub mod Parse
pub mod Window
pub mod Kept
