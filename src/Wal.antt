-- ===== src/Wal.antt =====
-- wal/: the entries of the write-ahead log and its segment files.
pub mod Entry
pub mod Segment
pub mod Writer
pub mod Reader
mod Tests
