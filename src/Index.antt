-- ===== src/Index.antt =====
-- src/WinBlaze.Index: the records of a scan in memory, the snapshot file that keeps them, and the
-- update of the records by a later scan.
pub mod DirectoryRecords
pub mod FileRecords
pub mod Snapshot
pub mod Transaction
pub mod Incremental
pub mod Query
mod Tests
mod SearchTests
