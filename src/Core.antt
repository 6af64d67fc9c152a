-- ===== src/Core.antt =====
-- src/WinBlaze.Core: the records that all parts share, and the comparison of two snapshots.
pub mod Timestamps
pub mod Model
pub mod Paths
pub mod Scan
pub mod Query
pub mod Changes
pub mod Aggregation
pub mod Samples
mod Tests
mod AggregationTests
