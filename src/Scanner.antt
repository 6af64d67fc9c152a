-- ===== src/Scanner.antt =====
-- src/WinBlaze.Scanner/src: reading the NTFS master file table, and what the scan selects.
pub mod Allocation
pub mod Ntfs
mod Tests
mod StreamTests
mod AllocationTests
mod KeepTests
