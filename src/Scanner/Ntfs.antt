-- ===== src/Scanner/Ntfs.antt =====
-- src/WinBlaze.Scanner/src/ntfs.rs: the parts of the raw MFT reader that decode bytes of the volume.
pub mod Runs
pub mod Extents
pub mod Keep
pub mod Fixups
pub mod Checked
pub mod FileName
pub mod Records
pub mod Stream
