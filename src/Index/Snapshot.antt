-- ===== src/Index/Snapshot.antt =====
-- The binary snapshot of src/WinBlaze.Index/src/store.rs: reader, writer, and the whole format.
pub mod Reader
pub mod Primitive
pub mod Kinds
pub mod Records
pub mod History
pub mod State
pub mod Decodes
pub mod Extend
pub mod RoundTrip
