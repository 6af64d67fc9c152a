-- ===== src/Lib.antt =====
-- WinBlaze finds and indexes the files of Windows volumes. The raw MFT reader of
-- src/WinBlaze.Scanner decodes records of the volume, src/WinBlaze.Core declares the records that all
-- parts share and compares two scans, and src/WinBlaze.Index keeps the records of a scan in arenas,
-- writes them to a snapshot file, reads them back and updates them by a later scan.
--
-- Base: lists, words, texts, finite maps and sorting on native numbers. A `str` is the list of its
--   UTF-8 bytes, a `HashMap` an association list, and a w-bit integer a number with its wrap-around
--   written out. `usize` has 64 bits.
-- Core/Model, Core/Timestamps, Core/Paths: the records, packed timestamps and paths of
--   src/WinBlaze.Core/src/model.rs and scan.rs.
-- Core/Changes: `detect_file_lineage_change` and `diff_file_records` of the same file; PerFile says
--   what they report of one file.
-- Core/Aggregation: `aggregate_directory_records` of the same file. Chains has one climb to the root,
--   Sums the reference sums, Totals and Aggregated the whole, Cycles the loops that do not end.
-- Core/Scan, Core/Query: the events of scan.rs and the queries of query.rs.
-- Index/FileRecords: `FilePositions` and `FileRecords` of src/WinBlaze.Index/src/file_records.rs. How
--   a `Vec` grows is the parameter `grow` of every operation that may grow one; nothing is supposed
--   of it.
-- Index/DirectoryRecords: src/WinBlaze.Index/src/directory_records.rs.
-- Index/Snapshot: the binary format of src/WinBlaze.Index/src/store.rs. Reader has `SnapshotReader`
--   over bytes in memory and the `?` operator as a monad, Primitive and Kinds the fields, Records and
--   History the records, State the whole state. A decoder and its writer are related by `Decodes`,
--   and RoundTrip puts the records together.
-- Index/Transaction, Index/Incremental: `BufferedIndexTransaction` of the same file, its updates, its
--   sorted copies and `apply_incremental_files`.
-- Index/Query: the text matching of src/WinBlaze.Index/src/query.rs, and in Filters the prepared
--   extensions, the test of a candidate and the hits of a search before they are sorted. `str::trim`
--   and `Path::extension` are parameters, of which nothing is supposed.
-- Scanner/Allocation: src/WinBlaze.Scanner/src/allocation.rs. The set of identities of a volume is
--   Allocation itself, the trackers are in Tracker. The order in which a hash set is iterated is the
--   parameter `order`, of which nothing is supposed.
-- Scanner/Ntfs: src/WinBlaze.Scanner/src/ntfs.rs. Runs has `decode_data_runs`, Extents
--   `trim_extents_to_valid_length` and `mft_record_physical_offset`, Keep `mft_keep_extents`,
--   Fixups `apply_record_fixups` and `apply_mft_fixups`, Checked the reads of words, FileName
--   `parse_file_name`, Records `parse_record`, Stream `NtfsStreamState` and the loop of
--   `stream_ntfs_entries` over the batches of the parser, with Ingest for a record and Finish for
--   the last pass. Events are kept in the state.
--
-- Code that mutates becomes a function that returns what it leaves. Errors are values; a panic of the
-- source (an index past a slice) is an outcome of its own where the input decides it.
-- `decode_data_runs` has as many rounds of fuel as there are bytes, and `parse_record` one more: each
-- round moves on by a byte at least. The fixups run as many rounds as the source counts. No result
-- that is `exhausted` stands for a result of the source. `drain_cascade` has a round for each directory
-- that waits, and the last pass of a stream one for each bucket of orphans: a round empties a bucket at
-- least. The climb of the aggregation has the fuel that its caller gives, since it need not end.
--
-- Not modelled: files, handles, threads and the calls of Windows (src/WinBlaze.Scanner's controller,
-- pipeline and enumeration), the user interface and its bridge (src/WinBlaze.Native), the updater,
-- the storage of names and capacities, which only affect cost, and, so far, the order of the hits of a
-- search, exports, imports and the tree read model.

pub mod Base
pub mod Core
pub mod Index
pub mod Scanner
