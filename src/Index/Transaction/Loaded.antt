-- ===== src/Index/Transaction/Loaded.antt =====
-- What a transaction that was read from a snapshot hands out.
use win_blaze.Base.{ℕ, ◌≡◌, length}
use win_blaze.Base.Ascending.{sort_by_key-Ascending}
use win_blaze.Core.Model.{VolumeRecord, ScanSession, DirectoryRecord, FileRecord}
use win_blaze.Index.DirectoryRecords.Loading.{into_records-load_directories}
use win_blaze.Index.FileRecords.Loading.{into_records-load_files}
use win_blaze.Index.Snapshot.Extend.{sort_by_key-extend}
use win_blaze.Index.Snapshot.RoundTrip.{Parts, IsSnapshot, loaded}
use win_blaze.Index.Transaction.{
  snapshot_volumes, snapshot_sessions, snapshot_directories, snapshot_files,
}

-- The sorted copies that a state read from a snapshot hands out are the records that were
-- written, when all values are in the ranges of their Rust types, each text is valid UTF-8 of
-- at most a mebibyte, and volumes, sessions, directories and files stand in strictly ascending
-- order of id.
pub snapshots-loaded :
    (grow : ℕ → ℕ → ℕ) (p : Parts)
    → IsSnapshot p
    → (snapshot_volumes (loaded grow p) ≡ p.volumes)
      × (snapshot_sessions (loaded grow p) ≡ p.sessions)
      × (snapshot_directories (loaded grow p) ≡ p.directories)
      × (snapshot_files (loaded grow p) ≡ p.files)
unfolding loaded snapshot_volumes snapshot_sessions snapshot_directories snapshot_files
snapshots-loaded grow p w = (
  sort_by_key-extend (λ (v : VolumeRecord). v.id) p.volumes w.volume_order,
  sort_by_key-extend (λ (s : ScanSession). s.session_id) p.sessions w.session_order,
  rw (into_records-load_directories p.directories w.directory_order)
      (sort_by_key-Ascending (λ (d : DirectoryRecord). d.id) p.directories w.directory_order),
  rw (into_records-load_files grow (length p.files) p.files w.file_order)
      (sort_by_key-Ascending (λ (f : FileRecord). f.id) p.files w.file_order),
)
