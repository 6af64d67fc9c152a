-- ===== src/Index/Transaction.antt =====
-- The operations of `BufferedIndexTransaction` in src/WinBlaze.Index/src/store.rs: the updates of one
-- record and the sorted copies of the records. The order of a `HashMap` does not show behind a sort.

pub mod Loaded
use win_blaze.Base.{ℕ, true, List, [], ◌∷◌, map}
use win_blaze.Base.IdMap
use win_blaze.Base.Ascending.{sort_by_key}
use win_blaze.Core.Model.{
  VolumeRecord, ScanSession, DirectoryRecord, FileRecord, FileLineageRecord, FileChangeSet,
}
use win_blaze.Core.Paths.{derive_file_path}
use win_blaze.Index.DirectoryRecords
use win_blaze.Index.FileRecords
use win_blaze.Index.Snapshot.State.{BufferedIndexTransaction}

unfoldable pub upsert_volume : BufferedIndexTransaction → VolumeRecord → BufferedIndexTransaction
upsert_volume self volume = record self { volumes = IdMap.insert self.volumes volume.id volume }

unfoldable pub upsert_session : BufferedIndexTransaction → ScanSession → BufferedIndexTransaction
upsert_session self session = record self {
  sessions = IdMap.insert self.sessions session.session_id session;
}

unfoldable pub upsert_directory :
    BufferedIndexTransaction → DirectoryRecord → BufferedIndexTransaction
upsert_directory self directory = record self {
  directories = DirectoryRecords.insert self.directories directory.id directory;
}

unfoldable pub upsert_file :
    (ℕ → ℕ → ℕ) → BufferedIndexTransaction → FileRecord → BufferedIndexTransaction
upsert_file grow self file = record self { files = FileRecords.insert grow self.files file.id file }

unfoldable pub commit : BufferedIndexTransaction → BufferedIndexTransaction
commit self = record self { committed = true }

unfoldable pub snapshot_volumes : BufferedIndexTransaction → List VolumeRecord
snapshot_volumes self = sort_by_key (λ volume. volume.id) (map (λ entry. entry.1) self.volumes)

unfoldable pub snapshot_sessions : BufferedIndexTransaction → List ScanSession
snapshot_sessions self =
    sort_by_key (λ session. session.session_id) (map (λ entry. entry.1) self.sessions)

unfoldable pub snapshot_directories : BufferedIndexTransaction → List DirectoryRecord
snapshot_directories self =
    sort_by_key (λ directory. directory.id) (DirectoryRecords.into_records self.directories)

unfoldable pub snapshot_files : BufferedIndexTransaction → List FileRecord
snapshot_files self = sort_by_key (λ file. file.id) (FileRecords.into_records self.files)

-- A file without a path gets the one that it has by its directory.
with_path : BufferedIndexTransaction → FileRecord → FileRecord
unfolding derive_file_path
with_path self file = record file {
  full_path = derive_file_path (DirectoryRecords.get self.directories) file;
}

unfoldable pub snapshot_files_with_paths : BufferedIndexTransaction → List FileRecord
unfolding snapshot_files with_path
snapshot_files_with_paths self = map (with_path self) (snapshot_files self)
