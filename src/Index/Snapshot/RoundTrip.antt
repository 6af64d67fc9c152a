-- ===== src/Index/Snapshot/RoundTrip.antt =====
-- A snapshot reads back as the state that was written, and writes again as the same bytes.
use win_blaze.Base.{ℕ, ◌≡◌, refl, false, List, [], ◌∷◌, ◌++◌, arith, length, All}
use win_blaze.Base.Bytes.{IsU64}
use win_blaze.Base.Text.{text_eq}
use win_blaze.Base.Ascending.{Ascending, sort_by_key-Ascending}
use win_blaze.Core.Model.{
  VolumeRecord, ScanSession, DirectoryRecord, FileRecord, FileLineageRecord, FileChangeSet,
}
use win_blaze.Index.DirectoryRecords
use win_blaze.Index.DirectoryRecords.{DirectoryRecords}
use win_blaze.Index.DirectoryRecords.Loading.{load_directories, into_records-load_directories}
use win_blaze.Index.FileRecords
use win_blaze.Index.FileRecords.{FileRecords, with_capacity}
use win_blaze.Index.FileRecords.Loading.{load_files, into_records-load_files}
use win_blaze.Index.Snapshot.Reader.{ok}
use win_blaze.Index.Snapshot.Records.{
  read_volume_records, read_session_records, read_directory_records, read_file_records,
  write_volume_records, write_session_records, write_directory_records, write_file_records,
  write_each, read_directories, read_files, write_directory, write_file,
}
use win_blaze.Index.Snapshot.History.{
  read_lineage_records, read_change_sets, write_lineage_records, write_change_sets,
}
use win_blaze.Index.Snapshot.State.{
  index_magic, BufferedIndexTransaction, extend, write_sorted_records, write_state, decode_state,
  deserialize_state, deserialize_state_from_reader,
}
use win_blaze.Index.Snapshot.Extend.{sort_by_key-extend}
use win_blaze.Index.Snapshot.Decodes.{
  Decodes, Decodes-pure, Decodes-bind, Decodes-then, Decodes-read_exact,
}
use win_blaze.Index.Snapshot.Decodes.Primitive.{Decodes-u32}
use win_blaze.Index.Snapshot.Decodes.Items.{Decodes-counted, Decodes-items}
use win_blaze.Index.Snapshot.Decodes.Sizes.{
  length-write_volume, length-write_session, length-write_directory, length-write_file,
  length-write_lineage, length-write_change_set,
}
use win_blaze.Index.Snapshot.Decodes.Records.{
  IsVolume, IsSession, IsDirectory, IsFile, IsLineage, IsChangeSet, Decodes-volume, Decodes-session,
  Decodes-directory, Decodes-file, Decodes-lineage, Decodes-change_set,
}

-- What `write_sorted_records` is given.
pub record Parts : Type 0 where
  pub volumes : List VolumeRecord
  pub sessions : List ScanSession
  pub directories : List DirectoryRecord
  pub files : List FileRecord
  pub lineages : List FileLineageRecord
  pub file_changes : List FileChangeSet

-- Values in the ranges of their Rust types, texts within the reader's bound, and records in strictly
-- ascending order of id.
pub record IsSnapshot (p : Parts) : Type 0 where
  pub volumes : All IsVolume p.volumes
  pub volume_count : IsU64 (length p.volumes)
  pub volume_order : Ascending (λ (v : VolumeRecord). v.id) 0 p.volumes
  pub sessions : All IsSession p.sessions
  pub session_count : IsU64 (length p.sessions)
  pub session_order : Ascending (λ (s : ScanSession). s.session_id) 0 p.sessions
  pub directories : All IsDirectory p.directories
  pub directory_count : IsU64 (length p.directories)
  pub directory_order : Ascending (λ (d : DirectoryRecord). d.id) 0 p.directories
  pub files : All IsFile p.files
  pub file_count : IsU64 (length p.files)
  pub file_order : Ascending (λ (f : FileRecord). f.id) 0 p.files
  pub lineages : All IsLineage p.lineages
  pub lineage_count : IsU64 (length p.lineages)
  pub file_changes : All IsChangeSet p.file_changes
  pub change_set_count : IsU64 (length p.file_changes)

abbrev pub write_parts : Parts → List ℕ
write_parts p =
    write_sorted_records p.volumes p.sessions p.directories p.files p.lineages p.file_changes

Decodes-directories :
    (acc : DirectoryRecords) (ds : List DirectoryRecord)
    → All IsDirectory ds
    → Decodes
        (read_directories (length ds) acc)
        (write_each write_directory ds)
        (load_directories acc ds)
unfolding read_directories load_directories
Decodes-directories acc [] h = Decodes-pure acc
Decodes-directories acc (d ∷ ds) h =
    Decodes-bind _ (Decodes-directory d h.0)
      (Decodes-directories (DirectoryRecords.insert acc d.id d) ds h.1)

module _ (grow : ℕ → ℕ → ℕ) where
  Decodes-files :
      (acc : FileRecords) (fs : List FileRecord)
      → All IsFile fs
      → Decodes
          (read_files grow 2 (length fs) acc)
          (write_each write_file fs)
          (load_files grow acc fs)
  unfolding read_files load_files
  Decodes-files acc [] h = Decodes-pure acc
  Decodes-files acc (f ∷ fs) h =
      Decodes-bind _ (Decodes-file f h.0)
        (Decodes-files (FileRecords.insert grow acc f.id f) fs h.1)

  -- The state that a snapshot is read as.
  unfoldable pub loaded : Parts → BufferedIndexTransaction
  loaded p = record {
    volumes = extend (λ v. v.id) [] p.volumes;
    sessions = extend (λ s. s.session_id) [] p.sessions;
    directories = load_directories DirectoryRecords.empty p.directories;
    files = load_files grow (with_capacity (length p.files)) p.files;
    lineages = p.lineages;
    file_changes = p.file_changes;
    committed = false;
  }

  Decodes-state :
      (p : Parts) → IsSnapshot p → Decodes (decode_state grow) (write_parts p) (loaded p)
  unfolding decode_state write_sorted_records loaded read_volume_records write_volume_records
      read_session_records write_session_records read_directory_records write_directory_records
      read_file_records write_file_records read_lineage_records write_lineage_records
      read_change_sets write_change_sets text_eq
  Decodes-state p w = Decodes-bind _ (Decodes-read_exact 4 index_magic refl) (
      Decodes-then (Decodes-pure tt) (
        Decodes-bind _ (Decodes-u32 2 (omega arith)) (
          Decodes-then (Decodes-pure tt) (
            Decodes-bind _
              (Decodes-items IsVolume _ _ Decodes-volume 34 _ (omega arith) length-write_volume
                p.volumes w.volume_count w.volumes)
              (Decodes-bind _
                (Decodes-items IsSession _ _ Decodes-session 41 _ (omega arith) length-write_session
                  p.sessions w.session_count w.sessions)
                (Decodes-bind _
                  (Decodes-counted 41 _ _ (omega arith) length-write_directory p.directories
                    (λ len. read_directories len DirectoryRecords.empty) w.directory_count
                    (Decodes-directories DirectoryRecords.empty p.directories w.directories))
                  (Decodes-bind _
                    (Decodes-counted 48 _ _ (omega arith) length-write_file p.files
                      (λ len. read_files grow 2 len (with_capacity len)) w.file_count
                      (Decodes-files (with_capacity (length p.files)) p.files w.files))
                    (Decodes-bind _
                      (Decodes-items IsLineage _ _ Decodes-lineage 34 _ (omega arith)
                        length-write_lineage p.lineages w.lineage_count w.lineages)
                      (Decodes-bind _
                        (Decodes-items IsChangeSet _ _ Decodes-change_set 8 _ (omega arith)
                          length-write_change_set p.file_changes w.change_set_count w.file_changes)
                        (Decodes-pure (loaded p)))))))))))

  -- Reading the bytes that `write_sorted_records` writes, whatever bytes follow them, succeeds
  -- and gives the state that holds those records: the maps and arenas filled with them in
  -- order, with `committed` false. All values, timestamps included, are in the ranges of their
  -- Rust types, each text is valid UTF-8 of at most a mebibyte, and volumes, sessions,
  -- directories and files stand in strictly ascending order of id.
  pub deserialize_state-write_sorted_records :
      (p : Parts) (rest : List ℕ)
      → IsSnapshot p
      → deserialize_state grow (write_parts p ++ rest) ≡ ok (loaded p)
  unfolding deserialize_state
  deserialize_state-write_sorted_records p rest w =
      rw ((Decodes-state p w).at rest, deserialize_state_from_reader)

  -- Writing the state that was read from a snapshot gives the bytes of the snapshot again, when
  -- all values are in the ranges of their Rust types, each text is valid UTF-8 of at most a
  -- mebibyte, and volumes, sessions, directories and files stand in strictly ascending order of
  -- id.
  pub write_state-loaded : (p : Parts) → IsSnapshot p → write_state (loaded p) ≡ write_parts p
  unfolding write_state loaded
  write_state-loaded p w = rw (
    sort_by_key-extend (λ (v : VolumeRecord). v.id) p.volumes w.volume_order,
    sort_by_key-extend (λ (s : ScanSession). s.session_id) p.sessions w.session_order,
    into_records-load_directories p.directories w.directory_order,
    into_records-load_files grow (length p.files) p.files w.file_order,
    sort_by_key-Ascending (λ (d : DirectoryRecord). d.id) p.directories w.directory_order,
    sort_by_key-Ascending (λ (f : FileRecord). f.id) p.files w.file_order,
  )
