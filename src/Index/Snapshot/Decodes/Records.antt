-- ===== src/Index/Snapshot/Decodes/Records.antt =====
-- Each record of the snapshot reads back as it was written, and takes at least as many bytes as the
-- count test supposes.
use win_blaze.Base.{◌≡◌, Bool, true, false, [], arith, length, All}
use win_blaze.Base.Bytes.{IsU32, IsU64}
use win_blaze.Core.Timestamps.{new_timestamps}
use win_blaze.Core.Model.{
  VolumeRecord, ScanSession, DirectoryRecord, FileRecord, FileLineageRecord, FileChangeRecord,
  FileChangeSet, created_utc, modified_utc, accessed_utc,
}
use win_blaze.Index.Snapshot.Reader.{pure}
use win_blaze.Index.Snapshot.Records.{
  write_volume, read_volume, write_session, read_session, write_directory, read_directory,
  write_file, read_file,
}
use win_blaze.Index.Snapshot.History.{
  write_bool, read_bool, write_lineage, read_lineage, write_change, read_change, write_change_set,
  read_change_set,
}
use win_blaze.Index.Snapshot.Decodes.{
  Decodes, Decodes-pure, Decodes-bind, Decodes-map, Decodes-step,
}
use win_blaze.Index.Snapshot.Decodes.Primitive.{
  Fits, FitsOption, IsI64Option, IsU64Option, Decodes-u8, Decodes-u32, Decodes-u64, Decodes-string,
  Decodes-option_string, Decodes-snapshot_path, Decodes-option_i64, Decodes-option_u64,
  Decodes-file_system_kind, Decodes-scan_state, Decodes-file_change_kind,
}
use win_blaze.Index.Snapshot.Decodes.Items.{Decodes-items}
use win_blaze.Index.Snapshot.Decodes.Sizes.{length-write_change}
use mathlib.Core.Path.{subst}

-- The ranges that the Rust types give, and the texts within the reader's bound.
pub record IsVolume (v : VolumeRecord) : Type 0 where
  pub id : IsU64 v.id
  pub mount_point : Fits v.mount_point
  pub label : FitsOption v.label
  pub total_bytes : IsU64 v.total_bytes
  pub free_bytes : IsU64 v.free_bytes
  pub root_directory_id : IsU64 v.root_directory_id

pub Decodes-volume : (v : VolumeRecord) → IsVolume v → Decodes read_volume (write_volume v) v
unfolding read_volume write_volume
Decodes-volume v w = Decodes-bind _ (Decodes-u64 v.id w.id) (
    Decodes-bind _ (Decodes-string v.mount_point w.mount_point) (
      Decodes-bind _ (Decodes-option_string v.label w.label) (
        Decodes-bind _ (Decodes-u8 _) (
          Decodes-step _ (Decodes-file_system_kind v.file_system) (
            Decodes-bind _ (Decodes-u64 v.total_bytes w.total_bytes) (
              Decodes-bind _ (Decodes-u64 v.free_bytes w.free_bytes) (
                Decodes-bind _ (Decodes-u64 v.root_directory_id w.root_directory_id)
                  (Decodes-pure v))))))))

pub record IsSession (s : ScanSession) : Type 0 where
  pub session_id : IsU64 s.session_id
  pub volume_id : IsU64 s.volume_id
  pub root_path : Fits s.root_path
  pub completed_items : IsU64 s.progress.completed_items
  pub total_items : IsU64 s.progress.total_items
  pub completed_bytes : IsU64 s.progress.completed_bytes
  pub total_bytes : IsU64 s.progress.total_bytes

pub Decodes-session : (s : ScanSession) → IsSession s → Decodes read_session (write_session s) s
unfolding read_session write_session
Decodes-session s w = Decodes-bind _ (Decodes-u64 s.session_id w.session_id) (
    Decodes-bind _ (Decodes-u64 s.volume_id w.volume_id) (
      Decodes-bind _ (Decodes-string s.root_path w.root_path) (
        Decodes-bind _ (Decodes-u8 _) (
          Decodes-step _ (Decodes-scan_state s.state) (
            Decodes-bind _ (Decodes-u64 s.progress.completed_items w.completed_items) (
              Decodes-bind _ (Decodes-u64 s.progress.total_items w.total_items) (
                Decodes-bind _ (Decodes-u64 s.progress.completed_bytes w.completed_bytes) (
                  Decodes-bind _ (Decodes-u64 s.progress.total_bytes w.total_bytes)
                    (Decodes-pure s)))))))))

pub record IsDirectory (d : DirectoryRecord) : Type 0 where
  pub id : IsU64 d.id
  pub parent_directory_id : IsU64Option d.parent_directory_id
  pub name : Fits d.name
  pub full_path : Fits d.full_path
  pub direct_bytes : IsU64 d.direct_bytes
  pub total_bytes : IsU64 d.total_bytes
  pub direct_entries : IsU64 d.direct_entries
  pub total_entries : IsU64 d.total_entries

pub Decodes-directory :
    (d : DirectoryRecord) → IsDirectory d → Decodes read_directory (write_directory d) d
unfolding read_directory write_directory
Decodes-directory d w = Decodes-bind _ (Decodes-u64 d.id w.id) (
    Decodes-bind _ (Decodes-option_u64 d.parent_directory_id w.parent_directory_id) (
      Decodes-bind _ (Decodes-string d.name w.name) (
        Decodes-bind _ (Decodes-string d.full_path w.full_path) (
          Decodes-bind _ (Decodes-u64 d.direct_bytes w.direct_bytes) (
            Decodes-bind _ (Decodes-u64 d.total_bytes w.total_bytes) (
              Decodes-bind _ (Decodes-u64 d.direct_entries w.direct_entries) (
                Decodes-bind _ (Decodes-u64 d.total_entries w.total_entries) (Decodes-pure d))))))))

-- The timestamps are those that `FileTimestamps::new` makes; the fields are private, so all are.
pub record IsFile (f : FileRecord) : Type 0 where
  pub id : IsU64 f.id
  pub parent_directory_id : IsU64 f.parent_directory_id
  pub name : Fits f.name
  pub full_path : Fits f.full_path
  pub size_bytes : IsU64 f.size_bytes
  pub allocation_bytes : IsU64 f.allocation_bytes
  pub bits : IsU32 f.attributes.bits
  pub made : f.timestamps ≡ new_timestamps (created_utc f) (modified_utc f) (accessed_utc f)
  pub created_range : IsI64Option (created_utc f)
  pub modified_range : IsI64Option (modified_utc f)
  pub accessed_range : IsI64Option (accessed_utc f)

same_stamps :
    (f : FileRecord)
    → IsFile f
    → Decodes
        (pure (record f {
          timestamps = new_timestamps (created_utc f) (modified_utc f) (accessed_utc f);
        }))
        []
        f
same_stamps f w =
    subst (λ t. Decodes (pure (record f { timestamps = t })) [] f) w.made (Decodes-pure f)

pub Decodes-file : (f : FileRecord) → IsFile f → Decodes (read_file 2) (write_file f) f
unfolding read_file write_file
Decodes-file f w = Decodes-bind _ (Decodes-u64 f.id w.id) (
    Decodes-bind _ (Decodes-u64 f.parent_directory_id w.parent_directory_id) (
      Decodes-bind _ (Decodes-string f.name w.name) (
        Decodes-bind _ (Decodes-snapshot_path f.full_path w.full_path) (
          Decodes-bind _ (Decodes-u64 f.size_bytes w.size_bytes) (
            Decodes-bind _ (Decodes-u64 f.allocation_bytes w.allocation_bytes) (
              Decodes-bind _ (Decodes-u32 f.attributes.bits w.bits) (
                Decodes-bind _ (Decodes-option_i64 (created_utc f) w.created_range) (
                  Decodes-bind _ (Decodes-option_i64 (modified_utc f) w.modified_range) (
                    Decodes-bind _ (Decodes-option_i64 (accessed_utc f) w.accessed_range)
                      (same_stamps f w))))))))))

Decodes-bool : (b : Bool) → Decodes read_bool (write_bool b) b
unfolding read_bool write_bool
Decodes-bool true = Decodes-map _ (Decodes-u8 1) (Decodes-pure true)
Decodes-bool false = Decodes-map _ (Decodes-u8 0) (Decodes-pure false)

pub record IsLineage (l : FileLineageRecord) : Type 0 where
  pub file_id : IsU64 l.file_id
  pub previous_parent_directory_id : IsU64 l.previous_parent_directory_id
  pub current_parent_directory_id : IsU64 l.current_parent_directory_id
  pub previous_full_path : Fits l.previous_full_path
  pub current_full_path : Fits l.current_full_path

pub Decodes-lineage :
    (l : FileLineageRecord) → IsLineage l → Decodes read_lineage (write_lineage l) l
unfolding read_lineage write_lineage
Decodes-lineage l w = Decodes-bind _ (Decodes-u64 l.file_id w.file_id) (
    Decodes-bind _ (Decodes-u64 l.previous_parent_directory_id w.previous_parent_directory_id) (
      Decodes-bind _ (Decodes-u64 l.current_parent_directory_id w.current_parent_directory_id) (
        Decodes-bind _ (Decodes-string l.previous_full_path w.previous_full_path) (
          Decodes-bind _ (Decodes-string l.current_full_path w.current_full_path) (
            Decodes-bind _ (Decodes-bool l.renamed)
              (Decodes-bind _ (Decodes-bool l.moved) (Decodes-pure l)))))))

pub record IsChange (c : FileChangeRecord) : Type 0 where
  pub file_id : IsU64 c.file_id
  pub previous_full_path : FitsOption c.previous_full_path
  pub current_full_path : FitsOption c.current_full_path

Decodes-change : (c : FileChangeRecord) → IsChange c → Decodes read_change (write_change c) c
unfolding read_change write_change
Decodes-change c w = Decodes-bind _ (Decodes-u64 c.file_id w.file_id) (
    Decodes-bind _ (Decodes-u8 _) (
      Decodes-step _ (Decodes-file_change_kind c.kind) (
        Decodes-bind _ (Decodes-option_string c.previous_full_path w.previous_full_path) (
          Decodes-bind _ (Decodes-option_string c.current_full_path w.current_full_path)
            (Decodes-pure c)))))

pub record IsChangeSet (s : FileChangeSet) : Type 0 where
  pub count : IsU64 (length s.changes)
  pub each : All IsChange s.changes

pub Decodes-change_set :
    (s : FileChangeSet) → IsChangeSet s → Decodes read_change_set (write_change_set s) s
unfolding read_change_set write_change_set
Decodes-change_set s w =
    Decodes-map _
      (Decodes-items IsChange read_change write_change Decodes-change 10 _ (omega arith)
        length-write_change s.changes w.count w.each)
      (Decodes-pure s)
