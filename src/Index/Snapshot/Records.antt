-- ===== src/Index/Snapshot/Records.antt =====
-- The records of the snapshot format in src/WinBlaze.Index/src/store.rs, each with its writer. Where
-- the source decodes straight into an arena, the arena is an argument of the loop.
use win_blaze.Base.{ℕ, zero, suc, List, [], ◌∷◌, ◌++◌, length, ltb, if◌then◌else◌}
use Prim.Native.String.{String}
use win_blaze.Core.Timestamps.{new_timestamps}
use win_blaze.Core.Model.{
  VolumeRecord, ScanSession, DirectoryRecord, FileRecord, created_utc, modified_utc, accessed_utc,
}
use win_blaze.Index.DirectoryRecords
use win_blaze.Index.DirectoryRecords.{DirectoryRecords}
use win_blaze.Index.FileRecords
use win_blaze.Index.FileRecords.{FileRecords}
use win_blaze.Index.Snapshot.Reader.{Decoder, ◌>>=◌, ◌>>◌, pure, validate_collection_len, repeat}
use win_blaze.Index.Snapshot.Primitive.{
  write_u8, write_u32, write_u64, write_len, write_string, write_option_string, write_snapshot_path,
  write_option_i64, write_option_u64, read_u8, read_u32, read_u64, read_len, read_string,
  read_option_string, read_snapshot_path, read_option_i64, read_option_u64,
}
use win_blaze.Index.Snapshot.Kinds.{
  encode_file_system_kind, decode_file_system_kind, encode_scan_state, decode_scan_state,
}

-- one write after the other
abbrev pub writes : List (List ℕ) → List ℕ
writes [] = []
writes (w ∷ ws) = w ++ writes ws

abbrev pub write_each {ℓ} : {A : Type ℓ} → (A → List ℕ) → List A → List ℕ
write_each write [] = []
write_each write (x ∷ xs) = write x ++ write_each write xs

-- `write_len(writer, items.len())?` and the loop over the items
abbrev pub write_items {ℓ} : {A : Type ℓ} → (A → List ℕ) → List A → List ℕ
write_items write xs = write_len (length xs) ++ write_each write xs

unfoldable pub read_items : {A : Type 0} → ℕ → String → Decoder A → Decoder (List A)
read_items min_bytes_per_item message read = do
  len ← read_len
  validate_collection_len len min_bytes_per_item message
  repeat len read

unfoldable pub write_volume : VolumeRecord → List ℕ
write_volume volume = writes (
    write_u64 volume.id
    ∷ write_string volume.mount_point
    ∷ write_option_string volume.label
    ∷ write_u8 (encode_file_system_kind volume.file_system)
    ∷ write_u64 volume.total_bytes
    ∷ write_u64 volume.free_bytes
    ∷ write_u64 volume.root_directory_id
    ∷ [])

unfoldable pub read_volume : Decoder VolumeRecord
read_volume = do
  id ← read_u64
  mount_point ← read_string
  label ← read_option_string
  code ← read_u8
  file_system ← decode_file_system_kind code
  total_bytes ← read_u64
  free_bytes ← read_u64
  root_directory_id ← read_u64
  pure (record {
    id = id;
    mount_point = mount_point;
    label = label;
    file_system = file_system;
    total_bytes = total_bytes;
    free_bytes = free_bytes;
    root_directory_id = root_directory_id;
  })

unfoldable pub write_volume_records : List VolumeRecord → List ℕ
write_volume_records = write_items write_volume

unfoldable pub read_volume_records : Decoder (List VolumeRecord)
unfolding read_items
read_volume_records =
    read_items 34 "volume records length exceeds remaining snapshot data" read_volume

unfoldable pub write_session : ScanSession → List ℕ
write_session session = writes (
    write_u64 session.session_id
    ∷ write_u64 session.volume_id
    ∷ write_string session.root_path
    ∷ write_u8 (encode_scan_state session.state)
    ∷ write_u64 session.progress.completed_items
    ∷ write_u64 session.progress.total_items
    ∷ write_u64 session.progress.completed_bytes
    ∷ write_u64 session.progress.total_bytes
    ∷ [])

unfoldable pub read_session : Decoder ScanSession
read_session = do
  session_id ← read_u64
  volume_id ← read_u64
  root_path ← read_string
  code ← read_u8
  state ← decode_scan_state code
  completed_items ← read_u64
  total_items ← read_u64
  completed_bytes ← read_u64
  total_bytes ← read_u64
  pure (record {
    session_id = session_id;
    volume_id = volume_id;
    root_path = root_path;
    state = state;
    progress = record {
      completed_items = completed_items;
      total_items = total_items;
      completed_bytes = completed_bytes;
      total_bytes = total_bytes;
    };
  })

unfoldable pub write_session_records : List ScanSession → List ℕ
write_session_records = write_items write_session

unfoldable pub read_session_records : Decoder (List ScanSession)
unfolding read_items
read_session_records =
    read_items 41 "session records length exceeds remaining snapshot data" read_session

unfoldable pub write_directory : DirectoryRecord → List ℕ
write_directory directory = writes (
    write_u64 directory.id
    ∷ write_option_u64 directory.parent_directory_id
    ∷ write_string directory.name
    ∷ write_string directory.full_path
    ∷ write_u64 directory.direct_bytes
    ∷ write_u64 directory.total_bytes
    ∷ write_u64 directory.direct_entries
    ∷ write_u64 directory.total_entries
    ∷ [])

unfoldable pub read_directory : Decoder DirectoryRecord
read_directory = do
  id ← read_u64
  parent_directory_id ← read_option_u64
  name ← read_string
  full_path ← read_string
  direct_bytes ← read_u64
  total_bytes ← read_u64
  direct_entries ← read_u64
  total_entries ← read_u64
  pure (record {
    id = id;
    parent_directory_id = parent_directory_id;
    name = name;
    full_path = full_path;
    direct_bytes = direct_bytes;
    total_bytes = total_bytes;
    direct_entries = direct_entries;
    total_entries = total_entries;
  })

unfoldable pub write_directory_records : List DirectoryRecord → List ℕ
write_directory_records = write_items write_directory

unfoldable pub read_directories : ℕ → DirectoryRecords → Decoder DirectoryRecords
read_directories zero directories = pure directories
read_directories (suc len) directories = do
  directory ← read_directory
  read_directories len (DirectoryRecords.insert directories directory.id directory)

unfoldable pub read_directory_records : Decoder DirectoryRecords
read_directory_records = do
  len ← read_len
  validate_collection_len len 41 "directory records length exceeds remaining snapshot data"
  read_directories len DirectoryRecords.empty

unfoldable pub write_file : FileRecord → List ℕ
write_file file = writes (
    write_u64 file.id
    ∷ write_u64 file.parent_directory_id
    ∷ write_string file.name
    ∷ write_snapshot_path file.full_path
    ∷ write_u64 file.size_bytes
    ∷ write_u64 file.allocation_bytes
    ∷ write_u32 file.attributes.bits
    ∷ write_option_i64 (created_utc file)
    ∷ write_option_i64 (modified_utc file)
    ∷ write_option_i64 (accessed_utc file)
    ∷ [])

unfoldable pub read_file : ℕ → Decoder FileRecord
read_file version = do
  id ← read_u64
  parent_directory_id ← read_u64
  name ← read_string
  full_path ← read_snapshot_path version
  size_bytes ← read_u64
  allocation_bytes ← read_u64
  bits ← read_u32
  created ← read_option_i64
  modified ← read_option_i64
  accessed ← read_option_i64
  pure (record {
    id = id;
    parent_directory_id = parent_directory_id;
    name = name;
    full_path = full_path;
    size_bytes = size_bytes;
    allocation_bytes = allocation_bytes;
    attributes = record { bits = bits };
    timestamps = new_timestamps created modified accessed;
  })

unfoldable pub write_file_records : List FileRecord → List ℕ
write_file_records = write_items write_file

module _ (grow : ℕ → ℕ → ℕ) where
  unfoldable pub read_files : ℕ → ℕ → FileRecords → Decoder FileRecords
  read_files version zero files = pure files
  read_files version (suc len) files = do
    file ← read_file version
    read_files version len (FileRecords.insert grow files file.id file)

  unfoldable pub read_file_records : ℕ → Decoder FileRecords
  read_file_records version = do
    len ← read_len
    validate_collection_len len (if ltb version 2 then 57 else 48)
        "file records length exceeds remaining snapshot data"
    read_files version len (FileRecords.with_capacity len)
