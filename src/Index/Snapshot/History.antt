-- ===== src/Index/Snapshot/History.antt =====
-- The lineage records and the change sets of the snapshot format in src/WinBlaze.Index/src/store.rs,
-- each with its writer.
use win_blaze.Base.{ℕ, Bool, true, false, not, List, [], ◌∷◌, ◌==◌}
use win_blaze.Core.Model.{FileLineageRecord, FileChangeRecord, FileChangeSet}
use win_blaze.Index.Snapshot.Reader.{Decoder, ◌>>=◌, pure}
use win_blaze.Index.Snapshot.Primitive.{
  write_u8, write_u64, write_string, write_option_string, read_u8, read_u64, read_string,
  read_option_string,
}
use win_blaze.Index.Snapshot.Kinds.{encode_file_change_kind, decode_file_change_kind}
use win_blaze.Index.Snapshot.Records.{writes, write_items, read_items}

-- `u8::from(flag)`
unfoldable pub write_bool : Bool → List ℕ
write_bool true = write_u8 1
write_bool false = write_u8 0

unfoldable pub read_bool : Decoder Bool
read_bool = do value ← read_u8; pure (not (value == 0))

unfoldable pub write_lineage : FileLineageRecord → List ℕ
write_lineage lineage = writes (
    write_u64 lineage.file_id
    ∷ write_u64 lineage.previous_parent_directory_id
    ∷ write_u64 lineage.current_parent_directory_id
    ∷ write_string lineage.previous_full_path
    ∷ write_string lineage.current_full_path
    ∷ write_bool lineage.renamed
    ∷ write_bool lineage.moved
    ∷ [])

unfoldable pub read_lineage : Decoder FileLineageRecord
read_lineage = do
  file_id ← read_u64
  previous_parent_directory_id ← read_u64
  current_parent_directory_id ← read_u64
  previous_full_path ← read_string
  current_full_path ← read_string
  renamed ← read_bool
  moved ← read_bool
  pure (record {
    file_id = file_id;
    previous_parent_directory_id = previous_parent_directory_id;
    current_parent_directory_id = current_parent_directory_id;
    previous_full_path = previous_full_path;
    current_full_path = current_full_path;
    renamed = renamed;
    moved = moved;
  })

unfoldable pub write_lineage_records : List FileLineageRecord → List ℕ
write_lineage_records = write_items write_lineage

unfoldable pub read_lineage_records : Decoder (List FileLineageRecord)
unfolding read_items
read_lineage_records =
    read_items 34 "lineage records length exceeds remaining snapshot data" read_lineage

unfoldable pub write_change : FileChangeRecord → List ℕ
write_change change = writes (
    write_u64 change.file_id
    ∷ write_u8 (encode_file_change_kind change.kind)
    ∷ write_option_string change.previous_full_path
    ∷ write_option_string change.current_full_path
    ∷ [])

unfoldable pub read_change : Decoder FileChangeRecord
read_change = do
  file_id ← read_u64
  code ← read_u8
  kind ← decode_file_change_kind code
  previous_full_path ← read_option_string
  current_full_path ← read_option_string
  pure (record {
    file_id = file_id;
    kind = kind;
    previous_full_path = previous_full_path;
    current_full_path = current_full_path;
  })

unfoldable pub write_change_set : FileChangeSet → List ℕ
write_change_set change_set = write_items write_change change_set.changes

unfoldable pub read_change_set : Decoder FileChangeSet
unfolding read_items
read_change_set = do
  changes ← read_items 10 "file changes length exceeds remaining snapshot data" read_change
  pure (record { changes = changes })

unfoldable pub write_change_sets : List FileChangeSet → List ℕ
write_change_sets = write_items write_change_set

unfoldable pub read_change_sets : Decoder (List FileChangeSet)
unfolding read_items
read_change_sets = read_items 8 "change sets length exceeds remaining snapshot data" read_change_set
