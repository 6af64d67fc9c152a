-- ===== src/Index/Snapshot/State.antt =====
-- `BufferedIndexTransaction`, `write_state`, `write_sorted_records` and `deserialize_state` of
-- src/WinBlaze.Index/src/store.rs.
use win_blaze.Base.{ℕ, Bool, false, List, [], ◌∷◌, length, map, ltb, if◌then◌else◌, ◌||◌}
use win_blaze.Base.IdMap
use win_blaze.Base.IdMap.{IdMap}
use win_blaze.Base.Ascending.{sort_by_key}
use win_blaze.Base.Text.{text_eq}
use win_blaze.Core.Model.{
  VolumeRecord, ScanSession, DirectoryRecord, FileRecord, FileLineageRecord, FileChangeSet,
}
use win_blaze.Index.DirectoryRecords
use win_blaze.Index.DirectoryRecords.{DirectoryRecords}
use win_blaze.Index.FileRecords
use win_blaze.Index.FileRecords.{FileRecords}
use win_blaze.Index.Snapshot.Reader.{Result, ok, err, Decoder, ◌>>=◌, ◌>>◌, pure, fail, read_exact}
use win_blaze.Index.Snapshot.Primitive.{write_u32, read_u32}
use win_blaze.Index.Snapshot.Records.{
  writes, write_volume_records, write_session_records, write_directory_records, write_file_records,
  read_volume_records, read_session_records, read_directory_records, read_file_records,
}
use win_blaze.Index.Snapshot.History.{
  write_lineage_records, write_change_sets, read_lineage_records, read_change_sets,
}

-- b"WBIX"
abbrev pub index_magic : List ℕ
index_magic = b'W' ∷ b'B' ∷ b'I' ∷ b'X' ∷ []

abbrev pub index_format_version : ℕ
index_format_version = 2

pub record BufferedIndexTransaction : Type 0 where
  pub volumes : IdMap VolumeRecord
  pub sessions : IdMap ScanSession
  pub directories : DirectoryRecords
  pub files : FileRecords
  pub lineages : List FileLineageRecord
  pub file_changes : List FileChangeSet
  pub committed : Bool

unfoldable pub write_sorted_records :
    List VolumeRecord
    → List ScanSession
    → List DirectoryRecord
    → List FileRecord
    → List FileLineageRecord
    → List FileChangeSet
    → List ℕ
write_sorted_records volumes sessions directories files lineages file_changes = writes (
    index_magic
    ∷ write_u32 index_format_version
    ∷ write_volume_records volumes
    ∷ write_session_records sessions
    ∷ write_directory_records directories
    ∷ write_file_records files
    ∷ write_lineage_records lineages
    ∷ write_change_sets file_changes
    ∷ [])

unfoldable pub write_state : BufferedIndexTransaction → List ℕ
unfolding write_sorted_records sort_by_key
write_state state =
    write_sorted_records (sort_by_key (λ v. v.id) (map (λ e. e.1) state.volumes))
      (sort_by_key (λ s. s.session_id) (map (λ e. e.1) state.sessions))
      (sort_by_key (λ d. d.id) (DirectoryRecords.into_records state.directories))
      (sort_by_key (λ f. f.id) (FileRecords.into_records state.files)) state.lineages
      state.file_changes

unfoldable pub check_magic : List ℕ → Decoder (Unit {0})
check_magic magic = if text_eq magic index_magic then pure tt else fail "invalid magic"

unfoldable pub check_version : ℕ → Decoder (Unit {0})
check_version version =
    if ltb version 1 || ltb index_format_version version
    then fail "unsupported format version"
    else pure tt

-- `map.extend(records.into_iter().map(|r| (r.id, r)))`
unfoldable pub extend {ℓ} : {A : Type ℓ} → (A → ℕ) → IdMap A → List A → IdMap A
extend key m [] = m
extend key m (x ∷ xs) = extend key (IdMap.insert m (key x) x) xs

module _ (grow : ℕ → ℕ → ℕ) where
  unfoldable pub decode_state : Decoder BufferedIndexTransaction
  unfolding check_magic check_version
  decode_state = do
    magic ← read_exact 4
    check_magic magic
    version ← read_u32
    check_version version
    volumes ← read_volume_records
    sessions ← read_session_records
    directories ← read_directory_records
    files ← read_file_records grow version
    lineages ← read_lineage_records
    file_changes ← read_change_sets
    pure (record {
      volumes = extend (λ v. v.id) [] volumes;
      sessions = extend (λ s. s.session_id) [] sessions;
      directories = directories;
      files = files;
      lineages = lineages;
      file_changes = file_changes;
      committed = false;
    })

  -- `deserialize_state_from_reader`: what is left of the input is not looked at.
  unfoldable pub deserialize_state_from_reader : List ℕ → ℕ → Result BufferedIndexTransaction
  deserialize_state_from_reader bytes len =
      elim (decode_state (record { inner = bytes; remaining = len })) [
        | ok (state, rest) ↦ ok state
        | err e ↦ err e
      ]

  unfoldable pub deserialize_state : List ℕ → Result BufferedIndexTransaction
  unfolding deserialize_state_from_reader
  deserialize_state bytes = deserialize_state_from_reader bytes (length bytes)
