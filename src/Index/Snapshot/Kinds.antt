-- ===== src/Index/Snapshot/Kinds.antt =====
-- The one-byte codes of the snapshot format in src/WinBlaze.Index/src/store.rs.
use win_blaze.Base.{ℕ, ◌==◌, if◌then◌else◌}
use win_blaze.Core.Model.{
  FileSystemKind, ntfs, refs, fat32, ex_fat, unknown, ScanState, idle, initializing, scanning,
  indexing, completed, failed, cancelled, FileChangeKind, added, removed, modified, renamed, moved,
}
use win_blaze.Index.Snapshot.Reader.{Decoder, pure, fail}

unfoldable pub encode_file_system_kind : FileSystemKind → ℕ
encode_file_system_kind ntfs = 1
encode_file_system_kind refs = 2
encode_file_system_kind fat32 = 3
encode_file_system_kind ex_fat = 4
encode_file_system_kind unknown = 0

unfoldable pub decode_file_system_kind : ℕ → Decoder FileSystemKind
decode_file_system_kind value =
    if value == 0
    then pure unknown
    else if value == 1
    then pure ntfs
    else if value == 2
    then pure refs
    else if value == 3
    then pure fat32
    else if value == 4
    then pure ex_fat
    else fail "invalid filesystem kind"

unfoldable pub encode_scan_state : ScanState → ℕ
encode_scan_state idle = 0
encode_scan_state initializing = 1
encode_scan_state scanning = 2
encode_scan_state indexing = 3
encode_scan_state completed = 4
encode_scan_state failed = 5
encode_scan_state cancelled = 6

unfoldable pub decode_scan_state : ℕ → Decoder ScanState
decode_scan_state value =
    if value == 0
    then pure idle
    else if value == 1
    then pure initializing
    else if value == 2
    then pure scanning
    else if value == 3
    then pure indexing
    else if value == 4
    then pure completed
    else if value == 5
    then pure failed
    else if value == 6
    then pure cancelled
    else fail "invalid scan state"

unfoldable pub encode_file_change_kind : FileChangeKind → ℕ
encode_file_change_kind added = 0
encode_file_change_kind removed = 1
encode_file_change_kind modified = 2
encode_file_change_kind renamed = 3
encode_file_change_kind moved = 4

unfoldable pub decode_file_change_kind : ℕ → Decoder FileChangeKind
decode_file_change_kind value =
    if value == 0
    then pure added
    else if value == 1
    then pure removed
    else if value == 2
    then pure modified
    else if value == 3
    then pure renamed
    else if value == 4
    then pure moved
    else fail "invalid file change kind"
