-- ===== src/Index/Snapshot/Decodes/Primitive.antt =====
-- The fields read back as they were written.
use win_blaze.Base.{
  ℕ, ◌≤◌, ◌≡◌, refl, true, Option, none, some, [], ◌∷◌, arith, length, length-append,
}
use win_blaze.Base.Int.{ℤ}
use win_blaze.Base.Bytes.{
  IsU32, IsU64, IsI64, to_le_bytes, length-to_le_bytes, from_le_bytes-to_le_bytes, i64_bits-IsU64,
  bits_i64-i64_bits, i64_bits, is_utf8,
}
use win_blaze.Base.Text.{Text}
use win_blaze.Core.Model.{
  FileSystemKind, ntfs, refs, fat32, ex_fat, unknown, ScanState, idle, initializing, scanning,
  indexing, completed, failed, cancelled, FileChangeKind, added, removed, modified, renamed, moved,
}
use win_blaze.Index.Snapshot.Reader.{◌>>=◌, read_exact}
use win_blaze.Index.Snapshot.Primitive.{
  max_snapshot_string_bytes, write_u8, write_u32, write_u64, write_len, write_string,
  write_option_string, write_snapshot_path, write_option_i64, write_option_u64, read_u8, read_u32,
  read_u64, read_i64, read_len, read_string, read_string_bytes, string_of, read_option_string,
  option_string_of, read_snapshot_path, snapshot_path_of, read_option_i64, option_i64_of,
  read_option_u64, option_u64_of,
}
use win_blaze.Index.Snapshot.Kinds.{
  encode_file_system_kind, decode_file_system_kind, encode_scan_state, decode_scan_state,
  encode_file_change_kind, decode_file_change_kind,
}
use win_blaze.Index.Snapshot.Decodes.{
  Decodes, Decodes-pure, Decodes-bind, Decodes-map, Decodes-read_exact,
}

-- What a text of the snapshot has to be: UTF-8, and within the reader's bound.
pub record Fits (t : Text) : Type 0 where
  pub utf8 : is_utf8 t ≡ true
  pub short : length t ≤ max_snapshot_string_bytes

pub Decodes-u8 : (v : ℕ) → Decodes read_u8 (write_u8 v) v
unfolding read_u8 write_u8
Decodes-u8 v = Decodes-map _ (Decodes-read_exact 1 (v ∷ []) refl) (Decodes-pure v)

pub Decodes-u32 : (v : ℕ) → IsU32 v → Decodes read_u32 (write_u32 v) v
unfolding read_u32 write_u32
Decodes-u32 v h =
    Decodes-map _ (Decodes-read_exact 4 _ (length-to_le_bytes 4 v))
      (rw (from_le_bytes-to_le_bytes 4 v (omega arith)) (Decodes-pure v))

pub Decodes-u64 : (v : ℕ) → IsU64 v → Decodes read_u64 (write_u64 v) v
unfolding read_u64 write_u64
Decodes-u64 v h =
    Decodes-map _ (Decodes-read_exact 8 _ (length-to_le_bytes 8 v))
      (rw (from_le_bytes-to_le_bytes 8 v (omega arith)) (Decodes-pure v))

Decodes-i64 : (z : ℤ) → IsI64 z → Decodes read_i64 (to_le_bytes 8 (i64_bits z)) z
unfolding read_i64
Decodes-i64 z h = Decodes-map _ (Decodes-read_exact 8 _ (length-to_le_bytes 8 (i64_bits z))) (
    rw
      (
        from_le_bytes-to_le_bytes 8 (i64_bits z) (omega (arith, i64_bits-IsU64 z h)),
        bits_i64-i64_bits z h,
      )
      (Decodes-pure z))

pub Decodes-len : (v : ℕ) → IsU64 v → Decodes read_len (write_len v) v
unfolding read_len write_len
Decodes-len v h = Decodes-u64 v h

Decodes-string_bytes : (t : Text) → Fits t → Decodes (read_string_bytes (length t)) t t
unfolding read_string_bytes string_of
Decodes-string_bytes t h =
    let read : Decodes (read_exact (length t) >>= string_of) t t =
      Decodes-map string_of (Decodes-read_exact (length t) t refl) (rw h.utf8 (Decodes-pure t)) in
    record { at = λ rest. ground (arith, length-append t rest, h.short, read.at rest) }

pub Decodes-string : (t : Text) → Fits t → Decodes read_string (write_string t) t
unfolding read_string write_string
Decodes-string t h =
    Decodes-bind _ (Decodes-len (length t) (omega (arith, h.short))) (Decodes-string_bytes t h)

abbrev pub FitsOption : Option Text → Type 0
FitsOption none = Unit
FitsOption (some t) = Fits t

pub Decodes-option_string :
    (o : Option Text) → FitsOption o → Decodes read_option_string (write_option_string o) o
unfolding read_option_string write_option_string option_string_of
Decodes-option_string none h = Decodes-map _ (Decodes-u8 0) (Decodes-pure none)
Decodes-option_string (some t) h =
    Decodes-bind _ (Decodes-u8 1) (Decodes-map _ (Decodes-string t h) (Decodes-pure (some t)))

-- A path of the current format, empty or not.
pub Decodes-snapshot_path :
    (t : Text) → Fits t → Decodes (read_snapshot_path 2) (write_snapshot_path t) t
unfolding read_snapshot_path write_snapshot_path snapshot_path_of
Decodes-snapshot_path [] h = Decodes-map _ (Decodes-u8 0) (Decodes-pure [])
Decodes-snapshot_path (b ∷ t) h = Decodes-bind _ (Decodes-u8 1) (Decodes-string (b ∷ t) h)

abbrev pub IsI64Option : Option ℤ → Type 0
IsI64Option none = Unit
IsI64Option (some z) = IsI64 z

pub Decodes-option_i64 :
    (o : Option ℤ) → IsI64Option o → Decodes read_option_i64 (write_option_i64 o) o
unfolding read_option_i64 write_option_i64 option_i64_of
Decodes-option_i64 none h = Decodes-map _ (Decodes-u8 0) (Decodes-pure none)
Decodes-option_i64 (some z) h =
    Decodes-bind _ (Decodes-u8 1) (Decodes-map _ (Decodes-i64 z h) (Decodes-pure (some z)))

abbrev pub IsU64Option : Option ℕ → Type 0
IsU64Option none = Unit
IsU64Option (some v) = IsU64 v

pub Decodes-option_u64 :
    (o : Option ℕ) → IsU64Option o → Decodes read_option_u64 (write_option_u64 o) o
unfolding read_option_u64 write_option_u64 option_u64_of
Decodes-option_u64 none h = Decodes-map _ (Decodes-u8 0) (Decodes-pure none)
Decodes-option_u64 (some v) h =
    Decodes-bind _ (Decodes-u8 1) (Decodes-map _ (Decodes-u64 v h) (Decodes-pure (some v)))

pub Decodes-file_system_kind :
    (k : FileSystemKind) → Decodes (decode_file_system_kind (encode_file_system_kind k)) [] k
unfolding decode_file_system_kind encode_file_system_kind
Decodes-file_system_kind ntfs = Decodes-pure ntfs
Decodes-file_system_kind refs = Decodes-pure refs
Decodes-file_system_kind fat32 = Decodes-pure fat32
Decodes-file_system_kind ex_fat = Decodes-pure ex_fat
Decodes-file_system_kind unknown = Decodes-pure unknown

pub Decodes-scan_state : (s : ScanState) → Decodes (decode_scan_state (encode_scan_state s)) [] s
unfolding decode_scan_state encode_scan_state
Decodes-scan_state idle = Decodes-pure idle
Decodes-scan_state initializing = Decodes-pure initializing
Decodes-scan_state scanning = Decodes-pure scanning
Decodes-scan_state indexing = Decodes-pure indexing
Decodes-scan_state completed = Decodes-pure completed
Decodes-scan_state failed = Decodes-pure failed
Decodes-scan_state cancelled = Decodes-pure cancelled

pub Decodes-file_change_kind :
    (k : FileChangeKind) → Decodes (decode_file_change_kind (encode_file_change_kind k)) [] k
unfolding decode_file_change_kind encode_file_change_kind
Decodes-file_change_kind added = Decodes-pure added
Decodes-file_change_kind removed = Decodes-pure removed
Decodes-file_change_kind modified = Decodes-pure modified
Decodes-file_change_kind renamed = Decodes-pure renamed
Decodes-file_change_kind moved = Decodes-pure moved
