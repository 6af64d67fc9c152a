-- ===== src/Index/Snapshot/Decodes/Sizes.antt =====
-- The least number of bytes of each record, which the count tests rely on.
use win_blaze.Base.{
  ℕ, ◌+◌, ◌≤◌, ◌≡◌, refl, Bool, true, false, Option, none, some, List, [], ◌∷◌, ◌++◌, arith, length,
  length-append,
}
use win_blaze.Base.Int.{ℤ}
use win_blaze.Base.Bytes.{length-to_le_bytes}
use win_blaze.Base.Text.{Text}
use win_blaze.Core.Model.{
  VolumeRecord, ScanSession, DirectoryRecord, FileRecord, FileLineageRecord, FileChangeRecord,
  FileChangeSet,
}
use win_blaze.Index.Snapshot.Primitive.{
  write_u8, write_u32, write_u64, write_len, write_string, write_option_string, write_snapshot_path,
  write_option_i64, write_option_u64,
}
use win_blaze.Index.Snapshot.Records.{write_volume, write_session, write_directory, write_file}
use win_blaze.Index.Snapshot.History.{write_bool, write_lineage, write_change, write_change_set}

append_lem : (xs ys : List ℕ) → length (xs ++ ys) ≡ length xs + length ys
append_lem = length-append

u8_lem : (v : ℕ) → length (write_u8 v) ≡ 1
unfolding write_u8
u8_lem v = refl

u32_lem : (v : ℕ) → length (write_u32 v) ≡ 4
unfolding write_u32
u32_lem = length-to_le_bytes 4

u64_lem : (v : ℕ) → length (write_u64 v) ≡ 8
unfolding write_u64
u64_lem = length-to_le_bytes 8

string_lem : (t : Text) → 8 ≤ length (write_string t)
unfolding write_string write_len
string_lem t = omega (arith, append_lem, u64_lem)

option_string_lem : (o : Option Text) → 1 ≤ length (write_option_string o)
unfolding write_option_string
option_string_lem none = omega (arith, u8_lem)
option_string_lem (some t) = omega (arith, append_lem, u8_lem)

path_lem : (t : Text) → 1 ≤ length (write_snapshot_path t)
unfolding write_snapshot_path
path_lem [] = omega (arith, u8_lem)
path_lem (b ∷ t) = omega (arith, append_lem, u8_lem)

option_i64_lem : (o : Option ℤ) → 1 ≤ length (write_option_i64 o)
unfolding write_option_i64
option_i64_lem none = omega (arith, u8_lem)
option_i64_lem (some z) = omega (arith, append_lem, u8_lem)

option_u64_lem : (o : Option ℕ) → 1 ≤ length (write_option_u64 o)
unfolding write_option_u64
option_u64_lem none = omega (arith, u8_lem)
option_u64_lem (some z) = omega (arith, append_lem, u8_lem)

bool_lem : (b : Bool) → length (write_bool b) ≡ 1
unfolding write_bool
bool_lem true = omega (arith, u8_lem)
bool_lem false = omega (arith, u8_lem)

ruleset sizes = (
  arith, append_lem, u8_lem, u32_lem, u64_lem, string_lem, option_string_lem, path_lem,
  option_i64_lem, option_u64_lem, bool_lem,
)

pub length-write_volume : (v : VolumeRecord) → 34 ≤ length (write_volume v)
unfolding write_volume
length-write_volume v = omega sizes

pub length-write_session : (s : ScanSession) → 41 ≤ length (write_session s)
unfolding write_session
length-write_session s = omega sizes

pub length-write_directory : (d : DirectoryRecord) → 41 ≤ length (write_directory d)
unfolding write_directory
length-write_directory d = omega sizes

pub length-write_file : (f : FileRecord) → 48 ≤ length (write_file f)
unfolding write_file
length-write_file f = omega sizes

pub length-write_lineage : (l : FileLineageRecord) → 34 ≤ length (write_lineage l)
unfolding write_lineage
length-write_lineage l = omega sizes

pub length-write_change : (c : FileChangeRecord) → 10 ≤ length (write_change c)
unfolding write_change
length-write_change c = omega sizes

pub length-write_change_set : (s : FileChangeSet) → 8 ≤ length (write_change_set s)
unfolding write_change_set write_len
length-write_change_set s = omega sizes
