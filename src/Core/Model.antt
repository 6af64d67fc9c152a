-- ===== src/Core/Model.antt =====
-- src/WinBlaze.Core/src/model.rs, and the records of scan.rs: identifiers, attributes, timestamps and
-- the records of files, directories, volumes, sessions and changes. `FileId`, `DirectoryId` and
-- `VolumeId` are the number that each wraps. A `FileName` stands for the text that it dereferences
-- to; its inline and heap storage is not modelled.
use Prim.Native.Nat.{bit_and}
use win_blaze.Base.{ℕ, Bool, Option, List, ◌==◌}
use win_blaze.Base.Int.{ℤ}
use win_blaze.Base.Text.{Text}
use win_blaze.Core.Timestamps
use win_blaze.Core.Timestamps.{FileTimestamps}

pub data FileSystemKind : Type 0 where
  ntfs refs fat32 ex_fat unknown : FileSystemKind

-- `FileAttributes(pub u32)`
pub record FileAttributes : Type 0 where
  pub bits : ℕ

abbrev pub directory_attribute : FileAttributes
directory_attribute = record { bits = 0x10 }

abbrev pub archive_attribute : FileAttributes
archive_attribute = record { bits = 0x20 }

abbrev pub reparse_point_attribute : FileAttributes
reparse_point_attribute = record { bits = 0x400 }

unfoldable pub contains : FileAttributes → FileAttributes → Bool
contains self other = bit_and self.bits other.bits == other.bits

unfoldable pub is_directory : FileAttributes → Bool
unfolding contains
is_directory self = contains self directory_attribute

unfoldable pub is_reparse_point : FileAttributes → Bool
unfolding contains
is_reparse_point self = contains self reparse_point_attribute

pub record FileRecord : Type 0 where
  pub id : ℕ
  pub parent_directory_id : ℕ
  pub name : Text
  pub full_path : Text
  pub size_bytes : ℕ
  pub allocation_bytes : ℕ
  pub attributes : FileAttributes
  pub timestamps : FileTimestamps

unfoldable pub created_utc : FileRecord → Option ℤ
created_utc self = Timestamps.created self.timestamps

unfoldable pub modified_utc : FileRecord → Option ℤ
modified_utc self = Timestamps.modified self.timestamps

unfoldable pub accessed_utc : FileRecord → Option ℤ
accessed_utc self = Timestamps.accessed self.timestamps

pub record DirectoryRecord : Type 0 where
  pub id : ℕ
  pub parent_directory_id : Option ℕ
  pub name : Text
  pub full_path : Text
  pub direct_bytes : ℕ
  pub total_bytes : ℕ
  pub direct_entries : ℕ
  pub total_entries : ℕ

pub record VolumeRecord : Type 0 where
  pub id : ℕ
  pub mount_point : Text
  pub label : Option Text
  pub file_system : FileSystemKind
  pub total_bytes : ℕ
  pub free_bytes : ℕ
  pub root_directory_id : ℕ

pub record ScanProgress : Type 0 where
  pub completed_items : ℕ
  pub total_items : ℕ
  pub completed_bytes : ℕ
  pub total_bytes : ℕ

pub data ScanState : Type 0 where
  idle initializing scanning indexing completed failed cancelled : ScanState

pub record ScanSession : Type 0 where
  pub session_id : ℕ
  pub volume_id : ℕ
  pub root_path : Text
  pub state : ScanState
  pub progress : ScanProgress

pub record ScanSummary : Type 0 where
  pub files_seen : ℕ
  pub directories_seen : ℕ
  pub total_size_bytes : ℕ
  pub total_allocation_bytes : ℕ

pub record FileLineageRecord : Type 0 where
  pub file_id : ℕ
  pub previous_parent_directory_id : ℕ
  pub current_parent_directory_id : ℕ
  pub previous_full_path : Text
  pub current_full_path : Text
  pub renamed : Bool
  pub moved : Bool

pub data FileChangeKind : Type 0 where
  added removed modified renamed moved : FileChangeKind

pub record FileChangeRecord : Type 0 where
  pub file_id : ℕ
  pub kind : FileChangeKind
  pub previous_full_path : Option Text
  pub current_full_path : Option Text

pub record FileChangeSet : Type 0 where
  pub changes : List FileChangeRecord
