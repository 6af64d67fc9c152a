-- ===== src/Scanner/Ntfs/Stream.antt =====
-- `NtfsStreamState` of src/WinBlaze.Scanner/src/ntfs.rs: the parsed records of a volume as events.
-- `on_event` is called by putting the event in front of the field `emitted`, the latest first.
-- `cascade` is popped at its front, which is the end of the source's vector.
pub mod Ingest
pub mod Finish
pub mod Drained
pub mod Emptied
pub mod Finished
pub mod Conserved
pub mod Whole
pub mod Placed
pub mod Paths
pub mod Sizes
use win_blaze.Base.{
  ℕ, zero, suc, ◌+◌, ◌-◌, Bool, true, false, not, ◌&&◌, Option, none, some, List, [], ◌∷◌, ◌++◌,
  ◌==◌, if◌then◌else◌, length, max, min, map,
}
use win_blaze.Base.Words.{saturating_add}
use win_blaze.Base.Text.{Text}
use win_blaze.Base.IdMap
use win_blaze.Base.IdMap.{IdMap}
use win_blaze.Base.Ascending.{sort_by_key}
use win_blaze.Core.Timestamps.{new_timestamps}
use win_blaze.Core.Model.{FileRecord, DirectoryRecord, ScanSummary}
use win_blaze.Core.Paths.{backslash, ends_with_backslash}
use win_blaze.Core.Scan.{ScanEvent, directory_found, file_found}
use win_blaze.Scanner.Ntfs.Records.{ParsedNtfsEntry, ExtensionSizes}

pub record NtfsStreamState : Type 0 where
  pub root_text : Text
  pub resolved_paths : IdMap Text
  pub orphan_dirs : IdMap (List ParsedNtfsEntry)
  pub retained_files : IdMap ParsedNtfsEntry
  pub pending_extensions : IdMap ExtensionSizes
  pub cascade : List ParsedNtfsEntry
  pub files_seen : ℕ
  pub directories_seen : ℕ
  pub total_size_bytes : ℕ
  pub total_allocation_bytes : ℕ
  pub emitted : List ScanEvent

abbrev pub ntfs_root_record : ℕ
ntfs_root_record = 5

abbrev pub new_stream : Text → NtfsStreamState
new_stream root_text = record {
  root_text = root_text;
  resolved_paths = [];
  orphan_dirs = [];
  retained_files = [];
  pending_extensions = [];
  cascade = [];
  files_seen = 0;
  directories_seen = 0;
  total_size_bytes = 0;
  total_allocation_bytes = 0;
  emitted = [];
}

-- `normalized_parent`, of an entry's own identifier and parent
unfoldable pub parent_under : ℕ → Option ℕ → ℕ
parent_under file_id none = ntfs_root_record
parent_under file_id (some parent) = if parent == file_id then ntfs_root_record else parent

abbrev pub normalized_parent : ParsedNtfsEntry → ℕ
normalized_parent entry = parent_under entry.file_id entry.parent_directory_id

-- `join_path` of this file, which puts a separator after an empty base too
unfoldable pub join_path : Text → Text → Text
unfolding ends_with_backslash
join_path base child =
    if not (ends_with_backslash base) then base ++ backslash ∷ child else base ++ child

abbrev pub unwrap_or {ℓ} : {A : Type ℓ} → Option A → A → A
unwrap_or none d = d
unwrap_or (some a) d = a

abbrev pub is_some {ℓ} : {A : Type ℓ} → Option A → Bool
is_some none = false
is_some (some a) = true

abbrev root_record : Text → DirectoryRecord
root_record root_text = record {
  id = ntfs_root_record;
  parent_directory_id = none;
  name = root_text;
  full_path = root_text;
  direct_bytes = 0;
  total_bytes = 0;
  direct_entries = 0;
  total_entries = 0;
}

unfoldable pub emit_root : NtfsStreamState → NtfsStreamState
unfolding IdMap.insert
emit_root self = record self {
  resolved_paths = IdMap.insert self.resolved_paths ntfs_root_record self.root_text;
  directories_seen = saturating_add self.directories_seen 1;
  emitted = directory_found (root_record self.root_text) ∷ self.emitted;
}

abbrev pub file_of : ParsedNtfsEntry → FileRecord
file_of entry = record {
  id = entry.file_id;
  parent_directory_id = unwrap_or entry.parent_directory_id ntfs_root_record;
  name = entry.name;
  full_path = [];
  size_bytes = entry.size_bytes;
  allocation_bytes = entry.allocation_bytes;
  attributes = entry.attributes;
  timestamps = new_timestamps entry.created_utc entry.modified_utc entry.accessed_utc;
}

unfoldable pub emit_file : NtfsStreamState → ParsedNtfsEntry → NtfsStreamState
unfolding IdMap.insert new_timestamps
emit_file self entry = record self {
  files_seen = saturating_add self.files_seen 1;
  total_size_bytes = saturating_add self.total_size_bytes entry.size_bytes;
  total_allocation_bytes = saturating_add self.total_allocation_bytes entry.allocation_bytes;
  emitted = file_found (file_of entry) ∷ self.emitted;
  retained_files =
      if entry.has_attribute_list
      then IdMap.insert self.retained_files entry.file_id entry
      else self.retained_files;
}

-- The path of the parent, or that of the root.
abbrev pub path_under : NtfsStreamState → ParsedNtfsEntry → Text
path_under self entry =
    join_path (unwrap_or (IdMap.get self.resolved_paths (normalized_parent entry)) self.root_text)
      entry.name

abbrev pub directory_of : ParsedNtfsEntry → Text → DirectoryRecord
directory_of entry full_path = record {
  id = entry.file_id;
  parent_directory_id = entry.parent_directory_id;
  name = entry.name;
  full_path = full_path;
  direct_bytes = 0;
  total_bytes = 0;
  direct_entries = 0;
  total_entries = 0;
}

-- `extend` of a vector that is popped at the other end
unfoldable pub extend : List ParsedNtfsEntry → List ParsedNtfsEntry → List ParsedNtfsEntry
extend cascade [] = cascade
extend cascade (child ∷ children) = extend (child ∷ cascade) children

-- The children of a directory leave the orphans and join the worklist, when there are any.
unfoldable pub release : NtfsStreamState → ℕ → NtfsStreamState
unfolding IdMap.get IdMap.remove extend
release self parent = elim (IdMap.get self.orphan_dirs parent) [
  | none ↦ self
  | some children ↦ record self {
    orphan_dirs = IdMap.remove self.orphan_dirs parent;
    cascade = extend self.cascade children;
  }
]

-- The emission of one directory of the worklist, whose others are `rest`.
unfoldable pub emit_directory :
    NtfsStreamState → ParsedNtfsEntry → List ParsedNtfsEntry → NtfsStreamState
unfolding IdMap.insert IdMap.get join_path parent_under
emit_directory self entry rest =
    let full_path = path_under self entry in
    record self {
      cascade = rest;
      directories_seen = saturating_add self.directories_seen 1;
      emitted = directory_found (directory_of entry full_path) ∷ self.emitted;
      resolved_paths = IdMap.insert self.resolved_paths entry.file_id full_path;
    }

-- One round of the loop of `drain_cascade`.
unfoldable pub drain_one :
    NtfsStreamState → ParsedNtfsEntry → List ParsedNtfsEntry → NtfsStreamState
unfolding emit_directory release
drain_one self entry rest = release (emit_directory self entry rest) entry.file_id
