-- ===== src/Index/Tests.antt =====
-- The theorems about src/WinBlaze.Index at concrete inputs. A vector grows to what is needed.
use win_blaze.Base.{
  ◌↔◌, true, ℕ, ◌^◌, ◌≡◌, refl, true, none, some, [], ◌∷◌, ◌++◌, arith, if◌then◌else◌, ◌==◌,
}
use win_blaze.Base.Bytes.{is_utf8}
use win_blaze.Core.Timestamps
use win_blaze.Core.Timestamps.{new_timestamps}
use win_blaze.Core.Model
use win_blaze.Core.Model.{FileRecord, DirectoryRecord, VolumeRecord}
use win_blaze.Core.Changes.PerFile.{HasUniqueIds, record_of}
use win_blaze.Core.Samples.{
  letter_a, letter_b, letter_e, file_3, file_7, file_7_renamed, file_9, directory_5, directory_6,
  volume_1,
}
use win_blaze.Index.DirectoryRecords
use win_blaze.Index.DirectoryRecords.{DirectoryRecords}
use win_blaze.Index.DirectoryRecords.Arena
use win_blaze.Index.DirectoryRecords.Arena.{get-insert_directory}
use win_blaze.Index.DirectoryRecords.Loading.{
  load_directories, empty-IsIndexed, into_records-load_directories,
}
use win_blaze.Index.FileRecords
use win_blaze.Index.FileRecords.{
  FileRecords, FilePositions, dense, with_capacity, get_position, insert_position, remove_position,
}
use win_blaze.Index.FileRecords.Positions.{get-insert_position, get-remove_position}
use win_blaze.Index.FileRecords.Arena.{IsIndexed, find, find-insert, insert-IsIndexed}
use win_blaze.Index.FileRecords.Removal.{find-remove, remove-IsIndexed}
use win_blaze.Index.FileRecords.Loading.{
  load_files, with_capacity-IsIndexed, into_records-load_files,
}
use win_blaze.Index.Snapshot.Reader.{ok}
use win_blaze.Index.Snapshot.State.{BufferedIndexTransaction, deserialize_state, write_state}
use win_blaze.Index.Snapshot.Decodes.Primitive.{Fits}
use win_blaze.Index.Snapshot.Decodes.Records.{IsVolume, IsDirectory, IsFile}
use win_blaze.Index.Snapshot.RoundTrip.{
  Parts, IsSnapshot, write_parts, loaded, deserialize_state-write_sorted_records,
  write_state-loaded,
}
use win_blaze.Index.Transaction.{
  snapshot_volumes, snapshot_sessions, snapshot_directories, snapshot_files,
}
use win_blaze.Index.Transaction.Loaded.{snapshots-loaded}
use win_blaze.Index.Query.{lowered, contains_ignore_ascii_case}
use win_blaze.Index.Query.Contains.{contains_ignore_ascii_case_iff}
use win_blaze.Base.Text.{Text}
use win_blaze.Index.Incremental.{apply_incremental_files}
use win_blaze.Index.Incremental.Files.{
  expected_file, find-apply_incremental_files, apply_incremental_files-IsIndexed,
}

abbrev exact : ℕ → ℕ → ℕ
exact capacity needed = needed

abbrev two_files : FileRecords
two_files = FileRecords.insert exact (FileRecords.insert exact (with_capacity 2) 3 file_3) 7 file_7

two_files-IsIndexed : IsIndexed two_files
two_files-IsIndexed =
    insert-IsIndexed exact (FileRecords.insert exact (with_capacity 2) 3 file_3)
      (insert-IsIndexed exact (with_capacity 2) (with_capacity-IsIndexed 2) file_3) file_7

find-insert_example :
    find (FileRecords.insert exact two_files 7 file_7_renamed) 3
    ≡ (if 7 == 3 then some file_7_renamed else find two_files 3)
find-insert_example = find-insert exact two_files two_files-IsIndexed file_7_renamed 3

insert-IsIndexed_example : IsIndexed (FileRecords.insert exact two_files 9 file_9)
insert-IsIndexed_example = insert-IsIndexed exact two_files two_files-IsIndexed file_9

find-remove_example :
    find (FileRecords.remove exact two_files 3) 7 ≡ (if 3 == 7 then none else find two_files 7)
find-remove_example = find-remove exact two_files two_files-IsIndexed 3 7

remove-IsIndexed_example : IsIndexed (FileRecords.remove exact two_files 3)
remove-IsIndexed_example = remove-IsIndexed exact two_files two_files-IsIndexed 3

-- The removal of file 3 moves file 7 to the front.
remove_test : (FileRecords.remove exact two_files 3).records ≡ file_7 ∷ []
unfolding FileRecords.remove FileRecords.insert insert_position remove_position with_capacity
    FileRecords.swap_remove
remove_test = refl

get-insert_position_example :
    get_position (insert_position exact (dense (0 ∷ 1 ∷ []) 2 2) (2 ^ 40) 8 2) 1
    ≡ (if 2 ^ 40 == 1 then some 8 else get_position (dense (0 ∷ 1 ∷ []) 2 2) 1)
get-insert_position_example = get-insert_position exact (dense (0 ∷ 1 ∷ []) 2 2) (2 ^ 40) 8 2 1

get-remove_position_example :
    ((remove_position (dense (4 ∷ 1 ∷ []) 2 2) 1).0 ≡ get_position (dense (4 ∷ 1 ∷ []) 2 2) 1)
    × (get_position (remove_position (dense (4 ∷ 1 ∷ []) 2 2) 1).1 0
        ≡ (if 1 == 0 then none else get_position (dense (4 ∷ 1 ∷ []) 2 2) 0))
get-remove_position_example = get-remove_position (dense (4 ∷ 1 ∷ []) 2 2) 1 0

into_records-load_files_example :
    FileRecords.into_records (load_files exact (with_capacity 9) (file_3 ∷ file_7 ∷ []))
    ≡ file_3 ∷ file_7 ∷ []
into_records-load_files_example =
    into_records-load_files exact 9 (file_3 ∷ file_7 ∷ []) (omega arith, (omega arith, tt))

get-insert_directory_example :
    Arena.IsIndexed (DirectoryRecords.insert DirectoryRecords.empty 5 directory_5)
    × ((j : ℕ)
        → DirectoryRecords.get (DirectoryRecords.insert DirectoryRecords.empty 5 directory_5) j
          ≡ (if 5 == j then some directory_5 else DirectoryRecords.get DirectoryRecords.empty j))
get-insert_directory_example =
    get-insert_directory DirectoryRecords.empty empty-IsIndexed directory_5

into_records-load_directories_example :
    DirectoryRecords.into_records
      (load_directories DirectoryRecords.empty (directory_5 ∷ directory_6 ∷ []))
    ≡ directory_5 ∷ directory_6 ∷ []
into_records-load_directories_example =
    into_records-load_directories (directory_5 ∷ directory_6 ∷ []) (omega arith, (omega arith, tt))

abbrev parts : Parts
parts = record {
  volumes = volume_1 ∷ [];
  sessions = [];
  directories = directory_5 ∷ directory_6 ∷ [];
  files = file_3 ∷ file_7 ∷ [];
  lineages = [];
  file_changes = [];
}

a-Fits : Fits letter_a
unfolding is_utf8
a-Fits = record { utf8 = refl; short = omega arith }

b-Fits : Fits letter_b
unfolding is_utf8
b-Fits = record { utf8 = refl; short = omega arith }

e-Fits : Fits letter_e
unfolding is_utf8
e-Fits = record { utf8 = refl; short = omega arith }

empty-Fits : Fits []
unfolding is_utf8
empty-Fits = record { utf8 = refl; short = omega arith }

file_3-IsFile : IsFile file_3
unfolding new_timestamps Model.created_utc Model.modified_utc Model.accessed_utc Timestamps.created
    Timestamps.modified Timestamps.accessed
file_3-IsFile = record {
  id = omega arith;
  parent_directory_id = omega arith;
  name = a-Fits;
  full_path = a-Fits;
  size_bytes = omega arith;
  allocation_bytes = omega arith;
  bits = omega arith;
  made = refl;
  created_range = tt;
  modified_range = omega arith;
  accessed_range = tt;
}

file_7-IsFile : IsFile file_7
unfolding new_timestamps Model.created_utc Model.modified_utc Model.accessed_utc Timestamps.created
    Timestamps.modified Timestamps.accessed
file_7-IsFile = record {
  id = omega arith;
  parent_directory_id = omega arith;
  name = e-Fits;
  full_path = empty-Fits;
  size_bytes = omega arith;
  allocation_bytes = omega arith;
  bits = omega arith;
  made = refl;
  created_range = tt;
  modified_range = omega arith;
  accessed_range = tt;
}

directory_5-IsDirectory : IsDirectory directory_5
directory_5-IsDirectory = record {
  id = omega arith;
  parent_directory_id = tt;
  name = b-Fits;
  full_path = b-Fits;
  direct_bytes = omega arith;
  total_bytes = omega arith;
  direct_entries = omega arith;
  total_entries = omega arith;
}

directory_6-IsDirectory : IsDirectory directory_6
directory_6-IsDirectory = record {
  id = omega arith;
  parent_directory_id = omega arith;
  name = a-Fits;
  full_path = b-Fits;
  direct_bytes = omega arith;
  total_bytes = omega arith;
  direct_entries = omega arith;
  total_entries = omega arith;
}

volume_1-IsVolume : IsVolume volume_1
volume_1-IsVolume = record {
  id = omega arith;
  mount_point = b-Fits;
  label = e-Fits;
  total_bytes = omega arith;
  free_bytes = omega arith;
  root_directory_id = omega arith;
}

parts-IsSnapshot : IsSnapshot parts
parts-IsSnapshot = record {
  volumes = (volume_1-IsVolume, tt);
  volume_count = omega arith;
  volume_order = (omega arith, tt);
  sessions = tt;
  session_count = omega arith;
  session_order = tt;
  directories = (directory_5-IsDirectory, (directory_6-IsDirectory, tt));
  directory_count = omega arith;
  directory_order = (omega arith, (omega arith, tt));
  files = (file_3-IsFile, (file_7-IsFile, tt));
  file_count = omega arith;
  file_order = (omega arith, (omega arith, tt));
  lineages = tt;
  lineage_count = omega arith;
  file_changes = tt;
  change_set_count = omega arith;
}

deserialize_state-write_sorted_records_example :
    deserialize_state exact (write_parts parts ++ 7 ∷ []) ≡ ok (loaded exact parts)
deserialize_state-write_sorted_records_example =
    deserialize_state-write_sorted_records exact parts (7 ∷ []) parts-IsSnapshot

write_state-loaded_example : write_state (loaded exact parts) ≡ write_parts parts
write_state-loaded_example = write_state-loaded exact parts parts-IsSnapshot

snapshots-loaded_example :
    (snapshot_volumes (loaded exact parts) ≡ parts.volumes)
    × (snapshot_sessions (loaded exact parts) ≡ parts.sessions)
    × (snapshot_directories (loaded exact parts) ≡ parts.directories)
    × (snapshot_files (loaded exact parts) ≡ parts.files)
snapshots-loaded_example = snapshots-loaded exact parts parts-IsSnapshot

abbrev transaction : BufferedIndexTransaction
transaction = record {
  volumes = [];
  sessions = [];
  directories = DirectoryRecords.empty;
  files = two_files;
  lineages = [];
  file_changes = [];
  committed = true;
}

previous_unique : HasUniqueIds (file_3 ∷ file_7 ∷ [])
previous_unique = ((λ e. omega (arith, e), tt), (tt, tt))

current_unique : HasUniqueIds (file_7_renamed ∷ file_9 ∷ [])
current_unique = ((λ e. omega (arith, e), tt), (tt, tt))

held_7 : find two_files 7 ≡ record_of 7 (file_3 ∷ file_7 ∷ [])
unfolding find FileRecords.insert insert_position get_position record_of with_capacity
held_7 = refl

find-apply_incremental_files_example :
    find
      (apply_incremental_files exact transaction
        (file_3 ∷ file_7 ∷ [])
        (file_7_renamed ∷ file_9 ∷ [])).0.files
      7
    ≡ expected_file
        (record_of 7 (file_3 ∷ file_7 ∷ []))
        (record_of 7 (file_7_renamed ∷ file_9 ∷ []))
find-apply_incremental_files_example =
    find-apply_incremental_files exact transaction (file_3 ∷ file_7 ∷ [])
      (file_7_renamed ∷ file_9 ∷ []) two_files-IsIndexed previous_unique current_unique 7 held_7

apply_incremental_files-IsIndexed_example :
    IsIndexed
      (apply_incremental_files exact transaction
        (file_3 ∷ file_7 ∷ [])
        (file_7_renamed ∷ file_9 ∷ [])).0.files
apply_incremental_files-IsIndexed_example =
    apply_incremental_files-IsIndexed exact transaction (file_3 ∷ file_7 ∷ [])
      (file_7_renamed ∷ file_9 ∷ []) two_files-IsIndexed previous_unique current_unique

-- "aBé" contains "b" in either case.
contains_ignore_ascii_case_iff_example :
    (contains_ignore_ascii_case (b'a' ∷ b'B' ∷ letter_e) letter_b ≡ true) ↔ (
      (before : Text) × (behind : Text) × (lowered (b'a' ∷ b'B' ∷ letter_e)
        ≡ before ++ (lowered letter_b ++ behind)))
contains_ignore_ascii_case_iff_example =
    contains_ignore_ascii_case_iff (b'a' ∷ b'B' ∷ letter_e) letter_b
