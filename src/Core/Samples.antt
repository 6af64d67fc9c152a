-- ===== src/Core/Samples.antt =====
-- Records on which the theorems are run.
use win_blaze.Base.{ℕ, none, some, [], ◌∷◌}
use win_blaze.Base.Int.{pos, negsuc}
use win_blaze.Base.Text.{Text}
use win_blaze.Core.Timestamps.{FileTimestamps}
use win_blaze.Core.Model.{FileRecord, archive_attribute, DirectoryRecord, VolumeRecord, ntfs}

-- a modification time only, before 1970
abbrev pub some_stamps : FileTimestamps
some_stamps = record { values = pos 0 ∷ negsuc 41 ∷ pos 0 ∷ []; present = 2 }

abbrev pub letter_a : Text
letter_a = b'a' ∷ []

abbrev pub letter_b : Text
letter_b = b'b' ∷ []

-- "é"
abbrev pub letter_e : Text
letter_e = 0xc3 ∷ 0xa9 ∷ []

abbrev pub file_at : ℕ → ℕ → Text → Text → ℕ → FileRecord
file_at id parent name path size = record {
  id = id;
  parent_directory_id = parent;
  name = name;
  full_path = path;
  size_bytes = size;
  allocation_bytes = 4096;
  attributes = archive_attribute;
  timestamps = some_stamps;
}

abbrev pub file_3 : FileRecord
file_3 = file_at 3 5 letter_a letter_a 10

abbrev pub file_7 : FileRecord
file_7 = file_at 7 5 letter_e [] 20

-- file 7 under another name
abbrev pub file_7_renamed : FileRecord
file_7_renamed = file_at 7 5 letter_b [] 20

abbrev pub file_9 : FileRecord
file_9 = file_at 9 5 letter_b letter_b 30

abbrev pub directory_5 : DirectoryRecord
directory_5 = record {
  id = 5;
  parent_directory_id = none;
  name = letter_b;
  full_path = letter_b;
  direct_bytes = 30;
  total_bytes = 30;
  direct_entries = 2;
  total_entries = 2;
}

abbrev pub directory_6 : DirectoryRecord
directory_6 = record directory_5 { id = 6; parent_directory_id = some 5; name = letter_a }

abbrev pub volume_1 : VolumeRecord
volume_1 = record {
  id = 1;
  mount_point = letter_b;
  label = some letter_e;
  file_system = ntfs;
  total_bytes = 1000;
  free_bytes = 100;
  root_directory_id = 5;
}
