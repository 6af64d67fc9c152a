-- ===== src/Core/Paths.antt =====
-- `join_path` and `derive_file_path` of src/WinBlaze.Core/src/model.rs. The directory map is the
-- function that looks up in it.
use win_blaze.Base.{
  ℕ, Bool, true, false, not, ◌&&◌, Option, none, some, [], ◌∷◌, ◌++◌, ◌==◌, if◌then◌else◌,
}
use win_blaze.Base.Text.{Text}
use win_blaze.Core.Model.{DirectoryRecord, FileRecord}

abbrev pub backslash : ℕ
backslash = 0x5c

-- `str::ends_with('\\')`
unfoldable pub ends_with_backslash : Text → Bool
ends_with_backslash [] = false
ends_with_backslash (b ∷ []) = b == backslash
ends_with_backslash (b ∷ c ∷ text) = ends_with_backslash (c ∷ text)

abbrev is_empty : Text → Bool
is_empty [] = true
is_empty (b ∷ text) = false

unfoldable pub join_path : Text → Text → Text
unfolding ends_with_backslash
join_path parent name =
    if not (is_empty parent) && not (ends_with_backslash parent)
    then parent ++ backslash ∷ name
    else parent ++ name

path_in : Option DirectoryRecord → Text → Text
unfolding join_path
path_in (some parent) name = join_path parent.full_path name
path_in none name = name

unfoldable pub derive_file_path : (ℕ → Option DirectoryRecord) → FileRecord → Text
unfolding path_in
derive_file_path directories file =
    if not (is_empty file.full_path)
    then file.full_path
    else path_in (directories file.parent_directory_id) file.name
