-- ===== src/Index/SearchTests.antt =====
-- The theorems about the filters of src/WinBlaze.Index/src/query.rs at concrete inputs.
use win_blaze.Base.{◌≡◌, refl, true, Option, none, some, List, [], ◌∷◌}
use win_blaze.Base.Int.{pos}
use win_blaze.Base.Text.{Text}
use win_blaze.Core.Query.{SearchQuery, contains, descending}
use win_blaze.Core.Query
use win_blaze.Core.Samples.{file_3, file_7, directory_5}
use win_blaze.Index.Query.Filters.{
  as_slice, prepare_all, no_extensions, collect_hits, finds_nothing, truncate,
}
use win_blaze.Index.Query.Filters.Prepared.{normalized, prepare_all-as_slice}
use win_blaze.Index.Query.Filters.Impossible.{finds_nothing-truncate}

abbrev trim : Text → Text
trim text = text

abbrev extension_of : Text → Option Text
extension_of text = none

-- Ten extensions, one of which is only dots.
abbrev extensions : List Text
extensions =
    (b'.' ∷ b'a' ∷ [])
    ∷ (b'b' ∷ [])
    ∷ (b'.' ∷ b'.' ∷ [])
    ∷ (b'c' ∷ [])
    ∷ (b'd' ∷ [])
    ∷ (b'e' ∷ [])
    ∷ (b'f' ∷ [])
    ∷ (b'g' ∷ [])
    ∷ (b'h' ∷ [])
    ∷ (b'i' ∷ [])
    ∷ []

prepare_all-as_slice_example :
    as_slice (prepare_all trim no_extensions extensions) ≡ normalized trim extensions
prepare_all-as_slice_example = prepare_all-as_slice trim extensions

-- After 20 and before 10.
abbrev query : SearchQuery
query = record {
  scope = record { volume_id = none; root_directory_id = none };
  pattern' = none;
  match_mode = contains;
  extensions = extensions;
  include_files = true;
  include_directories = true;
  size = record { min_bytes = none; max_bytes = none };
  modified = record { modified_after_utc = some (pos 20); modified_before_utc = some (pos 10) };
  sort_field = Query.SortField.name;
  sort_direction = descending;
  limit = some 7;
}

finds_nothing-truncate_example :
    truncate
      (some 7)
      (collect_hits trim extension_of query (file_3 ∷ file_7 ∷ []) (directory_5 ∷ []))
    ≡ []
unfolding finds_nothing
finds_nothing-truncate_example =
    finds_nothing-truncate trim extension_of query (file_3 ∷ file_7 ∷ []) (directory_5 ∷ []) refl
