-- ===== src/Index/Query/Filters.antt =====
-- The filters of a search in src/WinBlaze.Index/src/query.rs: the extensions that it prepares, the test
-- of a candidate, and the candidates that pass it. `str::trim` and `Path::extension` are the parameters
-- `trim` and `extension_of`.
pub mod Prepared
pub mod Impossible
use win_blaze.Base.{
  ℕ, suc, ◌+◌, ◌*◌, Bool, true, false, not, ◌&&◌, ◌||◌, Option, none, some, List, [], ◌∷◌, ◌++◌,
  ltb, leb, ◌==◌, if◌then◌else◌, length, set, take, replicate,
}
use win_blaze.Base.Int.{ℤ, ltb_ℤ}
use win_blaze.Base.Text.{Text}
use win_blaze.Core.Model.{FileRecord, DirectoryRecord, modified_utc}
use win_blaze.Core.Query.{SearchQuery, SizeFilter, DateFilter, MatchMode}
use win_blaze.Index.Query.{eq_ignore_ascii_case, matches_text}

-- `trim_start_matches('.')`
unfoldable pub trim_dots : Text → Text
trim_dots [] = []
trim_dots (b ∷ text) = let rest = trim_dots text in if b == b'.' then rest else b ∷ text

abbrev pub is_nil {ℓ} : {A : Type ℓ} → List A → Bool
is_nil [] = true
is_nil (x ∷ xs) = false

module _ (trim : Text → Text) where
  unfoldable pub normalize_extension : Text → Option Text
  unfolding trim_dots
  normalize_extension extension =
      let normalized = trim_dots (trim extension) in
      if is_nil normalized then none else some normalized

pub record PreparedExtensions : Type 0 where
  pub inline : List Text
  pub len : ℕ
  pub overflow : List Text

abbrev pub no_extensions : PreparedExtensions
no_extensions = record { inline = replicate 8 []; len = 0; overflow = [] }

-- One round of the loop of `PreparedExtensions::new`.
unfoldable pub prepare : PreparedExtensions → Text → PreparedExtensions
prepare prepared extension =
    if ltb prepared.len (length prepared.inline)
    then record prepared {
      inline = set prepared.inline prepared.len extension;
      len = prepared.len + 1;
    }
    else record prepared {
      overflow =
          (if is_nil prepared.overflow then prepared.inline else prepared.overflow)
          ++ extension ∷ [];
      len = prepared.len + 1;
    }

module _ (trim : Text → Text) where
  unfoldable pub prepare_all : PreparedExtensions → List Text → PreparedExtensions
  unfolding normalize_extension prepare
  prepare_all prepared [] = prepared
  prepare_all prepared (extension ∷ extensions) = elim (normalize_extension trim extension) [
    | none ↦ prepare_all prepared extensions
    | some normalized ↦ prepare_all (prepare prepared normalized) extensions
  ]

unfoldable pub as_slice : PreparedExtensions → List Text
as_slice prepared =
    if is_nil prepared.overflow then take prepared.len prepared.inline else prepared.overflow

pub record FileMatchParams : Type 0 where
  pub name : Text
  pub full_path : Text
  pub size_bytes : ℕ
  pub allocation_bytes : ℕ
  pub modified_utc : Option ℤ

unfoldable pub any_equal : Text → List Text → Bool
unfolding eq_ignore_ascii_case
any_equal raw [] = false
any_equal raw (extension ∷ extensions) =
    eq_ignore_ascii_case extension raw || any_equal raw extensions

-- The tests of `matches_query`, each of which can return `false`.
unfoldable pub pattern_passes : Option Text → MatchMode → FileMatchParams → Bool
unfolding matches_text
pattern_passes none mode file_params = true
pattern_passes (some text) mode file_params =
    matches_text text mode file_params.name file_params.full_path

unfoldable pub extension_passes : List Text → Option Text → Bool
unfolding any_equal
extension_passes [] extension = true
extension_passes (e ∷ extensions) none = false
extension_passes (e ∷ extensions) (some raw) = any_equal raw (e ∷ extensions)

unfoldable pub min_passes : Option ℕ → ℕ → Bool
min_passes none size = true
min_passes (some min_bytes) size = not (ltb size min_bytes)

unfoldable pub max_passes : Option ℕ → ℕ → Bool
max_passes none size = true
max_passes (some max_bytes) size = not (ltb max_bytes size)

abbrev pub leb_ℤ : ℤ → ℤ → Bool
leb_ℤ a b = not (ltb_ℤ b a)

-- `is_none_or(|value| value <= after)` and `is_none_or(|value| value >= before)` return `false`.
unfoldable pub after_passes : Option ℤ → Option ℤ → Bool
after_passes none modified = true
after_passes (some after) none = false
after_passes (some after) (some value) = not (leb_ℤ value after)

unfoldable pub before_passes : Option ℤ → Option ℤ → Bool
before_passes none modified = true
before_passes (some before) none = false
before_passes (some before) (some value) = not (leb_ℤ before value)

module _ (extension_of : Text → Option Text) where
  unfoldable pub matches_query : SearchQuery → Option Text → List Text → FileMatchParams → Bool
  unfolding pattern_passes extension_passes min_passes max_passes after_passes before_passes
  matches_query query text extensions file_params =
      pattern_passes text query.match_mode file_params
      && extension_passes extensions (extension_of file_params.full_path)
      && min_passes query.size.min_bytes file_params.size_bytes
      && max_passes query.size.max_bytes file_params.size_bytes
      && after_passes query.modified.modified_after_utc file_params.modified_utc
      && before_passes query.modified.modified_before_utc file_params.modified_utc

pub data CandidateHit : Type 0 where
  file : FileRecord → CandidateHit
  directory : DirectoryRecord → CandidateHit

unfoldable pub params : CandidateHit → FileMatchParams
unfolding modified_utc
params (file f) = record {
  name = f.name;
  full_path = f.full_path;
  size_bytes = f.size_bytes;
  allocation_bytes = f.allocation_bytes;
  modified_utc = modified_utc f;
}
params (directory d) = record {
  name = d.name;
  full_path = d.full_path;
  size_bytes = d.total_bytes;
  allocation_bytes = d.total_bytes;
  modified_utc = none;
}

abbrev pub zip_size : Option ℕ → Option ℕ → Bool
zip_size (some min_bytes) (some max_bytes) = ltb max_bytes min_bytes
zip_size _ _ = false

abbrev pub zip_date : Option ℤ → Option ℤ → Bool
zip_date (some after) (some before) = leb_ℤ before after
zip_date _ _ = false

abbrev pub is_zero : Option ℕ → Bool
is_zero none = false
is_zero (some n) = n == 0

module _ (trim : Text → Text) (extension_of : Text → Option Text) (query : SearchQuery) where
  abbrev pub is_hit : CandidateHit → Bool
  is_hit hit =
      matches_query extension_of query query.pattern'
        (as_slice (prepare_all trim no_extensions query.extensions)) (params hit)

  unfoldable pub file_hits : List FileRecord → List CandidateHit
  unfolding matches_query as_slice prepare_all params
  file_hits [] = []
  file_hits (f ∷ files) =
      let rest = file_hits files in if is_hit (file f) then file f ∷ rest else rest

  unfoldable pub directory_hits : List DirectoryRecord → List CandidateHit
  unfolding matches_query as_slice prepare_all params
  directory_hits [] = []
  directory_hits (d ∷ directories) =
      let rest = directory_hits directories in
      if is_hit (directory d) then directory d ∷ rest else rest

  -- The hits of `search`, before they are sorted.
  unfoldable pub collect_hits : List FileRecord → List DirectoryRecord → List CandidateHit
  unfolding file_hits directory_hits
  collect_hits files directories =
      (if query.include_files then file_hits files else [])
      ++ (if query.include_directories then directory_hits directories else [])

module _ (query : SearchQuery) where
  -- The test with which `search` returns early.
  unfoldable pub finds_nothing : List FileRecord → List DirectoryRecord → Bool
  finds_nothing files directories =
      is_zero query.limit
      || ((if query.include_files then 1 else 0) * length files
            + (if query.include_directories then 1 else 0) * length directories
          == 0)
      || zip_size query.size.min_bytes query.size.max_bytes
      || zip_date query.modified.modified_after_utc query.modified.modified_before_utc

abbrev pub truncate : Option ℕ → List CandidateHit → List CandidateHit
truncate none hits = hits
truncate (some limit) hits = take limit hits
