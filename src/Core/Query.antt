-- ===== src/Core/Query.antt =====
-- The queries of src/WinBlaze.Core/src/query.rs.
use win_blaze.Base.{ℕ, Bool, Option, List}
use win_blaze.Base.Int.{ℤ}
use win_blaze.Base.Text.{Text}

pub record SearchScope : Type 0 where
  pub volume_id : Option ℕ
  pub root_directory_id : Option ℕ

pub record SizeFilter : Type 0 where
  pub min_bytes : Option ℕ
  pub max_bytes : Option ℕ

pub record DateFilter : Type 0 where
  pub modified_after_utc : Option ℤ
  pub modified_before_utc : Option ℤ

pub data MatchMode : Type 0 where
  exact prefix contains substring : MatchMode

pub data SortField : Type 0 where
  name size_bytes allocation_bytes modified_utc path : SortField

pub data SortDirection : Type 0 where
  descending ascending : SortDirection

pub record SearchQuery : Type 0 where
  pub scope : SearchScope
  pub pattern' : Option Text
  pub match_mode : MatchMode
  pub extensions : List Text
  pub include_files : Bool
  pub include_directories : Bool
  pub size : SizeFilter
  pub modified : DateFilter
  pub sort_field : SortField
  pub sort_direction : SortDirection
  pub limit : Option ℕ
