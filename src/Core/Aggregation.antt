-- ===== src/Core/Aggregation.antt =====
-- `aggregate_directory_records` of src/WinBlaze.Core/src/model.rs. The `while let` loops that climb to
-- the root run on fuel, and are `none` when it runs out: the source would still be in the loop.
pub mod Chains
pub mod Sums
pub mod Totals
pub mod Aggregated
pub mod Cycles
use win_blaze.Base.{
  ℕ, zero, suc, Bool, true, false, Option, none, some, List, [], ◌∷◌, ◌==◌, if◌then◌else◌, map,
}
use win_blaze.Base.Words.{saturating_add}
use win_blaze.Base.IdMap
use win_blaze.Base.IdMap.{IdMap}
use win_blaze.Core.Model.{DirectoryRecord, FileRecord}

pub record DirectoryAggregation : Type 0 where
  pub direct_bytes : ℕ
  pub total_bytes : ℕ
  pub direct_entries : ℕ
  pub total_entries : ℕ

-- `DirectoryAggregation::default()`
abbrev pub no_aggregation : DirectoryAggregation
no_aggregation = record { direct_bytes = 0; total_bytes = 0; direct_entries = 0; total_entries = 0 }

abbrev pub ParentMap : Type 0
ParentMap = IdMap (Option ℕ)

abbrev pub Aggregates : Type 0
Aggregates = IdMap DirectoryAggregation

-- `collect` into a map: a later record of the same identifier takes the place of an earlier one.
unfoldable pub collect_parents : ParentMap → List DirectoryRecord → ParentMap
unfolding IdMap.insert
collect_parents parents [] = parents
collect_parents parents (d ∷ directories) =
    collect_parents (IdMap.insert parents d.id d.parent_directory_id) directories

unfoldable pub collect_aggregates : Aggregates → List DirectoryRecord → Aggregates
unfolding IdMap.insert
collect_aggregates aggregates [] = aggregates
collect_aggregates aggregates (d ∷ directories) =
    collect_aggregates (IdMap.insert aggregates d.id no_aggregation) directories

-- What a round of each loop does to the aggregate of the directory it is at.
unfoldable pub add_directory : Bool → DirectoryAggregation → DirectoryAggregation
add_directory is_direct_entry aggregate = record aggregate {
  direct_entries =
      if is_direct_entry
      then saturating_add aggregate.direct_entries 1
      else aggregate.direct_entries;
  total_entries = saturating_add aggregate.total_entries 1;
}

unfoldable pub add_file : ℕ → ℕ → Bool → DirectoryAggregation → DirectoryAggregation
add_file size_bytes allocation_bytes is_direct_entry aggregate = record {
  direct_bytes =
      if is_direct_entry
      then saturating_add aggregate.direct_bytes size_bytes
      else aggregate.direct_bytes;
  direct_entries =
      if is_direct_entry
      then saturating_add aggregate.direct_entries 1
      else aggregate.direct_entries;
  total_entries = saturating_add aggregate.total_entries 1;
  total_bytes = saturating_add aggregate.total_bytes allocation_bytes;
}

-- `parent_map.get(&current).and_then(|value| *value)`
abbrev pub and_then_parent : Option (Option ℕ) → Option ℕ
and_then_parent none = none
and_then_parent (some parent) = parent

-- The loop of both increments, with `add` for its body.
unfoldable pub increment :
    (Bool → DirectoryAggregation → DirectoryAggregation)
    → ℕ
    → ParentMap
    → Bool
    → Aggregates
    → ℕ
    → Option Aggregates
unfolding IdMap.get IdMap.insert
increment add zero parents is_direct_entry aggregates current = none
increment add (suc fuel) parents is_direct_entry aggregates current =
    elim (IdMap.get aggregates current) [
      | none ↦ some aggregates
      | some aggregate ↦
          let added = IdMap.insert aggregates current (add is_direct_entry aggregate) in
          elim (and_then_parent (IdMap.get parents current)) [
            | none ↦ some added
            | some parent ↦ increment add fuel parents false added parent
          ]
    ]

unfoldable pub increment_directory_entry_aggregation :
    ℕ → ParentMap → Aggregates → ℕ → Option Aggregates
unfolding increment add_directory
increment_directory_entry_aggregation fuel parents aggregates current =
    increment add_directory fuel parents true aggregates current

unfoldable pub increment_file_aggregation :
    ℕ → ParentMap → Aggregates → FileRecord → Option Aggregates
unfolding increment add_file
increment_file_aggregation fuel parents aggregates file =
    increment (add_file file.size_bytes file.allocation_bytes) fuel parents true aggregates
      file.parent_directory_id

unfoldable pub increment_directories :
    ℕ → ParentMap → Aggregates → List DirectoryRecord → Option Aggregates
unfolding increment_directory_entry_aggregation
increment_directories fuel parents aggregates [] = some aggregates
increment_directories fuel parents aggregates (d ∷ directories) = elim d.parent_directory_id [
  | none ↦ increment_directories fuel parents aggregates directories
  | some parent ↦ elim (increment_directory_entry_aggregation fuel parents aggregates parent) [
    | none ↦ none
    | some added ↦ increment_directories fuel parents added directories
  ]
]

unfoldable pub increment_files : ℕ → ParentMap → Aggregates → List FileRecord → Option Aggregates
unfolding increment_file_aggregation
increment_files fuel parents aggregates [] = some aggregates
increment_files fuel parents aggregates (file ∷ files) =
    elim (increment_file_aggregation fuel parents aggregates file) [
      | none ↦ none
      | some added ↦ increment_files fuel parents added files
    ]

unfoldable pub with_aggregate : Option DirectoryAggregation → DirectoryRecord → DirectoryRecord
with_aggregate none directory = directory
with_aggregate (some aggregate) directory = record directory {
  direct_bytes = aggregate.direct_bytes;
  total_bytes = aggregate.total_bytes;
  direct_entries = aggregate.direct_entries;
  total_entries = aggregate.total_entries;
}

unfoldable pub write_aggregates : Aggregates → List DirectoryRecord → List DirectoryRecord
unfolding IdMap.get with_aggregate
write_aggregates aggregates [] = []
write_aggregates aggregates (d ∷ directories) =
    with_aggregate (IdMap.get aggregates d.id) d ∷ write_aggregates aggregates directories

unfoldable pub aggregate_directory_records :
    ℕ → List DirectoryRecord → List FileRecord → Option (List DirectoryRecord)
unfolding collect_parents collect_aggregates increment_directories increment_files write_aggregates
aggregate_directory_records fuel directories files =
    let parents = collect_parents [] directories in
    elim (increment_directories fuel parents (collect_aggregates [] directories) directories) [
      | none ↦ none
      | some counted ↦ elim (increment_files fuel parents counted files) [
        | none ↦ none
        | some aggregates ↦ some (write_aggregates aggregates directories)
      ]
    ]
