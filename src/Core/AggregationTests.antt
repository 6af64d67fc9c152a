-- ===== src/Core/AggregationTests.antt =====
-- The theorems about `aggregate_directory_records` of src/WinBlaze.Core/src/model.rs at concrete inputs.
use win_blaze.Base.{
  ℕ, ◌<◌, ◌≡◌, ◌⊎◌, refl, inl, inr, none, some, List, [], ◌∷◌, ◌++◌, arith, ◌==◌, if◌then◌else◌,
  map,
}
use win_blaze.Base.IdMap
use win_blaze.Core.Model.{DirectoryRecord}
use win_blaze.Core.Samples.{directory_5, directory_6, file_3, file_7}
use win_blaze.Core.Aggregation.{collect_parents, aggregate_directory_records}
use win_blaze.Core.Aggregation.Chains.{IsRanked}
use win_blaze.Core.Aggregation.Aggregated.{summed, aggregate_directory_records_sums}
use win_blaze.Core.Aggregation.Cycles.{IsClosed, aggregate_directory_records_cycle}

-- Directory 6 in directory 5, and two files in directory 5.
abbrev directories : List DirectoryRecord
directories = directory_5 ∷ directory_6 ∷ []

abbrev rank : ℕ → ℕ
rank id = if id == 6 then 1 else 0

ranked : IsRanked rank (collect_parents [] directories)
unfolding collect_parents IdMap.get IdMap.insert IdMap.remove
ranked id parent e = ground (arith, e)

low : (id : ℕ) → rank id < 2
low id = ground arith

aggregate_directory_records_sums_example :
    aggregate_directory_records 2 directories (file_3 ∷ file_7 ∷ [])
    ≡ some (
        map
          (summed 2 (collect_parents [] directories) directories (file_3 ∷ file_7 ∷ []))
          directories)
aggregate_directory_records_sums_example =
    aggregate_directory_records_sums 2 directories (file_3 ∷ file_7 ∷ []) rank ranked low

-- Directories 8 and 9, each the parent of the other.
abbrev directory_8 : DirectoryRecord
directory_8 = record directory_6 { id = 8; parent_directory_id = some 9 }

abbrev directory_9 : DirectoryRecord
directory_9 = record directory_6 { id = 9; parent_directory_id = some 8 }

abbrev IsOnCycle : ℕ → Type 0
IsOnCycle id = (id ≡ 8) ⊎ (id ≡ 9)

closed :
    IsClosed IsOnCycle (collect_parents [] ((directory_5 ∷ []) ++ directory_8 ∷ directory_9 ∷ []))
unfolding collect_parents IdMap.get IdMap.insert IdMap.remove
closed id (inl e) = (9, (rw e refl, inr refl))
closed id (inr e) = (8, (rw e refl, inl refl))

aggregate_directory_records_cycle_example :
    aggregate_directory_records 1000
      ((directory_5 ∷ []) ++ directory_8 ∷ directory_9 ∷ [])
      (file_3 ∷ [])
    ≡ none
aggregate_directory_records_cycle_example =
    aggregate_directory_records_cycle IsOnCycle (directory_5 ∷ []) directory_8 (directory_9 ∷ [])
      (file_3 ∷ []) 9 closed refl (inr refl) 1000
