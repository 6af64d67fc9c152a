-- ===== src/Core/Aggregation/Aggregated.antt =====
-- The result of `aggregate_directory_records` as an equation.
use win_blaze.Base.{ℕ, ◌<◌, ◌≡◌, refl, ap, ◌∙◌, true, some, List, [], ◌∷◌, arith, map, All}
use win_blaze.Base.IdMap
use win_blaze.Base.IdMap.{IdMap, get-insert}
use win_blaze.Core.Model.{DirectoryRecord, FileRecord}
use win_blaze.Core.Aggregation.{
  DirectoryAggregation, no_aggregation, ParentMap, Aggregates, collect_parents, collect_aggregates,
  with_aggregate, write_aggregates, aggregate_directory_records,
}
use win_blaze.Core.Aggregation.Chains.{is_key, HasKeysOf, IsRanked}
use win_blaze.Core.Aggregation.Sums.{
  file_entry, directory_entries, plus, plus_eq, saturated, sums, HasValues,
}
use win_blaze.Core.Aggregation.Totals.{increment_files-Counts, increment_directories-Counts}

-- The sums for an identifier, of the subdirectories and of the files.
abbrev pub total_of :
    ℕ → ParentMap → List DirectoryRecord → List FileRecord → ℕ → DirectoryAggregation
total_of fuel parents directories files id =
    plus (sums fuel parents id (directory_entries directories))
      (sums fuel parents id (map file_entry files))

nil_plus : (a : DirectoryAggregation) → plus no_aggregation a ≡ a
nil_plus a = plus_eq _ _ (omega arith) (omega arith) (omega arith) (omega arith)

abbrev pub summed :
    ℕ → ParentMap → List DirectoryRecord → List FileRecord → DirectoryRecord → DirectoryRecord
summed fuel parents directories files d =
    with_aggregate (some (saturated (total_of fuel parents directories files d.id))) d

-- Both maps, collected at once.
pub record Collected (parents : ParentMap) (aggregates : Aggregates) : Type 0 where
  pub keys : HasKeysOf parents aggregates
  pub values : HasValues parents (λ id. no_aggregation) aggregates

collect-Collected :
    (directories : List DirectoryRecord) (parents : ParentMap) (aggregates : Aggregates)
    → Collected parents aggregates
    → Collected (collect_parents parents directories) (collect_aggregates aggregates directories)
unfolding collect_parents collect_aggregates
collect-Collected [] parents aggregates c = c
collect-Collected (d ∷ directories) parents aggregates c =
    collect-Collected directories (IdMap.insert parents d.id d.parent_directory_id)
      (IdMap.insert aggregates d.id no_aggregation)
      record {
        keys = λ id. ground (
          arith,
          get-insert parents d.id d.parent_directory_id id,
          get-insert aggregates d.id no_aggregation id,
          c.keys id,
        );
        values = λ id key. ground (
          arith,
          key,
          get-insert parents d.id d.parent_directory_id id,
          get-insert aggregates d.id no_aggregation id,
          c.values id,
        );
      }

pub collected :
    (directories : List DirectoryRecord)
    → Collected (collect_parents [] directories) (collect_aggregates [] directories)
unfolding IdMap.get
collected directories =
    collect-Collected directories [] []
      record { keys = λ id. refl; values = λ id key. absurd (ground (arith, key)) }

abbrev IsKeyOf : ParentMap → DirectoryRecord → Type 0
IsKeyOf parents d = is_key (IdMap.get parents d.id) ≡ true

collect-keeps :
    (directories : List DirectoryRecord) (parents : ParentMap) (id : ℕ)
    → is_key (IdMap.get parents id) ≡ true
    → is_key (IdMap.get (collect_parents parents directories) id) ≡ true
unfolding collect_parents
collect-keeps [] parents id h = h
collect-keeps (d ∷ directories) parents id h =
    collect-keeps directories (IdMap.insert parents d.id d.parent_directory_id) id
      (ground (arith, h, get-insert parents d.id d.parent_directory_id id))

collect-All :
    (directories : List DirectoryRecord) (parents : ParentMap)
    → All (IsKeyOf (collect_parents parents directories)) directories
unfolding collect_parents
collect-All [] parents = tt
collect-All (d ∷ directories) parents =
    let inserted = IdMap.insert parents d.id d.parent_directory_id in
    (
      collect-keeps directories inserted d.id
          (ground (arith, get-insert parents d.id d.parent_directory_id d.id)),
      collect-All directories inserted,
    )

write_aggregates-HasValues :
    (parents : ParentMap) (v : ℕ → DirectoryAggregation) (aggregates : Aggregates)
    → HasValues parents v aggregates
    → (directories : List DirectoryRecord) → All (IsKeyOf parents) directories
    → write_aggregates aggregates directories
      ≡ map (λ (d : DirectoryRecord). with_aggregate (some (saturated (v d.id))) d) directories
unfolding write_aggregates
write_aggregates-HasValues parents v aggregates values [] keys = refl
write_aggregates-HasValues parents v aggregates values (d ∷ directories) keys =
    rw
      (
        values d.id keys.0,
        write_aggregates-HasValues parents v aggregates values directories keys.1,
      )
      refl

-- When each parent has a lower rank than its child, and the fuel is above all ranks, the loops
-- end, and each directory has the saturated sums over the entries: the sizes and the number of
-- those of which it is the parent, and the allocated sizes and the number of those of which it
-- is the parent or above it.
pub aggregate_directory_records_sums :
    (fuel : ℕ) (directories : List DirectoryRecord) (files : List FileRecord) (rank : ℕ → ℕ)
    → IsRanked rank (collect_parents [] directories)
    → ((id : ℕ) → rank id < fuel)
    → aggregate_directory_records fuel directories files
      ≡ some (map (summed fuel (collect_parents [] directories) directories files) directories)
unfolding aggregate_directory_records
aggregate_directory_records_sums fuel directories files rank ranked low =
    let parents = collect_parents [] directories in
    let start = collected directories in
    let a =
      increment_directories-Counts fuel parents rank ranked low directories (λ id. no_aggregation)
        (collect_aggregates [] directories) start.keys start.values in
    let b = increment_files-Counts fuel parents rank ranked low files _ a.after a.keys a.values in
    let values : HasValues parents (total_of fuel parents directories files) b.after = λ id key.
      b.values id key
      ∙ ap (λ c. some (saturated (plus c (sums fuel parents id (map file_entry files)))))
          (nil_plus (sums fuel parents id (directory_entries directories))) in
    rw (a.ends, b.ends, aggregate_directory_records)
      (ap some (
        write_aggregates-HasValues parents (total_of fuel parents directories files) b.after values
          directories (collect-All directories [])))
