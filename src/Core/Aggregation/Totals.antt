-- ===== src/Core/Aggregation/Totals.antt =====
-- `aggregate_directory_records` gives the reference sums, when no directory is above itself.
use win_blaze.Base.{
  ℕ, ◌<◌, ◌≡◌, refl, sym, ap, ◌∙◌, inl, inr, Option-cases, true, Option, none, some, List, [], ◌∷◌,
  arith, map,
}
use mathlib.Core.Path.{subst}
use win_blaze.Core.Model.{DirectoryRecord, FileRecord}
use win_blaze.Core.Aggregation.{
  DirectoryAggregation, no_aggregation, ParentMap, Aggregates, add_directory, add_file,
  increment_directory_entry_aggregation, increment_file_aggregation, increment_directories,
  increment_files,
}
use win_blaze.Core.Aggregation.Chains.{HasKeysOf, IsRanked, increment-Climbs}
use win_blaze.Core.Aggregation.Sums.{
  Entry, file_entry, directory_entries, plus, plus_eq, plus_assoc, saturated, counted, sums,
  HasValues, Climbs-HasValues, add_directory-AddsEntry, add_file-AddsEntry,
}

-- The aggregates after a list of entries.
pub record Counts (fuel : ℕ) (parents : ParentMap) (v : ℕ → DirectoryAggregation)
    (entries : List Entry) (result : Option Aggregates) : Type 0 where
  pub after : Aggregates
  pub ends : result ≡ some after
  pub keys : HasKeysOf parents after
  pub values : HasValues parents (λ id. plus (v id) (sums fuel parents id entries)) after

plus_nil : (a : DirectoryAggregation) → a ≡ plus a no_aggregation
plus_nil a = plus_eq _ _ (omega arith) (omega arith) (omega arith) (omega arith)

-- The values of one entry and then the others.
module _ {fuel : ℕ} {parents : ParentMap} {v : ℕ → DirectoryAggregation} where
  Counts-nil :
      {aggregates : Aggregates}
      → HasKeysOf parents aggregates
      → HasValues parents v aggregates
      → Counts fuel parents v [] (some aggregates)
  Counts-nil {aggregates = aggregates} keys values = record {
    after = aggregates;
    ends = refl;
    keys = keys;
    values = λ id key. values id key ∙ ap (λ a. some (saturated a)) (plus_nil (v id));
  }

  Counts-cons :
      {entry : Entry} {entries : List Entry} {r s : Option Aggregates}
      → r ≡ s
      → Counts fuel parents (λ id. plus (v id) (counted fuel parents id entry)) entries s
      → Counts fuel parents v (entry ∷ entries) r
  Counts-cons {entry = entry} {entries = entries} e c = record {
    after = c.after;
    ends = e ∙ c.ends;
    keys = c.keys;
    values = λ id key.
        c.values id key
        ∙ ap (λ a. some (saturated a))
            (plus_assoc (v id) (counted fuel parents id entry) (sums fuel parents id entries));
  }

module _ (fuel : ℕ) (parents : ParentMap) where
  increment_files-cons :
      (aggregates after : Aggregates) (file : FileRecord) (files : List FileRecord)
      → increment_file_aggregation fuel parents aggregates file ≡ some after
      → increment_files fuel parents aggregates (file ∷ files)
        ≡ increment_files fuel parents after files
  unfolding increment_files
  increment_files-cons aggregates after file files e = rw (e, increment_files) refl

  pub increment_directories-cons :
      (aggregates after : Aggregates) (d : DirectoryRecord) (directories : List DirectoryRecord)
      (parent : ℕ)
      → d.parent_directory_id ≡ some parent
      → increment_directory_entry_aggregation fuel parents aggregates parent ≡ some after
      → increment_directories fuel parents aggregates (d ∷ directories)
        ≡ increment_directories fuel parents after directories
  unfolding increment_directories
  increment_directories-cons aggregates after d directories parent p e =
      simp (p, e, increment_directories)

  pub increment_directories-skip :
      (aggregates : Aggregates) (d : DirectoryRecord) (directories : List DirectoryRecord)
      → d.parent_directory_id ≡ none
      → increment_directories fuel parents aggregates (d ∷ directories)
        ≡ increment_directories fuel parents aggregates directories
  unfolding increment_directories
  increment_directories-skip aggregates d directories p = simp (p, increment_directories)

directory_entries-cons :
    (d : DirectoryRecord) (directories : List DirectoryRecord) (parent : ℕ)
    → d.parent_directory_id ≡ some parent
    → directory_entries (d ∷ directories)
      ≡ record { parent = parent; size_bytes = 0; allocation_bytes = 0 }
        ∷ directory_entries directories
directory_entries-cons d directories parent p = simp (p)

directory_entries-skip :
    (d : DirectoryRecord) (directories : List DirectoryRecord)
    → d.parent_directory_id ≡ none
    → directory_entries (d ∷ directories) ≡ directory_entries directories
directory_entries-skip d directories p = simp (p)

module _ (fuel : ℕ) (parents : ParentMap) (rank : ℕ → ℕ) (ranked : IsRanked rank parents)
    (low : (id : ℕ) → rank id < fuel) where
  pub increment_files-Counts :
      (files : List FileRecord) (v : ℕ → DirectoryAggregation) (aggregates : Aggregates)
      → HasKeysOf parents aggregates
      → HasValues parents v aggregates
      → Counts fuel parents v (map file_entry files) (increment_files fuel parents aggregates files)
  unfolding increment_files increment_file_aggregation
  increment_files-Counts [] v aggregates keys values = Counts-nil keys values
  increment_files-Counts (file ∷ files) v aggregates keys values =
      let add = add_file file.size_bytes file.allocation_bytes in
      let up =
        increment-Climbs add rank parents ranked fuel true aggregates file.parent_directory_id
          (low file.parent_directory_id) keys in
      let pos : 0 < fuel = omega (arith, low 0) in
      let later =
        Climbs-HasValues fuel parents (file_entry file) add (add_file-AddsEntry file) pos v
          aggregates values up in
      Counts-cons (increment_files-cons fuel parents aggregates up.after file files up.ends)
        (increment_files-Counts files _ up.after up.keys later)

  pub increment_directories-Counts :
      (directories : List DirectoryRecord) (v : ℕ → DirectoryAggregation) (aggregates : Aggregates)
      → HasKeysOf parents aggregates
      → HasValues parents v aggregates
      → Counts fuel parents v
          (directory_entries directories)
          (increment_directories fuel parents aggregates directories)
  unfolding increment_directories increment_directory_entry_aggregation
  increment_directories-Counts [] v aggregates keys values = Counts-nil keys values
  increment_directories-Counts (d ∷ directories) v aggregates keys values =
      elim (Option-cases d.parent_directory_id) [
        | inl p ↦
            rw
              (
                increment_directories-skip fuel parents aggregates d directories p,
                directory_entries-skip d directories p,
              )
              (increment_directories-Counts directories v aggregates keys values)
        | inr (parent, p) ↦
            let up =
              increment-Climbs add_directory rank parents ranked fuel true aggregates parent
                (low parent) keys in
            let pos : 0 < fuel = omega (arith, low 0) in
            let entry : Entry = record { parent = parent; size_bytes = 0; allocation_bytes = 0 } in
            let later =
              Climbs-HasValues fuel parents entry add_directory (add_directory-AddsEntry parent) pos
                v aggregates values up in
            subst
              (λ entries.
                Counts fuel parents v entries
                  (increment_directories fuel parents aggregates (d ∷ directories)))
              (sym (directory_entries-cons d directories parent p))
              (Counts-cons
                (increment_directories-cons fuel parents aggregates up.after d directories parent p
                  up.ends)
                (increment_directories-Counts directories _ up.after up.keys later))
      ]
