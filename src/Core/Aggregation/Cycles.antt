-- ===== src/Core/Aggregation/Cycles.antt =====
-- Without a guard against cycles, the loops of the aggregation do not end on one.
use win_blaze.Base.{
  ℕ, zero, suc, ◌≡◌, refl, sym, ◌∙◌, inl, inr, Option-cases, Bool, true, false, Option, none, some,
  List, [], ◌∷◌, ◌++◌, arith,
}
use mathlib.Core.Path.{subst}
use win_blaze.Base.IdMap
use win_blaze.Base.IdMap.{get-insert}
use win_blaze.Core.Model.{DirectoryRecord, FileRecord}
use win_blaze.Core.Aggregation.{
  ParentMap, Aggregates, collect_parents, collect_aggregates, and_then_parent, add_directory,
  increment, increment_directory_entry_aggregation, increment_directories,
  aggregate_directory_records,
}
use win_blaze.Core.Aggregation.Chains.{
  Add, is_key, HasKeysOf, increment-outside, increment-last, increment-next, increment-under,
}
use win_blaze.Core.Aggregation.Totals.{increment_directories-cons, increment_directories-skip}
use win_blaze.Core.Aggregation.Aggregated.{collected}

keeps :
    {a b : Aggregates} (id : ℕ)
    → some a ≡ some b
    → is_key (IdMap.get a id) ≡ true
    → is_key (IdMap.get b id) ≡ true
keeps id e key =
    subst
      (λ (o : Option Aggregates). is_key (IdMap.get (elim o [ none ↦ [] | some m ↦ m ]) id) ≡ true)
      e key

-- Whether the loop ends with them or not, the directories that have an aggregate keep one.
increment-is_key :
    (add : Add) (fuel : ℕ) (parents : ParentMap) (first : Bool) (aggregates after : Aggregates)
    (current id : ℕ)
    → increment add fuel parents first aggregates current ≡ some after
    → is_key (IdMap.get aggregates id) ≡ true
    → is_key (IdMap.get after id) ≡ true
unfolding increment
increment-is_key add zero parents first aggregates after current id e key = absurd (cc)
increment-is_key add (suc fuel) parents first aggregates after current id e key =
    elim (Option-cases (IdMap.get aggregates current)) [
      | inl m ↦
          keeps id (sym (increment-outside add fuel parents first aggregates current m) ∙ e) key
      | inr (a, m) ↦
          let inserted = IdMap.insert aggregates current (add first a) in
          let kept : is_key (IdMap.get inserted id) ≡ true =
            ground (arith, key, get-insert aggregates current (add first a) id) in
          elim (Option-cases (and_then_parent (IdMap.get parents current))) [
            | inl p ↦
                keeps id (sym (increment-last add fuel parents first aggregates current a m p) ∙ e)
                  kept
            | inr (parent, p) ↦
                increment-is_key add fuel parents false inserted after parent id
                  (sym (increment-next add fuel parents first aggregates current a parent m p) ∙ e)
                  kept
          ]
    ]

-- The directories of a cycle, or those below one: each has a parent that is one of them.
abbrev pub IsClosed : (ℕ → Type 0) → ParentMap → Type 0
IsClosed Loops parents =
    (id : ℕ)
    → Loops id
    → (parent : ℕ) × ((IdMap.get parents id ≡ some (some parent)) × Loops parent)

abbrev HasLoops : (ℕ → Type 0) → Aggregates → Type 0
HasLoops Loops aggregates = (id : ℕ) → Loops id → is_key (IdMap.get aggregates id) ≡ true

module _ (Loops : ℕ → Type 0) (parents : ParentMap) (closed : IsClosed Loops parents) where
  increment-Loops :
      (add : Add) (fuel : ℕ) (first : Bool) (aggregates : Aggregates) (current : ℕ)
      → Loops current
      → HasLoops Loops aggregates
      → increment add fuel parents first aggregates current ≡ none
  unfolding increment
  increment-Loops add zero first aggregates current l keys = refl
  increment-Loops add (suc fuel) first aggregates current l keys =
      let (parent, (p, up)) = closed current l in
      elim (Option-cases (IdMap.get aggregates current)) [
        | inl m ↦ absurd (ground (arith, keys current l, m))
        | inr (a, m) ↦
            increment-under add fuel parents first aggregates current a parent m p
            ∙ increment-Loops add fuel false (IdMap.insert aggregates current (add first a)) parent
                up
                (λ id h. ground (arith, keys id h, get-insert aggregates current (add first a) id))
      ]

  increment_directories-Loops :
      (fuel : ℕ) (aggregates : Aggregates) (before : List DirectoryRecord) (d : DirectoryRecord)
      (after : List DirectoryRecord) (parent : ℕ)
      → d.parent_directory_id ≡ some parent
      → Loops parent
      → HasLoops Loops aggregates
      → increment_directories fuel parents aggregates (before ++ d ∷ after) ≡ none
  unfolding increment_directories increment_directory_entry_aggregation
  increment_directories-Loops fuel aggregates [] d after parent p l keys = simp (
    p,
    increment-Loops add_directory fuel true aggregates parent l keys,
    increment_directories,
    increment_directory_entry_aggregation,
  )
  increment_directories-Loops fuel aggregates (b ∷ before) d after parent p l keys =
      elim (Option-cases b.parent_directory_id) [
        | inl q ↦
            increment_directories-skip fuel parents aggregates b (before ++ d ∷ after) q
            ∙ increment_directories-Loops fuel aggregates before d after parent p l keys
        | inr (other, q) ↦
            elim (Option-cases (increment add_directory fuel parents true aggregates other)) [
              | inl e ↦ simp (q, e, increment_directories, increment_directory_entry_aggregation)
              | inr (added, e) ↦
                  increment_directories-cons fuel parents aggregates added b (before ++ d ∷ after)
                    other q e
                  ∙ increment_directories-Loops fuel added before d after parent p l (λ id h.
                    increment-is_key add_directory fuel parents true aggregates added other id e
                      (keys id h))
            ]
      ]

-- When a directory's parent is one of a set of directories in which each has a parent in the
-- set, as on a cycle of parents, no fuel is enough for the aggregation: the loop of the source
-- does not end.
pub aggregate_directory_records_cycle :
    (Loops : ℕ → Type 0) (before : List DirectoryRecord) (d : DirectoryRecord)
    (after : List DirectoryRecord) (files : List FileRecord) (parent : ℕ)
    → IsClosed Loops (collect_parents [] (before ++ d ∷ after))
    → d.parent_directory_id ≡ some parent
    → Loops parent
    → (fuel : ℕ) → aggregate_directory_records fuel (before ++ d ∷ after) files ≡ none
unfolding aggregate_directory_records IdMap.get
aggregate_directory_records_cycle Loops before d after files parent closed p l fuel =
    let directories = before ++ d ∷ after in
    let parents = collect_parents [] directories in
    let start : HasKeysOf parents (collect_aggregates [] directories) =
      (collected directories).keys in
    let keys : HasLoops Loops (collect_aggregates [] directories) =
      λ id h. let (up, (e, m)) = closed id h in ground (arith, start id, e) in
    let stuck =
      increment_directories-Loops Loops parents closed fuel (collect_aggregates [] directories)
        before d after parent p l keys in
    simp (stuck, aggregate_directory_records)
