-- ===== src/Index/Incremental/Files.antt =====
-- The files that a transaction holds after an incremental update.
use win_blaze.Base.{
  ℕ, ◌≡◌, refl, sym, ap, ◌∙◌, false, inl, inr, Bool-cases, Option, none, some, List, [], ◌∷◌, arith,
  ◌==◌, if◌then◌else◌, Option-cases,
}
use win_blaze.Base.IdMap
use win_blaze.Base.IdMap.{IdMap}
use win_blaze.Core.Model.{FileRecord, FileChangeRecord, FileChangeSet}
use win_blaze.Core.Changes.{is_unchanged, collect_by_id, diff_file_records}
use win_blaze.Core.Changes.PerFile.{
  HasUniqueIds, record_of, changes_of, expected_changes, expected_kind,
  changes_of-diff_file_records, get-by_id, record_of-id,
}
use win_blaze.Index.FileRecords.{FileRecords}
use win_blaze.Index.FileRecords.Arena.{IsIndexed, find, find-insert, insert-IsIndexed}
use win_blaze.Index.FileRecords.Removal.{find-remove, remove-IsIndexed}
use win_blaze.Index.Snapshot.State.{BufferedIndexTransaction}
use win_blaze.Index.Incremental.{
  change_files, insert_some, is_removed, apply_change, apply_changes, push_change_set, applied,
  apply_incremental_files,
}

-- The map of the current records is right about its keys.
abbrev IsKeyed : IdMap FileRecord → Type 0
IsKeyed m = (id : ℕ) (r : FileRecord) → IdMap.get m id ≡ some r → r.id ≡ id

module _ (grow : ℕ → ℕ → ℕ) (previous_by_id current_by_id : IdMap FileRecord)
    (keyed : IsKeyed current_by_id) where
  effect : Option FileRecord → FileChangeRecord → Option FileRecord
  effect o change =
      if is_removed change.kind
      then none
      else elim (IdMap.get current_by_id change.file_id) [ none ↦ o | some r ↦ some r ]

  effects : Option FileRecord → List FileChangeRecord → Option FileRecord
  effects o [] = o
  effects o (change ∷ changes) = effects (effect o change) changes

  change_files-IsIndexed :
      (files : FileRecords) (change : FileChangeRecord)
      → IsIndexed files
      → IsIndexed (change_files grow current_by_id files change)
  unfolding change_files insert_some
  change_files-IsIndexed files change w = elim (Bool-cases (is_removed change.kind)) [
    | inl e ↦ rw e (remove-IsIndexed grow files w change.file_id)
    | inr e ↦ elim (Option-cases (IdMap.get current_by_id change.file_id)) [
      | inl gone ↦ rw (e, gone) w
      | inr (r, here) ↦ rw (e, here) (insert-IsIndexed grow files w r)
    ]
  ]

  find-change_files :
      (files : FileRecords) (change : FileChangeRecord) (id : ℕ)
      → IsIndexed files
      → find (change_files grow current_by_id files change) id
        ≡ (if change.file_id == id then effect (find files id) change else find files id)
  unfolding change_files insert_some effect
  find-change_files files change id w = elim (Bool-cases (is_removed change.kind)) [
    | inl e ↦ rw e (find-remove grow files w change.file_id id)
    | inr e ↦ elim (Option-cases (IdMap.get current_by_id change.file_id)) [
      | inl gone ↦ rw (e, gone) (ground arith)
      | inr (r, here) ↦
          rw (e, here) (ground (arith, find-insert grow files w r id, keyed change.file_id r here))
    ]
  ]

  apply_changes-IsIndexed :
      (self : BufferedIndexTransaction) (changes : List FileChangeRecord)
      → IsIndexed self.files
      → IsIndexed (apply_changes grow previous_by_id current_by_id self changes).files
  unfolding apply_changes apply_change
  apply_changes-IsIndexed self [] w = w
  apply_changes-IsIndexed self (change ∷ changes) w =
      apply_changes-IsIndexed (apply_change grow previous_by_id current_by_id self change) changes
        (change_files-IsIndexed self.files change w)

  find-apply_changes :
      (self : BufferedIndexTransaction) (changes : List FileChangeRecord) (id : ℕ)
      → IsIndexed self.files
      → find (apply_changes grow previous_by_id current_by_id self changes).files id
        ≡ effects (find self.files id) (changes_of id changes)
  unfolding apply_changes apply_change effects changes_of
  find-apply_changes self [] id w = refl
  find-apply_changes self (change ∷ changes) id w = ground (
    arith,
    find-change_files self.files change id w,
    find-apply_changes (apply_change grow previous_by_id current_by_id self change) changes id
        (change_files-IsIndexed self.files change w),
  )

-- What an update makes of a file: the current record, except where it counts as unchanged.
unfoldable pub expected_file : Option FileRecord → Option FileRecord → Option FileRecord
unfolding is_unchanged
expected_file o none = none
expected_file none (some c) = some c
expected_file (some p) (some c) = if is_unchanged p c then some p else some c

module _ (grow : ℕ → ℕ → ℕ) (self : BufferedIndexTransaction)
    (previous current : List FileRecord) where
  module _ (w : IsIndexed self.files) (p : HasUniqueIds previous) (c : HasUniqueIds current) where
    keyed_current : IsKeyed (collect_by_id [] current)
    keyed_current id r e = record_of-id id current r (sym (get-by_id id current c) ∙ e)

    current_of :
        (id : ℕ) (y : FileRecord)
        → record_of id current ≡ some y
        → IdMap.get (collect_by_id [] current) y.id ≡ some y
    current_of id y e =
        get-by_id y.id current c ∙ ap (λ k. record_of k current) (record_of-id id current y e) ∙ e

    kept_kind : (x y : FileRecord) → is_removed (expected_kind x y) ≡ false
    unfolding expected_kind is_removed
    kept_kind x y = ground arith

    effects-expected :
        (id : ℕ) (o o' : Option FileRecord)
        → record_of id current ≡ o'
        → effects grow
            (collect_by_id [] previous)
            (collect_by_id [] current)
            keyed_current
            o
            (expected_changes o o')
          ≡ expected_file o o'
    unfolding effects effect expected_changes expected_file is_removed
    effects-expected id none none e = refl
    effects-expected id (some x) none e = refl
    effects-expected id none (some y) e = rw (current_of id y e) refl
    effects-expected id (some x) (some y) e = elim (Bool-cases (is_unchanged x y)) [
      | inl h ↦ rw h refl
      | inr h ↦ rw (h, kept_kind x y, current_of id y e) refl
    ]

    files_applied : FileChangeSet → FileRecords
    files_applied change_set =
        (apply_changes grow (collect_by_id [] previous) (collect_by_id [] current) self
          change_set.changes).files

    applied-files :
        (change_set : FileChangeSet) (changes : List FileChangeRecord)
        → change_set.changes ≡ changes
        → (applied grow self previous current change_set).files ≡ files_applied change_set
    unfolding applied push_change_set files_applied apply_changes
    applied-files change_set [] e = rw e refl
    applied-files change_set (change ∷ changes) e = rw e refl

    -- If a transaction's arena is well formed and holds for a file what the first of two
    -- snapshots holds, then after the update it holds for that file the record of the second
    -- snapshot, except that it keeps the first record where the two count as unchanged; a file
    -- that is not in the second snapshot is gone. Neither snapshot holds two records of one
    -- file.
    pub find-apply_incremental_files :
        (id : ℕ)
        → find self.files id ≡ record_of id previous
        → find (apply_incremental_files grow self previous current).0.files id
          ≡ expected_file (record_of id previous) (record_of id current)
    unfolding apply_incremental_files files_applied
    find-apply_incremental_files id held =
        rw
          (
            applied-files (diff_file_records previous current) _ refl,
            find-apply_changes grow (collect_by_id [] previous) (collect_by_id [] current)
                keyed_current self (diff_file_records previous current).changes id w,
            held,
            changes_of-diff_file_records previous current id p c,
          )
          (effects-expected id (record_of id previous) (record_of id current) refl)

    -- An incremental update keeps a well formed arena of files well formed, when neither
    -- snapshot holds two records of one file.
    pub apply_incremental_files-IsIndexed :
        IsIndexed (apply_incremental_files grow self previous current).0.files
    unfolding apply_incremental_files files_applied
    apply_incremental_files-IsIndexed =
        rw (applied-files (diff_file_records previous current) _ refl) (
          apply_changes-IsIndexed grow (collect_by_id [] previous) (collect_by_id [] current)
            keyed_current self (diff_file_records previous current).changes w)
