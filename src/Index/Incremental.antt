-- ===== src/Index/Incremental.antt =====
-- `BufferedIndexTransaction::apply_incremental_files` of src/WinBlaze.Index/src/store.rs.

pub mod Files
use win_blaze.Base.{ℕ, Bool, true, false, Option, none, some, List, [], ◌∷◌, ◌++◌, if◌then◌else◌}
use win_blaze.Base.IdMap
use win_blaze.Base.IdMap.{IdMap}
use win_blaze.Core.Model.{
  FileRecord, FileLineageRecord, FileChangeKind, removed, FileChangeRecord, FileChangeSet,
}
use win_blaze.Core.Changes.{detect_file_lineage_change, collect_by_id, diff_file_records}
use win_blaze.Index.FileRecords
use win_blaze.Index.FileRecords.{FileRecords}
use win_blaze.Index.Snapshot.State.{BufferedIndexTransaction}

-- `change.kind` is `Removed`
is_removed : FileChangeKind → Bool
is_removed removed = true
is_removed _ = false

-- the lineage of the two records of a change, when there are both
lineage_of : Option FileRecord → Option FileRecord → Option FileLineageRecord
unfolding detect_file_lineage_change
lineage_of (some previous) (some current) = detect_file_lineage_change previous current
lineage_of _ _ = none

push_lineage : List FileLineageRecord → Option FileLineageRecord → List FileLineageRecord
push_lineage lineages none = lineages
push_lineage lineages (some lineage) = lineages ++ lineage ∷ []

module _ (grow : ℕ → ℕ → ℕ) where
  insert_some : FileRecords → Option FileRecord → FileRecords
  insert_some files none = files
  insert_some files (some record') = FileRecords.insert grow files record'.id record'

  -- What a change does to the files.
  unfoldable pub change_files : IdMap FileRecord → FileRecords → FileChangeRecord → FileRecords
  unfolding is_removed insert_some IdMap.get
  change_files current_by_id files change =
      if is_removed change.kind
      then FileRecords.remove grow files change.file_id
      else insert_some files (IdMap.get current_by_id change.file_id)

  -- One round of the loop over the changes.
  unfoldable pub apply_change :
      IdMap FileRecord
      → IdMap FileRecord
      → BufferedIndexTransaction
      → FileChangeRecord
      → BufferedIndexTransaction
  unfolding change_files lineage_of push_lineage is_removed
  apply_change previous_by_id current_by_id self change = record self {
    files = change_files current_by_id self.files change;
    lineages =
        if is_removed change.kind
        then self.lineages
        else push_lineage self.lineages (
            lineage_of (IdMap.get previous_by_id change.file_id)
              (IdMap.get current_by_id change.file_id));
  }

  unfoldable pub apply_changes :
      IdMap FileRecord
      → IdMap FileRecord
      → BufferedIndexTransaction
      → List FileChangeRecord
      → BufferedIndexTransaction
  unfolding apply_change
  apply_changes previous_by_id current_by_id self [] = self
  apply_changes previous_by_id current_by_id self (change ∷ changes) =
      apply_changes previous_by_id current_by_id
        (apply_change previous_by_id current_by_id self change) changes

  push_change_set : BufferedIndexTransaction → FileChangeSet → BufferedIndexTransaction
  push_change_set self change_set = record self {
    file_changes = self.file_changes ++ change_set ∷ [];
  }

  unfoldable pub applied :
      BufferedIndexTransaction
      → List FileRecord
      → List FileRecord
      → FileChangeSet
      → BufferedIndexTransaction
  unfolding apply_changes push_change_set collect_by_id
  applied self previous current change_set = elim change_set.changes [
    | [] ↦ push_change_set self change_set
    | change ∷ changes ↦
        push_change_set
          (apply_changes (collect_by_id [] previous) (collect_by_id [] current) self
            (change ∷ changes))
          change_set
  ]

  unfoldable pub apply_incremental_files :
      BufferedIndexTransaction
      → List FileRecord
      → List FileRecord
      → BufferedIndexTransaction × FileChangeSet
  unfolding applied diff_file_records
  apply_incremental_files self previous current =
      let change_set = diff_file_records previous current in
      (applied self previous current change_set, change_set)
