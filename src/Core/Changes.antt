-- ===== src/Core/Changes.antt =====
-- `detect_file_lineage_change` and `diff_file_records` of src/WinBlaze.Core/src/model.rs. Texts that
-- the source clones are the texts themselves.

pub mod PerFile
use win_blaze.Base.{
  ℕ, Bool, true, false, not, ◌&&◌, ◌||◌, Option, none, some, List, [], ◌∷◌, ◌++◌, ltb, ◌==◌,
  if◌then◌else◌,
}
use win_blaze.Base.Int.{ℤ}
use win_blaze.Base.Text.{text_eq, option_eq, i64_eq}
use win_blaze.Base.IdMap
use win_blaze.Base.IdMap.{IdMap}
use win_blaze.Core.Timestamps.{FileTimestamps}
use win_blaze.Core.Model.{
  FileRecord, FileLineageRecord, FileChangeKind, added, removed, modified, renamed, moved,
  FileChangeRecord, FileChangeSet, created_utc, modified_utc, accessed_utc,
}

-- The derived equalities.
unfoldable pub values_eq : List ℤ → List ℤ → Bool
values_eq [] [] = true
values_eq (a ∷ xs) (b ∷ ys) = i64_eq a b && values_eq xs ys
values_eq _ _ = false

unfoldable pub file_record_eq : FileRecord → FileRecord → Bool
unfolding values_eq
file_record_eq a b =
    a.id == b.id
    && (a.parent_directory_id == b.parent_directory_id
        && (text_eq a.name b.name
            && (text_eq a.full_path b.full_path
                && (a.size_bytes == b.size_bytes
                    && (a.allocation_bytes == b.allocation_bytes
                        && (a.attributes.bits == b.attributes.bits
                            && (values_eq a.timestamps.values b.timestamps.values
                                && a.timestamps.present == b.timestamps.present)))))))

unfoldable pub file_records_eq : List FileRecord → List FileRecord → Bool
unfolding file_record_eq
file_records_eq [] [] = true
file_records_eq (a ∷ xs) (b ∷ ys) = file_record_eq a b && file_records_eq xs ys
file_records_eq _ _ = false

unfoldable pub is_moved : FileRecord → FileRecord → Bool
is_moved previous current =
    not (previous.parent_directory_id == current.parent_directory_id)
    || not (text_eq previous.full_path current.full_path)

unfoldable pub detect_file_lineage_change : FileRecord → FileRecord → Option FileLineageRecord
unfolding is_moved
detect_file_lineage_change previous current =
    let renamed = not (text_eq previous.name current.name) in
    let moved = is_moved previous current in
    if not (previous.id == current.id)
    then none
    else if not renamed && not moved
    then none
    else some record {
      file_id = current.id;
      previous_parent_directory_id = previous.parent_directory_id;
      current_parent_directory_id = current.parent_directory_id;
      previous_full_path = previous.full_path;
      current_full_path = current.full_path;
      renamed = renamed;
      moved = moved;
    }

-- the `match` on the lineage
unfoldable pub kind_of : Option FileLineageRecord → FileChangeKind
kind_of none = modified
kind_of (some lineage) =
    if lineage.renamed && lineage.moved
    then moved
    else if lineage.renamed
    then renamed
    else if lineage.moved
    then moved
    else modified

unfoldable pub is_unchanged : FileRecord → FileRecord → Bool
is_unchanged previous current =
    text_eq previous.name current.name
    && (previous.parent_directory_id == current.parent_directory_id
        && (previous.size_bytes == current.size_bytes
            && (previous.allocation_bytes == current.allocation_bytes
                && (previous.attributes.bits == current.attributes.bits
                    && (option_eq i64_eq (created_utc previous) (created_utc current)
                        && (option_eq i64_eq (modified_utc previous) (modified_utc current)
                            && option_eq i64_eq (accessed_utc previous) (accessed_utc current)))))))

-- One round of the loop over `current`: what it pushes, from what the map holds under the id.
unfoldable pub current_change : Option FileRecord → FileRecord → List FileChangeRecord
unfolding kind_of is_unchanged detect_file_lineage_change
current_change none current =
    record {
      file_id = current.id;
      kind = added;
      previous_full_path = none;
      current_full_path = some current.full_path;
    }
    ∷ []
current_change (some previous) current =
    if is_unchanged previous current
    then []
    else record {
      file_id = current.id;
      kind = kind_of (detect_file_lineage_change previous current);
      previous_full_path = some previous.full_path;
      current_full_path = some current.full_path;
    }
      ∷ []

-- One round of the loop over `previous`.
unfoldable pub removed_change : Option FileRecord → FileRecord → List FileChangeRecord
removed_change (some current) previous = []
removed_change none previous =
    record {
      file_id = previous.id;
      kind = removed;
      previous_full_path = some previous.full_path;
      current_full_path = none;
    }
    ∷ []

-- A loop that pushes what each record gives.
unfoldable pub push_each :
    (FileRecord → List FileChangeRecord) → List FileRecord → List FileChangeRecord
push_each f [] = []
push_each f (r ∷ rs) = f r ++ push_each f rs

-- `iter().map(|record| (record.id, record)).collect()`: the last of two records of one id stays
unfoldable pub collect_by_id : IdMap FileRecord → List FileRecord → IdMap FileRecord
unfolding IdMap.insert
collect_by_id m [] = m
collect_by_id m (r ∷ rs) = collect_by_id (IdMap.insert m r.id r) rs

-- `previous.windows(2).all(|pair| pair[0].id.0 < pair[1].id.0)`
ids_ascending : List FileRecord → Bool
ids_ascending [] = true
ids_ascending (a ∷ []) = true
ids_ascending (a ∷ b ∷ rs) = ltb a.id b.id && ids_ascending (b ∷ rs)

unfoldable pub diff_file_records : List FileRecord → List FileRecord → FileChangeSet
unfolding file_records_eq ids_ascending current_change removed_change push_each collect_by_id
    IdMap.get
diff_file_records previous current =
    let previous_by_id = collect_by_id [] previous in
    let current_by_id = collect_by_id [] current in
    if file_records_eq previous current && ids_ascending previous
    then record { changes = [] }
    else record {
      changes =
          push_each (λ r. current_change (IdMap.get previous_by_id r.id) r) current
          ++ push_each (λ r. removed_change (IdMap.get current_by_id r.id) r) previous;
    }
