-- ===== src/Index/DirectoryRecords/Loading.antt =====
-- Filling an empty arena: records with new ids stand in the order in which they came.
use win_blaze.Base.{ℕ, suc, ◌≤◌, ◌≡◌, ◌∙◌, none, List, [], ◌∷◌, ◌++◌, arith}
use mathlib.Core.List.{append_assoc, append-nil}
use win_blaze.Base.IdMap.{get-nil}
use win_blaze.Base.Ascending.{Ascending}
use win_blaze.Core.Model.{DirectoryRecord}
use win_blaze.Index.DirectoryRecords.{DirectoryRecords, insert, get, into_records, empty}
use win_blaze.Index.DirectoryRecords.Arena.{
  IsIndexed, get-insert_directory, into_records-insert_new,
}

pub empty-IsIndexed : IsIndexed empty
empty-IsIndexed = record {
  found = λ id p h. absurd (ground (arith, get-nil {V = ℕ} id));
  listed = λ p r h. absurd (ground arith);
}

get-empty : (j : ℕ) → get empty j ≡ none
unfolding get
get-empty j = rw (get-nil {V = ℕ} j)

unfoldable pub load_directories : DirectoryRecords → List DirectoryRecord → DirectoryRecords
load_directories directories [] = directories
load_directories directories (d ∷ ds) = load_directories (insert directories d.id d) ds

into_records-load_from :
    (bound : ℕ) (self : DirectoryRecords) (ds : List DirectoryRecord)
    → IsIndexed self
    → ((j : ℕ) → bound ≤ j → get self j ≡ none)
    → Ascending (λ d. d.id) bound ds
    → into_records (load_directories self ds) ≡ into_records self ++ ds
unfolding load_directories
into_records-load_from bound self [] w free h = rw append-nil
into_records-load_from bound self (d ∷ ds) w free h =
    let (w', update) = get-insert_directory self w d in
    into_records-load_from (suc d.id) (insert self d.id d) ds w'
      (λ j le. ground (arith, update j, free j)) h.1
    ∙ rw (into_records-insert_new self w d (free d.id h.0))
        (append_assoc (into_records self) (d ∷ []) ds)

-- Directories in strictly ascending order of id, inserted one by one into an empty arena, come
-- back out of it as they went in.
pub into_records-load_directories :
    (ds : List DirectoryRecord)
    → Ascending (λ d. d.id) 0 ds
    → into_records (load_directories empty ds) ≡ ds
unfolding into_records
into_records-load_directories ds h =
    into_records-load_from 0 empty ds empty-IsIndexed (λ j le. get-empty j) h
