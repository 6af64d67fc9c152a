-- ===== src/Index/FileRecords/Loading.antt =====
-- Filling an empty arena: records with new ids stand in the order in which they came.
use win_blaze.Base.{
  ℕ, suc, ◌≤◌, ◌≡◌, refl, ◌∙◌, none, List, [], ◌∷◌, ◌++◌, arith, Option-cases, inl, inr,
}
use mathlib.Core.List.{append_assoc, append-nil}
use win_blaze.Base.Ascending.{Ascending}
use win_blaze.Core.Model.{FileRecord}
use win_blaze.Index.FileRecords.{
  FileRecords, get_position, insert, insert_at, into_records, with_capacity,
}
use win_blaze.Index.FileRecords.Arena.{IsIndexed, find, find-insert, insert-IsIndexed}

pub with_capacity-IsIndexed : (n : ℕ) → IsIndexed (with_capacity n)
unfolding with_capacity get_position
with_capacity-IsIndexed n = record {
  found = λ id p h. absurd (ground arith);
  listed = λ p r h. absurd (ground arith);
}

find-with_capacity : (n j : ℕ) → find (with_capacity n) j ≡ none
unfolding find with_capacity get_position
find-with_capacity n j = refl

module _ (grow : ℕ → ℕ → ℕ) where
  into_records-insert_new :
      (self : FileRecords) (new : FileRecord)
      → IsIndexed self
      → find self new.id ≡ none
      → into_records (insert grow self new.id new) ≡ into_records self ++ new ∷ []
  unfolding insert into_records insert_at find
  into_records-insert_new self new w e = elim (Option-cases (get_position self.positions new.id)) [
    | inl absent ↦ ground arith
    | inr (p, here) ↦ let (r, at, name) = w.found new.id p here in ground arith
  ]

  unfoldable pub load_files : FileRecords → List FileRecord → FileRecords
  load_files files [] = files
  load_files files (f ∷ fs) = load_files (insert grow files f.id f) fs

  into_records-load_files_from :
      (bound : ℕ) (self : FileRecords) (fs : List FileRecord)
      → IsIndexed self
      → ((j : ℕ) → bound ≤ j → find self j ≡ none)
      → Ascending (λ f. f.id) bound fs
      → into_records (load_files self fs) ≡ into_records self ++ fs
  unfolding load_files
  into_records-load_files_from bound self [] w free h = rw append-nil
  into_records-load_files_from bound self (f ∷ fs) w free h =
      into_records-load_files_from (suc f.id) (insert grow self f.id f) fs
        (insert-IsIndexed grow self w f)
        (λ j le. ground (arith, find-insert grow self w f j, free j)) h.1
      ∙ rw (into_records-insert_new self f w (free f.id h.0))
          (append_assoc (into_records self) (f ∷ []) fs)

  -- Files in strictly ascending order of id, inserted one by one into an empty arena, come back
  -- out of it as they went in.
  pub into_records-load_files :
      (n : ℕ) (fs : List FileRecord)
      → Ascending (λ f. f.id) 0 fs
      → into_records (load_files (with_capacity n) fs) ≡ fs
  unfolding into_records with_capacity
  into_records-load_files n fs h =
      into_records-load_files_from 0 (with_capacity n) fs (with_capacity-IsIndexed n)
        (λ j le. find-with_capacity n j) h
