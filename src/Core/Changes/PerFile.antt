-- ===== src/Core/Changes/PerFile.antt =====
-- What `diff_file_records` says of one file, from the record of it in each of the two snapshots.
use win_blaze.Base.{
  ℕ, ◌≡◌, ◌≢◌, refl, sym, ◌∙◌, true, inl, inr, Bool-cases, Option, none, some, List, [], ◌∷◌, ◌++◌,
  arith, ◌==◌, if◌then◌else◌, All,
}
use mathlib.Core.Path.{subst}
use mathlib.Core.List.{append-nil}
use win_blaze.Base.Int.{ℤ}
use win_blaze.Base.Text.{text_eq, text_eq→eq, text_eq_refl, i64_eq_iff, option_i64_eq_iff}
use win_blaze.Base.IdMap
use win_blaze.Base.IdMap.{IdMap, get-insert, get-nil}
use win_blaze.Core.Model.{
  FileRecord, FileChangeKind, added, removed, modified, renamed, moved, FileChangeRecord,
  created_utc, modified_utc, accessed_utc,
}
use win_blaze.Core.Changes.{
  values_eq, file_record_eq, file_records_eq, is_moved, is_unchanged, kind_of,
  detect_file_lineage_change, current_change, removed_change, push_each, collect_by_id,
  diff_file_records,
}

abbrev pub HasUniqueIds : List FileRecord → Type 0
HasUniqueIds [] = Unit
HasUniqueIds (r ∷ rs) = All (λ s. s.id ≢ r.id) rs × HasUniqueIds rs

-- The record of a file in a snapshot.
unfoldable pub record_of : ℕ → List FileRecord → Option FileRecord
record_of id [] = none
record_of id (r ∷ rs) = if r.id == id then some r else record_of id rs

-- The changes that name a file, in their order.
unfoldable pub changes_of : ℕ → List FileChangeRecord → List FileChangeRecord
changes_of id [] = []
changes_of id (c ∷ cs) = let rest = changes_of id cs in if c.file_id == id then c ∷ rest else rest

-- A file that is in another directory or under another path is moved, whatever its name; one with
-- another name only is renamed; any other difference is a modification.
unfoldable pub expected_kind : FileRecord → FileRecord → FileChangeKind
unfolding is_moved
expected_kind previous current =
    if is_moved previous current
    then moved
    else if text_eq previous.name current.name
    then modified
    else renamed

unfoldable pub expected_changes : Option FileRecord → Option FileRecord → List FileChangeRecord
unfolding expected_kind is_unchanged
expected_changes none none = []
expected_changes none (some c) =
    record {
      file_id = c.id;
      kind = added;
      previous_full_path = none;
      current_full_path = some c.full_path;
    }
    ∷ []
expected_changes (some p) none =
    record {
      file_id = p.id;
      kind = removed;
      previous_full_path = some p.full_path;
      current_full_path = none;
    }
    ∷ []
expected_changes (some p) (some c) =
    if is_unchanged p c
    then []
    else record {
      file_id = c.id;
      kind = expected_kind p c;
      previous_full_path = some p.full_path;
      current_full_path = some c.full_path;
    }
      ∷ []

pub record_of-id :
    (id : ℕ) (rs : List FileRecord) (r : FileRecord) → record_of id rs ≡ some r → r.id ≡ id
unfolding record_of
record_of-id id [] r h = absurd (ground arith)
record_of-id id (x ∷ rs) r h = ground (arith, record_of-id id rs r)

record_of-absent :
    (id : ℕ) (rs : List FileRecord) → All (λ s. s.id ≢ id) rs → record_of id rs ≡ none
unfolding record_of
record_of-absent id [] h = refl
record_of-absent id (x ∷ rs) h = ground (arith, record_of-absent id rs)

or_else : Option FileRecord → Option FileRecord → Option FileRecord
or_else none o = o
or_else (some r) o = some r

get-collect_by_id :
    (id : ℕ) (m : IdMap FileRecord) (rs : List FileRecord)
    → HasUniqueIds rs
    → IdMap.get (collect_by_id m rs) id ≡ or_else (record_of id rs) (IdMap.get m id)
unfolding collect_by_id record_of or_else
get-collect_by_id id m [] h = refl
get-collect_by_id id m (r ∷ rs) h = ground (
  arith,
  get-collect_by_id id (IdMap.insert m r.id r) rs h.1,
  get-insert m r.id r id,
  record_of-absent r.id rs h.0,
)

changes_of-append :
    (id : ℕ) (xs ys : List FileChangeRecord)
    → changes_of id (xs ++ ys) ≡ changes_of id xs ++ changes_of id ys
unfolding changes_of
changes_of-append id [] ys = refl
changes_of-append id (x ∷ xs) ys = ground (arith, changes_of-append id xs ys)

at : Option FileRecord → (FileRecord → List FileChangeRecord) → List FileChangeRecord
at none f = []
at (some r) f = f r

changes_of-push_each :
    (id : ℕ) (f : FileRecord → List FileChangeRecord)
    → ((r : FileRecord) → changes_of id (f r) ≡ (if r.id == id then f r else []))
    → (rs : List FileRecord) → HasUniqueIds rs
    → changes_of id (push_each f rs) ≡ at (record_of id rs) f
unfolding push_each record_of at changes_of
changes_of-push_each id f own [] h = refl
changes_of-push_each id f own (r ∷ rs) h =
    rw (changes_of-append id (f r) (push_each f rs), own r, changes_of-push_each id f own rs h.1)
      (elim (Bool-cases (r.id == id)) [
        | inr e ↦ rw e refl
        | inl e ↦
            rw (e, record_of-absent id rs (subst (λ k. All (λ s. s.id ≢ k) rs) (ground arith) h.0))
              (append-nil (f r))
      ])

current_change-own :
    (id : ℕ) (o : Option FileRecord) (r : FileRecord)
    → changes_of id (current_change o r) ≡ (if r.id == id then current_change o r else [])
unfolding changes_of current_change
current_change-own id none r = ground arith
current_change-own id (some p) r = ground arith

removed_change-own :
    (id : ℕ) (o : Option FileRecord) (r : FileRecord)
    → changes_of id (removed_change o r) ≡ (if r.id == id then removed_change o r else [])
unfolding changes_of removed_change
removed_change-own id none r = ground arith
removed_change-own id (some p) r = ground arith

kind_of-detect :
    (p c : FileRecord) → p.id ≡ c.id → kind_of (detect_file_lineage_change p c) ≡ expected_kind p c
unfolding kind_of detect_file_lineage_change expected_kind
kind_of-detect p c e = ground arith

current_change-expected :
    (o : Option FileRecord) (c : FileRecord)
    → ((p : FileRecord) → o ≡ some p → p.id ≡ c.id)
    → current_change o c ≡ expected_changes o (some c)
unfolding current_change expected_changes
current_change-expected none c h = refl
current_change-expected (some p) c h = rw (kind_of-detect p c (h p refl)) refl

values_eq→eq : (xs ys : List ℤ) → values_eq xs ys ≡ true → xs ≡ ys
unfolding values_eq
values_eq→eq [] [] h = refl
values_eq→eq [] (y ∷ ys) h = absurd (ground arith)
values_eq→eq (x ∷ xs) [] h = absurd (ground arith)
values_eq→eq (x ∷ xs) (y ∷ ys) h = ground (arith, i64_eq_iff x y, values_eq→eq xs ys)

file_record_eq→eq : (a b : FileRecord) → file_record_eq a b ≡ true → a ≡ b
unfolding file_record_eq
file_record_eq→eq a b h =
    let name : a.name ≡ b.name = text_eq→eq a.name b.name (ground arith) in
    let path : a.full_path ≡ b.full_path = text_eq→eq a.full_path b.full_path (ground arith) in
    let values : a.timestamps.values ≡ b.timestamps.values =
      values_eq→eq a.timestamps.values b.timestamps.values (ground arith) in
    ground arith

file_records_eq→eq : (xs ys : List FileRecord) → file_records_eq xs ys ≡ true → xs ≡ ys
unfolding file_records_eq
file_records_eq→eq [] [] h = refl
file_records_eq→eq [] (y ∷ ys) h = absurd (ground arith)
file_records_eq→eq (x ∷ xs) [] h = absurd (ground arith)
file_records_eq→eq (x ∷ xs) (y ∷ ys) h =
    ground (arith, file_record_eq→eq x y, file_records_eq→eq xs ys)

is_unchanged-same : (r : FileRecord) → is_unchanged r r ≡ true
unfolding is_unchanged
is_unchanged-same r = ground (
  arith,
  text_eq_refl r.name,
  option_i64_eq_iff (created_utc r) (created_utc r),
  option_i64_eq_iff (modified_utc r) (modified_utc r),
  option_i64_eq_iff (accessed_utc r) (accessed_utc r),
)

expected_changes-same : (o : Option FileRecord) → expected_changes o o ≡ []
unfolding expected_changes
expected_changes-same none = refl
expected_changes-same (some r) = rw (is_unchanged-same r) refl

pub get-by_id :
    (id : ℕ) (rs : List FileRecord)
    → HasUniqueIds rs
    → IdMap.get (collect_by_id [] rs) id ≡ record_of id rs
unfolding or_else
get-by_id id rs h = ground (arith, get-collect_by_id id [] rs h, get-nil {V = FileRecord} id)

module _ (previous current : List FileRecord) (id : ℕ) where
  module _ (p : HasUniqueIds previous) (c : HasUniqueIds current) where
    pushed : List FileChangeRecord
    pushed =
        push_each (λ r. current_change (IdMap.get (collect_by_id [] previous) r.id) r) current
        ++ push_each (λ r. removed_change (IdMap.get (collect_by_id [] current) r.id) r) previous

    looked_up :
        (rs others : List FileRecord) (r : FileRecord)
        → HasUniqueIds others
        → record_of id rs ≡ some r
        → IdMap.get (collect_by_id [] others) r.id ≡ record_of id others
    looked_up rs others r u e = rw (record_of-id id rs r e) (get-by_id id others u)

    same_id :
        (x y : FileRecord)
        → record_of id previous ≡ some x
        → record_of id current ≡ some y
        → x.id ≡ y.id
    same_id x y e e' = record_of-id id previous x e ∙ sym (record_of-id id current y e')

    at-expected :
        (o o' : Option FileRecord)
        → record_of id previous ≡ o
        → record_of id current ≡ o'
        → at o' (λ r. current_change (IdMap.get (collect_by_id [] previous) r.id) r)
            ++ at o (λ r. removed_change (IdMap.get (collect_by_id [] current) r.id) r)
          ≡ expected_changes o o'
    unfolding at removed_change expected_changes
    at-expected none none e e' = refl
    at-expected none (some y) e e' =
        rw (looked_up current previous y p e', e, append-nil)
          (current_change-expected none y (λ x h. absurd (ground arith)))
    at-expected (some x) none e e' = rw (looked_up previous current x c e, e') refl
    at-expected (some x) (some y) e e' =
        rw (looked_up current previous y p e', e, looked_up previous current x c e, e', append-nil)
          (current_change-expected (some x) y (λ q h. ground (arith, same_id x y e e')))

    changes_of-pushed :
        changes_of id pushed ≡ expected_changes (record_of id previous) (record_of id current)
    unfolding pushed
    changes_of-pushed =
        let f : FileRecord → List FileChangeRecord =
          λ r. current_change (IdMap.get (collect_by_id [] previous) r.id) r in
        let g : FileRecord → List FileChangeRecord =
          λ r. removed_change (IdMap.get (collect_by_id [] current) r.id) r in
        rw
          (
            changes_of-append,
            changes_of-push_each id f (λ r. current_change-own id _ r) current c,
            changes_of-push_each id g (λ r. removed_change-own id _ r) previous p,
          )
          (at-expected _ _ refl refl)

-- For each file, the changes that name it are those that its two records call for: none where
-- it is in neither snapshot or counts as unchanged, and otherwise one, which is added, removed,
-- moved, renamed or modified, with the two paths. Neither snapshot holds two records of one
-- file.
pub changes_of-diff_file_records :
    (previous current : List FileRecord) (id : ℕ)
    → HasUniqueIds previous
    → HasUniqueIds current
    → changes_of id (diff_file_records previous current).changes
      ≡ expected_changes (record_of id previous) (record_of id current)
unfolding diff_file_records changes_of pushed
changes_of-diff_file_records previous current id p c = ground (
  arith,
  changes_of-pushed previous current id p c,
  file_records_eq→eq previous current,
  expected_changes-same (record_of id current),
)
