-- ===== src/Index/DirectoryRecords/Arena.antt =====
-- The directory arena as a finite map, and the order of its records.
use win_blaze.Base.{
  ℕ, ◌<◌, ◌≡◌, none, some, [], ◌∷◌, ◌++◌, arith, ◌==◌, if◌then◌else◌, Bool-cases, Option-cases,
  length, get_elem?, length-append, get_elem?-set, get_elem?-append, lt_of_get_elem?, inl, inr,
}
use win_blaze.Base.IdMap
use win_blaze.Base.IdMap.{get-insert}
use win_blaze.Core.Model.{DirectoryRecord}
use win_blaze.Index.DirectoryRecords.{DirectoryRecords, insert_at, insert, get, into_records}

-- The map and the arena agree: an id is found exactly at the place of the record that bears it.
pub record IsIndexed (self : DirectoryRecords) : Type 0 where
  pub found :
      (id index : ℕ)
      → IdMap.get self.positions id ≡ some index
      → (r : DirectoryRecord) × (get_elem? self.records index ≡ some r) × (r.id ≡ id)
  pub listed :
      (index : ℕ) (r : DirectoryRecord)
      → get_elem? self.records index ≡ some r
      → IdMap.get self.positions r.id ≡ some index

module _ (self : DirectoryRecords) (w : IsIndexed self) (new : DirectoryRecord) where
  get-insert_old :
      (index j : ℕ)
      → IdMap.get self.positions new.id ≡ some index
      → get (insert_at self new.id new (some index)) j
        ≡ (if new.id == j then some new else get self j)
  unfolding get insert_at
  get-insert_old index j e = elim (Option-cases (IdMap.get self.positions j)) [
    | inl gone ↦ ground arith
    | inr (q, here) ↦
        let (r, at, name) = w.found new.id index e in
        let (r', at', name') = w.found j q here in
        ground
          (arith, get_elem?-set self.records index new q (lt_of_get_elem? self.records index at))
  ]

  get-insert_new :
      (j : ℕ)
      → IdMap.get self.positions new.id ≡ none
      → get (insert_at self new.id new none) j ≡ (if new.id == j then some new else get self j)
  unfolding get insert_at
  get-insert_new j e = elim (Option-cases (IdMap.get self.positions j)) [
    | inl gone ↦ ground (
      arith,
      get-insert self.positions new.id (length self.records) j,
      get_elem?-append self.records (new ∷ []) (length self.records),
    )
    | inr (q, here) ↦
        let (r', at', name') = w.found j q here in
        ground (
          arith,
          get-insert self.positions new.id (length self.records) j,
          get_elem?-append self.records (new ∷ []) (length self.records),
          get_elem?-append self.records (new ∷ []) q,
          lt_of_get_elem? self.records q at',
        )
  ]

  insert_old-IsIndexed :
      (index : ℕ)
      → IdMap.get self.positions new.id ≡ some index
      → IsIndexed (insert_at self new.id new (some index))
  unfolding insert_at
  insert_old-IsIndexed index e =
      let (r, at, name) = w.found new.id index e in
      let inside : index < length self.records = lt_of_get_elem? self.records index at in
      record {
        found = λ id q here.
            let (r', at', name') = w.found id q here in
            elim (Bool-cases (index == q)) [
              | inl same ↦
                  (new, ground (arith, get_elem?-set self.records index new q), ground arith)
              | inr other ↦ (r', ground (arith, get_elem?-set self.records index new q), name')
            ];
        listed = λ q r' at'. ground (arith, get_elem?-set self.records index new q, w.listed q r');
      }

  insert_new-IsIndexed :
      IdMap.get self.positions new.id ≡ none → IsIndexed (insert_at self new.id new none)
  unfolding insert_at
  insert_new-IsIndexed e =
      let size = length self.records in
      record {
        found = λ id q here. elim (Bool-cases (new.id == id)) [
          | inl same ↦ (
            new,
            ground (
              arith,
              get-insert self.positions new.id size id,
              get_elem?-append self.records (new ∷ []) size,
            ),
            ground arith,
          )
          | inr other ↦
              let (r', at', name') =
                w.found id q (ground (arith, get-insert self.positions new.id size id)) in
              (
                r',
                ground (
                  arith,
                  get_elem?-append self.records (new ∷ []) q,
                  lt_of_get_elem? self.records q at',
                ),
                name',
              )
        ];
        listed = λ q r' at'. ground (
          arith,
          get_elem?-append self.records (new ∷ []) q,
          get-insert self.positions new.id size r'.id,
          w.listed q r',
          lt_of_get_elem? (self.records ++ new ∷ []) q at',
          length-append self.records (new ∷ []),
        );
      }

  -- Inserting a directory under its own id into a well formed arena keeps it well formed, and
  -- is the update at that id of the finite map that `get` reads.
  pub get-insert_directory :
      IsIndexed (insert self new.id new)
      × ((j : ℕ) → get (insert self new.id new) j ≡ (if new.id == j then some new else get self j))
  unfolding insert
  get-insert_directory = elim (Option-cases (IdMap.get self.positions new.id)) [
    | inl absent ↦ rw absent (insert_new-IsIndexed absent, λ j. get-insert_new j absent)
    | inr (index, here) ↦
        rw here (insert_old-IsIndexed index here, λ j. get-insert_old index j here)
  ]

  -- A directory with a new id goes behind the others.
  pub into_records-insert_new :
      get self new.id ≡ none → into_records (insert self new.id new) ≡ into_records self ++ new ∷ []
  unfolding insert into_records insert_at get
  into_records-insert_new e = elim (Option-cases (IdMap.get self.positions new.id)) [
    | inl absent ↦ ground arith
    | inr (index, here) ↦ let (r, at, name) = w.found new.id index here in ground arith
  ]
