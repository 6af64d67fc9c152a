-- ===== src/Index/FileRecords/Arena.antt =====
-- The arena behind its laws: with the position table it is one finite map from ids to records, and it
-- never indexes past its end.
use win_blaze.Base.{
  ℕ, ◌+◌, ◌-◌, ◌<◌, ◌≡◌, Option, none, some, List, [], ◌∷◌, ◌++◌, arith, ltb, ◌==◌, if◌then◌else◌,
  Bool-cases, Option-cases, length, get_elem?, set, take, length-append, get_elem?-set,
  get_elem?-append, get_elem?-take, lt_of_get_elem?, inl, inr,
}
use win_blaze.Core.Model.{FileRecord}
use win_blaze.Index.FileRecords.{FileRecords, get_position, swap_remove, insert_at, insert}
use win_blaze.Index.FileRecords.Positions.{get-insert_position}

-- The table and the arena agree: an id is found exactly at the place of the record that bears it.
pub record IsIndexed (self : FileRecords) : Type 0 where
  pub found :
      (id position : ℕ)
      → get_position self.positions id ≡ some position
      → (r : FileRecord) × (get_elem? self.records position ≡ some r) × (r.id ≡ id)
  pub listed :
      (position : ℕ) (r : FileRecord)
      → get_elem? self.records position ≡ some r
      → get_position self.positions r.id ≡ some position

record_at : List FileRecord → Option ℕ → Option FileRecord
record_at records none = none
record_at records (some position) = get_elem? records position

-- The record of an id.
unfoldable pub find : FileRecords → ℕ → Option FileRecord
unfolding record_at
find self id = record_at self.records (get_position self.positions id)

swap_remove_last :
    {A : Type 0} (xs : List A) (p : ℕ) {last : A}
    → get_elem? xs (length xs - 1) ≡ some last
    → swap_remove xs p ≡ take (length xs - 1) (set xs p last)
unfolding swap_remove
swap_remove_last xs p e = rw (e, swap_remove)

pub get_elem?-swap_remove :
    {A : Type 0} (xs : List A) (p q : ℕ) {last : A}
    → p < length xs
    → get_elem? xs (length xs - 1) ≡ some last
    → get_elem? (swap_remove xs p) q
      ≡ (if ltb (q + 1) (length xs) then if p == q then some last else get_elem? xs q else none)
get_elem?-swap_remove xs p q {last} h e =
    rw (swap_remove_last xs p e) (rw get_elem?-take (ground (arith, get_elem?-set xs p last q h)))

module _ (grow : ℕ → ℕ → ℕ) (self : FileRecords) (w : IsIndexed self) where
  find-insert_old :
      (new : FileRecord) (position j : ℕ)
      → get_position self.positions new.id ≡ some position
      → find (insert_at grow self new.id new (some position)) j
        ≡ (if new.id == j then some new else find self j)
  unfolding find insert_at
  find-insert_old new position j e = elim (Option-cases (get_position self.positions j)) [
    | inl gone ↦ ground arith
    | inr (q, here) ↦
        let (r, at, name) = w.found new.id position e in
        let (r', at', name') = w.found j q here in
        ground (
          arith,
          get_elem?-set self.records position new q (lt_of_get_elem? self.records position at),
        )
  ]

  find-insert_new :
      (new : FileRecord) (j : ℕ)
      → get_position self.positions new.id ≡ none
      → find (insert_at grow self new.id new none) j
        ≡ (if new.id == j then some new else find self j)
  unfolding find insert_at
  find-insert_new new j e = elim (Option-cases (get_position self.positions j)) [
    | inl gone ↦ ground (
      arith,
      get-insert_position grow self.positions new.id (length self.records) (length self.records + 1)
          j,
      get_elem?-append self.records (new ∷ []) (length self.records),
    )
    | inr (q, here) ↦
        let (r', at', name') = w.found j q here in
        ground (
          arith,
          get-insert_position grow self.positions new.id (length self.records)
              (length self.records + 1) j,
          get_elem?-append self.records (new ∷ []) (length self.records),
          get_elem?-append self.records (new ∷ []) q,
          lt_of_get_elem? self.records q at',
        )
  ]

  insert_old-IsIndexed :
      (new : FileRecord) (position : ℕ)
      → get_position self.positions new.id ≡ some position
      → IsIndexed (insert_at grow self new.id new (some position))
  unfolding insert_at
  insert_old-IsIndexed new position e =
      let (r, at, name) = w.found new.id position e in
      let inside : position < length self.records = lt_of_get_elem? self.records position at in
      record {
        found = λ id q here.
            let (r', at', name') = w.found id q here in
            elim (Bool-cases (position == q)) [
              | inl same ↦
                  (new, ground (arith, get_elem?-set self.records position new q), ground arith)
              | inr other ↦ (r', ground (arith, get_elem?-set self.records position new q), name')
            ];
        listed =
            λ q r' at'. ground (arith, get_elem?-set self.records position new q, w.listed q r');
      }

  insert_new-IsIndexed :
      (new : FileRecord)
      → get_position self.positions new.id ≡ none
      → IsIndexed (insert_at grow self new.id new none)
  unfolding insert_at
  insert_new-IsIndexed new e =
      let size = length self.records in
      record {
        found = λ id q here. elim (Bool-cases (new.id == id)) [
          | inl same ↦ (
            new,
            ground (
              arith,
              get-insert_position grow self.positions new.id size (size + 1) id,
              get_elem?-append self.records (new ∷ []) size,
            ),
            ground arith,
          )
          | inr other ↦
              let (r', at', name') = w.found id q (
                ground
                  (arith, get-insert_position grow self.positions new.id size (size + 1) id)) in
              (
                r',
                ground (
                  arith,
                  get_elem?-append self.records (new ∷ []) q,
                  lt_of_get_elem? self.records q at',
                ),
                name',
              )
        ];
        listed = λ q r' at'. ground (
          arith,
          get_elem?-append self.records (new ∷ []) q,
          get-insert_position grow self.positions new.id size (size + 1) r'.id,
          w.listed q r',
          lt_of_get_elem? (self.records ++ new ∷ []) q at',
          length-append self.records (new ∷ []),
        );
      }

  -- In a well formed arena, inserting a record under its own id is the update of the finite map
  -- from ids to records at that id.
  pub find-insert :
      (new : FileRecord) (j : ℕ)
      → find (insert grow self new.id new) j ≡ (if new.id == j then some new else find self j)
  unfolding insert
  find-insert new j = elim (Option-cases (get_position self.positions new.id)) [
    | inl absent ↦ rw absent (find-insert_new new j absent)
    | inr (position, here) ↦ rw here (find-insert_old new position j here)
  ]

  -- Inserting a record under its own id keeps an arena well formed: the position table finds an
  -- id exactly at the place of the record that bears it.
  pub insert-IsIndexed : (new : FileRecord) → IsIndexed (insert grow self new.id new)
  unfolding insert
  insert-IsIndexed new = elim (Option-cases (get_position self.positions new.id)) [
    | inl absent ↦ rw absent (insert_new-IsIndexed new absent)
    | inr (position, here) ↦ rw here (insert_old-IsIndexed new position here)
  ]
