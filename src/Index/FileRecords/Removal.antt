-- ===== src/Index/FileRecords/Removal.antt =====
-- `remove`: the swap with the last record keeps the table and the arena in step.
use win_blaze.Base.{
  ℕ, ◌+◌, ◌-◌, ◌<◌, ◌≡◌, ◌&&◌, none, some, arith, ltb, ◌==◌, if◌then◌else◌, Bool-cases,
  Option-cases, length, get_elem?, inl, inr, get_elem?-of_lt, lt_of_get_elem?,
}
use win_blaze.Core.Model.{FileRecord}
use win_blaze.Index.FileRecords.{
  FileRecords, get_position, remove_position, swap_remove, remove_at, remove,
}
use win_blaze.Index.FileRecords.Positions.{get-insert_position, get-remove_position}
use win_blaze.Index.FileRecords.Arena.{IsIndexed, find, get_elem?-swap_remove}

module _ (grow : ℕ → ℕ → ℕ) (self : FileRecords) (w : IsIndexed self) (id p : ℕ) (last : FileRecord)
    (here : get_position self.positions id ≡ some p)
    (at_end : get_elem? self.records (length self.records - 1) ≡ some last) where
  inside : p < length self.records
  inside = let (r, at, name) = w.found id p here in lt_of_get_elem? self.records p at

  after : FileRecords
  unfolding remove_at
  after = remove_at grow self (some p, (remove_position self.positions id).1)

  -- What the table says after the swap.
  get-after :
      (j : ℕ)
      → get_position after.positions j ≡ (
          if ltb (p + 1) (length self.records) && last.id == j
          then some p
          else if id == j
          then none
          else get_position self.positions j)
  unfolding after
  get-after j = ground (
    arith,
    get_elem?-swap_remove self.records p p inside at_end,
    get-insert_position grow (remove_position self.positions id).1 last.id p
        (length (swap_remove self.records p)) j,
    (get-remove_position self.positions id j).1,
  )

  get_elem?-after :
      (q : ℕ)
      → get_elem? after.records q ≡ (
          if ltb (q + 1) (length self.records)
          then if p == q then some last else get_elem? self.records q
          else none)
  unfolding after
  get_elem?-after q = get_elem?-swap_remove self.records p q inside at_end

  last_position : get_position self.positions last.id ≡ some (length self.records - 1)
  last_position = w.listed _ last at_end

  find-after : (j : ℕ) → find after j ≡ (if id == j then none else find self j)
  unfolding find
  find-after j = elim (Option-cases (get_position self.positions j)) [
    | inl gone ↦ ground (arith, get-after j, last_position)
    | inr (q, there) ↦
        let (r, at, name) = w.found j q there in
        let (r', at', name') = w.found id p here in
        ground (
          arith,
          get-after j,
          last_position,
          inside,
          get_elem?-after p,
          get_elem?-after q,
          lt_of_get_elem? self.records q at,
        )
  ]

  after-IsIndexed : IsIndexed after
  after-IsIndexed = record {
    found = λ j q there. elim (Bool-cases (ltb (p + 1) (length self.records) && last.id == j)) [
      | inl moved ↦ (last, ground (arith, get-after j, get_elem?-after q, inside), ground arith)
      | inr kept ↦
          let before : get_position self.positions j ≡ some q = ground (arith, get-after j) in
          let (r, at, name) = w.found j q before in
          let (r', at', name') = w.found id p here in
          (
            r,
            ground
                (arith, get-after j, get_elem?-after q, lt_of_get_elem? self.records q at, inside),
            name,
          )
    ];
    listed = λ q r at.
        let (r', at', name') = w.found id p here in
        ground (arith, get_elem?-after q, get-after r.id, w.listed q r, last_position, inside);
  }

module _ (grow : ℕ → ℕ → ℕ) (self : FileRecords) (w : IsIndexed self) (id : ℕ) where
  -- In a well formed arena, removing an id forgets its record and no other, whether or not the
  -- id was there.
  pub find-remove : (j : ℕ) → find (remove grow self id) j ≡ (if id == j then none else find self j)
  unfolding remove
  find-remove j = elim (Option-cases (get_position self.positions id)) [
    | inl gone ↦
        rw ((get-remove_position self.positions id 0).0, gone)
          (unfold remove_at find in ground (arith, (get-remove_position self.positions id j).1))
    | inr (p, here) ↦
        let (r, at, name) = w.found id p here in
        let (last, at_end) =
          get_elem?-of_lt self.records (length self.records - 1)
            (omega (arith, lt_of_get_elem? self.records p at)) in
        rw ((get-remove_position self.positions id 0).0, here)
          (unfold after in find-after grow self w id p last here at_end j)
  ]

  -- Removing an id keeps an arena well formed, with the last record moved into the gap.
  pub remove-IsIndexed : IsIndexed (remove grow self id)
  unfolding remove
  remove-IsIndexed = elim (Option-cases (get_position self.positions id)) [
    | inl gone ↦
        rw ((get-remove_position self.positions id 0).0, gone)
          (unfold remove_at in
            record {
              found = λ j q there.
                  w.found j q (ground (arith, (get-remove_position self.positions id j).1));
              listed = λ q r at.
                  ground (arith, (get-remove_position self.positions id r.id).1, w.listed q r at);
            })
    | inr (p, here) ↦
        let (r, at, name) = w.found id p here in
        let (last, at_end) =
          get_elem?-of_lt self.records (length self.records - 1)
            (omega (arith, lt_of_get_elem? self.records p at)) in
        rw ((get-remove_position self.positions id 0).0, here)
          (unfold after in after-IsIndexed grow self w id p last here at_end)
  ]
