-- ===== src/Index/FileRecords.antt =====
-- src/WinBlaze.Index/src/file_records.rs: an arena of file records, and the position of each id in
-- it, kept in a dense vector of `u32` slots until an id does not fit. The capacity of the slot vector
-- decides when that is; how a `Vec` grows is the parameter `grow` (old capacity, needed length). The
-- capacity of the arena itself only costs time and is not modelled.
pub mod Positions
pub mod Arena
pub mod Removal
pub mod Loading
use win_blaze.Base.{
  ℕ, zero, suc, ◌+◌, ◌-◌, ◌*◌, ◌^◌, ◌≤◌, min, max, Bool, true, false, Option, none, some, List, [],
  ◌∷◌, ◌++◌, ltb, leb, ◌==◌, if◌then◌else◌, length, get_elem?, set, take, replicate,
}
use win_blaze.Base.Words.{saturating_add, saturating_mul}
use win_blaze.Base.IdMap
use win_blaze.Base.IdMap.{IdMap}
use win_blaze.Core.Model.{FileRecord}

-- `Dense(slots, hint)` also carries the capacity of `slots`.
pub data FilePositions : Type 0 where
  dense : List ℕ → ℕ → ℕ → FilePositions
  sparse : IdMap ℕ → FilePositions

-- `encoded.checked_sub(1)`; a slot of 0 is empty
unfoldable pub decode_slot : ℕ → Option ℕ
decode_slot zero = none
decode_slot (suc position) = some position

unfoldable pub decode_slot? : Option ℕ → Option ℕ
unfolding decode_slot
decode_slot? none = none
decode_slot? (some encoded) = decode_slot encoded

-- `position.checked_add(1).and_then(|value| u32::try_from(value).ok())`
unfoldable pub encode_slot : ℕ → Option ℕ
encode_slot position = if ltb (position + 1) (2 ^ 32) then some (position + 1) else none

unfoldable pub get_position : FilePositions → ℕ → Option ℕ
unfolding decode_slot?
get_position (dense slots capacity hint) id = decode_slot? (get_elem? slots id)
get_position (sparse positions) id = IdMap.get positions id

-- the ids of a slot vector from `id` on, added to a map
unfoldable pub collect_slots : ℕ → List ℕ → IdMap ℕ → IdMap ℕ
collect_slots id [] positions = positions
collect_slots id (zero ∷ slots) positions = collect_slots (id + 1) slots positions
collect_slots id (suc position ∷ slots) positions =
    collect_slots (id + 1) slots (IdMap.insert positions id position)

-- `slots.resize(index + 1, 0)` when `index >= slots.len()`
unfoldable pub resize_slots : List ℕ → ℕ → List ℕ
resize_slots slots index =
    if leb (length slots) index then slots ++ replicate (index + 1 - length slots) 0 else slots

unfoldable pub dense_limit : ℕ → ℕ → ℕ → ℕ
dense_limit capacity hint live =
    max (max capacity (saturating_add hint 1)) (saturating_add (saturating_mul live 4) 16384)

unfoldable pub promote : List ℕ → ℕ → ℕ → FilePositions
unfolding collect_slots
promote slots id position = sparse (IdMap.insert (collect_slots 0 slots []) id position)

module _ (grow : ℕ → ℕ → ℕ) where
  unfoldable pub grown : List ℕ → ℕ → ℕ → ℕ
  grown slots capacity index =
      if ltb capacity (index + 1) then grow capacity (index + 1) else capacity

  unfoldable pub insert_slot : List ℕ → ℕ → ℕ → ℕ → ℕ → ℕ → Option ℕ → FilePositions
  unfolding grown resize_slots dense_limit promote
  insert_slot slots capacity hint id position live none = promote slots id position
  insert_slot slots capacity hint id position live (some encoded) =
      if ltb id (dense_limit capacity hint live)
      then dense (set (resize_slots slots id) id encoded) (grown slots capacity id) hint
      else promote slots id position

  unfoldable pub insert_position : FilePositions → ℕ → ℕ → ℕ → FilePositions
  unfolding insert_slot encode_slot
  insert_position (dense slots capacity hint) id position live =
      insert_slot slots capacity hint id position live (encode_slot position)
  insert_position (sparse positions) id position live = sparse (IdMap.insert positions id position)

  -- `FilePositions::reserve`; `Vec::reserve(n)` grows a vector with less than `n` free places.
  unfoldable pub reserve_positions : FilePositions → ℕ → FilePositions
  reserve_positions (dense slots capacity hint) total =
      let needed = max (saturating_add total 1) (length slots) in
      if ltb 0 total
      then dense slots (if ltb capacity needed then grow capacity needed else capacity)
          (max hint total)
      else dense slots capacity hint
  reserve_positions (sparse positions) total = sparse positions

-- `mem::take` of the slot, or removal from the map; the position comes back too
unfoldable pub remove_position : FilePositions → ℕ → Option ℕ × FilePositions
unfolding get_position
remove_position (dense slots capacity hint) id =
    (get_position (dense slots capacity hint) id, dense (set slots id 0) capacity hint)
remove_position (sparse positions) id = (IdMap.get positions id, sparse (IdMap.remove positions id))

pub record FileRecords : Type 0 where
  pub positions : FilePositions
  pub records : List FileRecord

-- `Vec::with_capacity(n)` is taken to have a capacity of `n`.
unfoldable pub with_capacity : ℕ → FileRecords
with_capacity capacity = record {
  positions = dense [] (if capacity == 0 then 0 else saturating_add capacity 1) capacity;
  records = [];
}

-- `Vec::swap_remove`: the last element is written over the removed one.
unfoldable pub swap_remove {ℓ} : {A : Type ℓ} → List A → ℕ → List A
swap_remove xs position = elim (get_elem? xs (length xs - 1)) [
  | none ↦ xs
  | some last ↦ take (length xs - 1) (set xs position last)
]

-- A position past the arena is a panic in the source; Arena.antt shows that there is none.
module _ (grow : ℕ → ℕ → ℕ) where
  unfoldable pub reserve : FileRecords → ℕ → FileRecords
  unfolding reserve_positions
  reserve self total = record self { positions = reserve_positions grow self.positions total }

  insert_at : FileRecords → ℕ → FileRecord → Option ℕ → FileRecords
  insert_at self id new (some position) = record self { records = set self.records position new }
  insert_at self id new none = record {
    positions =
        insert_position grow self.positions id (length self.records) (length self.records + 1);
    records = self.records ++ new ∷ [];
  }

  unfoldable pub insert : FileRecords → ℕ → FileRecord → FileRecords
  unfolding insert_at
  insert self id new = insert_at self id new (get_position self.positions id)

  move_back : FilePositions → List FileRecord → ℕ → Option FileRecord → FilePositions
  move_back positions records position none = positions
  move_back positions records position (some moved) =
      insert_position grow positions moved.id position (length records)

  remove_at : FileRecords → Option ℕ × FilePositions → FileRecords
  unfolding move_back
  remove_at self (none, positions) = record self { positions = positions }
  remove_at self (some position, positions) =
      let records = swap_remove self.records position in
      record {
        positions = move_back positions records position (get_elem? records position);
        records = records;
      }

  unfoldable pub remove : FileRecords → ℕ → FileRecords
  unfolding remove_at
  remove self id = remove_at self (remove_position self.positions id)

-- `into_records`, and `values` in order
unfoldable pub into_records : FileRecords → List FileRecord
into_records self = self.records
