-- ===== src/Index/FileRecords/Positions.antt =====
-- The position table behind its laws: whichever form it has, and across the change from slots to a
-- map, it is one finite map from ids to positions.
use win_blaze.Base.{
  ℕ, zero, suc, ◌+◌, ◌-◌, ◌<◌, ◌≡◌, refl, Option, none, some, List, [], ◌∷◌, arith, ltb, leb, ◌==◌,
  if◌then◌else◌, ◌⊎◌, Bool-cases, length, get_elem?, set, replicate, length-append,
  length-replicate, get_elem?-set, get_elem?-append, get_elem?-of_le, inl, inr,
}
use win_blaze.Base.IdMap
use win_blaze.Base.IdMap.{IdMap, get-insert, get-remove, get-nil}
use win_blaze.Index.FileRecords.{
  FilePositions, dense, sparse, decode_slot, decode_slot?, encode_slot, get_position, collect_slots,
  resize_slots, promote, insert_slot, insert_position, remove_position, dense_limit,
  reserve_positions,
}

-- What the slots from `base` on say of an id.
slot_at : ℕ → List ℕ → ℕ → Option ℕ
slot_at base [] j = none
slot_at base (e ∷ slots) j = if base == j then decode_slot e else slot_at (base + 1) slots j

slot_at-below : (base : ℕ) (slots : List ℕ) (j : ℕ) → j < base → slot_at base slots j ≡ none
unfolding slot_at
slot_at-below base [] j h = refl
slot_at-below base (e ∷ slots) j h = ground (arith, slot_at-below (base + 1) slots j)

slot_at-get_elem? :
    (base : ℕ) (slots : List ℕ) (k : ℕ)
    → slot_at base slots (base + k) ≡ decode_slot? (get_elem? slots k)
unfolding slot_at decode_slot?
slot_at-get_elem? base [] k = refl
slot_at-get_elem? base (e ∷ slots) zero = ground arith
slot_at-get_elem? base (e ∷ slots) (suc k) =
    let e' : base + 1 + k ≡ base + suc k = omega arith in
    ground (arith, rw e' at (slot_at-get_elem? (base + 1) slots k))

or_else : Option ℕ → Option ℕ → Option ℕ
or_else none b = b
or_else (some a) b = some a

get-collect_slots :
    (base : ℕ) (slots : List ℕ) (m : IdMap ℕ) (j : ℕ)
    → IdMap.get (collect_slots base slots m) j ≡ or_else (slot_at base slots j) (IdMap.get m j)
unfolding collect_slots slot_at or_else decode_slot
get-collect_slots base [] m j = refl
get-collect_slots base (zero ∷ slots) m j =
    ground (arith, get-collect_slots (base + 1) slots m j, slot_at-below (base + 1) slots j)
get-collect_slots base (suc p ∷ slots) m j = ground (
  arith,
  get-collect_slots (base + 1) slots (IdMap.insert m base p) j,
  slot_at-below (base + 1) slots j,
  get-insert m base p j,
)

get-collect_slots_nil :
    (slots : List ℕ) (j : ℕ)
    → IdMap.get (collect_slots 0 slots []) j ≡ decode_slot? (get_elem? slots j)
unfolding or_else
get-collect_slots_nil slots j =
    let e : 0 + j ≡ j = omega arith in
    ground (
      arith,
      get-collect_slots 0 slots [] j,
      rw e at (slot_at-get_elem? 0 slots j),
      get-nil {V = ℕ} j,
    )

get-promote :
    (slots : List ℕ) (id position j : ℕ)
    → get_position (promote slots id position) j
      ≡ (if id == j then some position else decode_slot? (get_elem? slots j))
unfolding promote get_position
get-promote slots id position j =
    ground
      (arith, get-insert (collect_slots 0 slots []) id position j, get-collect_slots_nil slots j)

length-resize_slots : (slots : List ℕ) (id : ℕ) → id < length (resize_slots slots id)
unfolding resize_slots
length-resize_slots slots id =
    let zeros : List ℕ = replicate (id + 1 - length slots) 0 in
    ground (arith, length-append slots zeros, length-replicate {A = ℕ} (id + 1 - length slots) 0)

decode-replicate : (n k : ℕ) → decode_slot? (get_elem? (replicate n 0) k) ≡ none
unfolding decode_slot?
decode-replicate zero k = refl
decode-replicate (suc n) zero = refl
decode-replicate (suc n) (suc k) = decode-replicate n k

decode-resize_slots :
    (slots : List ℕ) (id j : ℕ)
    → decode_slot? (get_elem? (resize_slots slots id) j) ≡ decode_slot? (get_elem? slots j)
unfolding resize_slots
decode-resize_slots slots id j = elim (Bool-cases (leb (length slots) id)) [
  | inr no_room ↦ rw no_room
  | inl room ↦
      rw (room, get_elem?-append)
        (elim (Bool-cases (ltb j (length slots))) [
          | inl inside ↦ rw inside
          | inr outside ↦
              rw (outside, decode-replicate)
                (unfold decode_slot? in rw (get_elem?-of_le slots j (ground arith)))
        ])
]

encode_slot-cases :
    (position : ℕ) → (encode_slot position ≡ none) ⊎ (encode_slot position ≡ some (suc position))
unfolding encode_slot
encode_slot-cases position = ground arith

module _ (grow : ℕ → ℕ → ℕ) where
  get-insert_slot :
      (slots : List ℕ) (capacity hint id position live j : ℕ)
      → get_position
          (insert_slot grow slots capacity hint id position live (encode_slot position))
          j
        ≡ (if id == j then some position else decode_slot? (get_elem? slots j))
  get-insert_slot slots capacity hint id position live j = elim (encode_slot-cases position) [
    | inl wide ↦ rw wide (unfold insert_slot in get-promote slots id position j)
    | inr fits ↦ rw fits (
        unfold insert_slot in
        elim (Bool-cases (ltb id (dense_limit capacity hint live))) [
          | inr far ↦ rw far (get-promote slots id position j)
          | inl near ↦ rw near (
              unfold get_position decode_slot? in
              ground (
                arith,
                get_elem?-set (resize_slots slots id) id (suc position) j
                    (length-resize_slots slots id),
                decode-resize_slots slots id j,
              ))
        ])
  ]

  -- After the insertion of a position, dense or sparse or just promoted, the table finds that
  -- position at the id and what it found before at every other id.
  pub get-insert_position :
      (positions : FilePositions) (id position live j : ℕ)
      → get_position (insert_position grow positions id position live) j
        ≡ (if id == j then some position else get_position positions j)
  get-insert_position (dense slots capacity hint) id position live j =
      unfold insert_position in
      rw (get-insert_slot slots capacity hint id position live j) (unfold get_position in refl)
  get-insert_position (sparse positions) id position live j =
      unfold insert_position get_position in get-insert positions id position j

  pub get-reserve_positions :
      (positions : FilePositions) (total j : ℕ)
      → get_position (reserve_positions grow positions total) j ≡ get_position positions j
  unfolding reserve_positions get_position
  get-reserve_positions (dense slots capacity hint) total j = ground arith
  get-reserve_positions (sparse positions) total j = refl

decode-set_zero :
    (slots : List ℕ) (id j : ℕ)
    → decode_slot? (get_elem? (set slots id 0) j)
      ≡ (if id == j then none else decode_slot? (get_elem? slots j))
unfolding decode_slot?
decode-set_zero [] id j = ground arith
decode-set_zero (s ∷ slots) zero zero = ground arith
decode-set_zero (s ∷ slots) zero (suc j) = ground arith
decode-set_zero (s ∷ slots) (suc id) zero = ground arith
decode-set_zero (s ∷ slots) (suc id) (suc j) = ground (arith, decode-set_zero slots id j)

-- Removing an id from the table returns what it found there, leaves nothing there and changes
-- no other id.
pub get-remove_position :
    (positions : FilePositions) (id j : ℕ)
    → ((remove_position positions id).0 ≡ get_position positions id)
      × (get_position (remove_position positions id).1 j
          ≡ (if id == j then none else get_position positions j))
unfolding remove_position get_position
get-remove_position (dense slots capacity hint) id j = (refl, decode-set_zero slots id j)
get-remove_position (sparse positions) id j = (refl, get-remove positions id j)
