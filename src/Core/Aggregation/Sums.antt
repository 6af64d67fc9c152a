-- ===== src/Core/Aggregation/Sums.antt =====
-- The reference: the aggregate of a directory as sums over the entries, and what one entry adds.
use win_blaze.Base.{
  ℕ, zero, suc, ◌+◌, ◌<◌, ◌≡◌, refl, ap, ◌∙◌, inl, inr, Bool-cases, Bool, true, false, none, some,
  List, [], ◌∷◌, arith, ◌==◌, if◌then◌else◌, min,
}
use win_blaze.Base.Bytes.{u64_max}
use win_blaze.Base.IdMap
use win_blaze.Base.IdMap.{IdMap, get-insert}
use win_blaze.Core.Model.{DirectoryRecord, FileRecord}
use win_blaze.Core.Aggregation.{
  DirectoryAggregation, no_aggregation, ParentMap, Aggregates, add_directory, add_file,
}
use win_blaze.Core.Aggregation.Chains.{
  is_above, is_above-top, is_above-under, is_key, Parent-cases, Add, added, Climbs,
}

-- An entry of a directory: a directory with a parent, or a file.
pub record Entry : Type 0 where
  pub parent : ℕ
  pub size_bytes : ℕ
  pub allocation_bytes : ℕ

abbrev pub file_entry : FileRecord → Entry
file_entry file = record {
  parent = file.parent_directory_id;
  size_bytes = file.size_bytes;
  allocation_bytes = file.allocation_bytes;
}

abbrev pub directory_entries : List DirectoryRecord → List Entry
directory_entries [] = []
directory_entries (d ∷ directories) = elim d.parent_directory_id [
  | none ↦ directory_entries directories
  | some parent ↦
      record { parent = parent; size_bytes = 0; allocation_bytes = 0 }
      ∷ directory_entries directories
]

abbrev pub plus : DirectoryAggregation → DirectoryAggregation → DirectoryAggregation
plus a b = record {
  direct_bytes = a.direct_bytes + b.direct_bytes;
  total_bytes = a.total_bytes + b.total_bytes;
  direct_entries = a.direct_entries + b.direct_entries;
  total_entries = a.total_entries + b.total_entries;
}

abbrev pub saturated : DirectoryAggregation → DirectoryAggregation
saturated a = record {
  direct_bytes = min u64_max a.direct_bytes;
  total_bytes = min u64_max a.total_bytes;
  direct_entries = min u64_max a.direct_entries;
  total_entries = min u64_max a.total_entries;
}

module _ (fuel : ℕ) (parents : ParentMap) (id : ℕ) where
  -- What an entry counts for a directory: directly when it is its parent, and in the totals when it
  -- is the parent or above it.
  abbrev pub counted : Entry → DirectoryAggregation
  counted entry = record {
    direct_bytes = if entry.parent == id then entry.size_bytes else 0;
    total_bytes = if is_above fuel parents id entry.parent then entry.allocation_bytes else 0;
    direct_entries = if entry.parent == id then 1 else 0;
    total_entries = if is_above fuel parents id entry.parent then 1 else 0;
  }

  abbrev pub sums : List Entry → DirectoryAggregation
  sums [] = no_aggregation
  sums (entry ∷ entries) = plus (counted entry) (sums entries)

pub plus_eq :
    (a b : DirectoryAggregation)
    → a.direct_bytes ≡ b.direct_bytes
    → a.total_bytes ≡ b.total_bytes
    → a.direct_entries ≡ b.direct_entries
    → a.total_entries ≡ b.total_entries
    → a ≡ b
plus_eq a b p q r s =
    λ i. record { direct_bytes = p i; total_bytes = q i; direct_entries = r i; total_entries = s i }

pub plus_assoc : (a b c : DirectoryAggregation) → plus (plus a b) c ≡ plus a (plus b c)
plus_assoc a b c = plus_eq _ _ (omega arith) (omega arith) (omega arith) (omega arith)

-- The body of a loop on a saturated aggregate: it adds the entry and saturates.
abbrev pub AddsEntry : Add → Entry → Type 0
AddsEntry add entry =
    (first : Bool) (a : DirectoryAggregation)
    → add first (saturated a)
      ≡ saturated (
          plus a (record {
            direct_bytes = if first then entry.size_bytes else 0;
            total_bytes = entry.allocation_bytes;
            direct_entries = if first then 1 else 0;
            total_entries = 1;
          }))

pub add_directory-AddsEntry :
    (parent : ℕ)
    → AddsEntry add_directory (record { parent = parent; size_bytes = 0; allocation_bytes = 0 })
unfolding add_directory
add_directory-AddsEntry parent true a =
    plus_eq _ _ (omega arith) (omega arith) (omega arith) (omega arith)
add_directory-AddsEntry parent false a =
    plus_eq _ _ (omega arith) (omega arith) (omega arith) (omega arith)

pub add_file-AddsEntry :
    (file : FileRecord)
    → AddsEntry (add_file file.size_bytes file.allocation_bytes) (file_entry file)
unfolding add_file
add_file-AddsEntry file true a = plus_eq _ _ (omega arith) (omega arith) (omega arith) (omega arith)
add_file-AddsEntry file false a =
    plus_eq _ _ (omega arith) (omega arith) (omega arith) (omega arith)

-- A directory of the map is above itself.
is_above_self :
    (fuel : ℕ) (parents : ParentMap) (id current : ℕ)
    → 0 < fuel
    → is_key (IdMap.get parents id) ≡ true
    → (current == id) ≡ true
    → is_above fuel parents id current ≡ true
is_above_self zero parents id current pos key same = absurd (omega arith)
is_above_self (suc fuel) parents id current pos key same =
    let eq : current ≡ id = ground (arith, same) in
    let keys : is_key (IdMap.get parents current) ≡ true = rw eq key in
    elim (Parent-cases (IdMap.get parents current)) [
      | inl p ↦ absurd (ground (arith, p, keys))
      | inr (inl p) ↦ rw (is_above-top fuel parents id current p) same
      | inr (inr (parent, p)) ↦ rw (is_above-under fuel parents id current parent p, same) refl
    ]

-- Each directory of the map has the saturated value.
abbrev pub HasValues : ParentMap → (ℕ → DirectoryAggregation) → Aggregates → Type 0
HasValues parents v aggregates =
    (id : ℕ)
    → is_key (IdMap.get parents id) ≡ true
    → IdMap.get aggregates id ≡ some (saturated (v id))

module _ (fuel : ℕ) (parents : ParentMap) (entry : Entry) (add : Add) (adds : AddsEntry add entry)
    (pos : 0 < fuel) where
  added-counted :
      (id : ℕ) (a : DirectoryAggregation)
      → is_key (IdMap.get parents id) ≡ true
      → added add fuel parents true id entry.parent (saturated a)
        ≡ saturated (plus a (counted fuel parents id entry))
  added-counted id a key = elim (Bool-cases (is_above fuel parents id entry.parent)) [
    | inl t ↦ rw t (adds (entry.parent == id) a)
    | inr t ↦
        let other : (entry.parent == id) ≡ false =
          ground (arith, t, is_above_self fuel parents id entry.parent pos key) in
        rw (t, other) (plus_eq _ _ (omega arith) (omega arith) (omega arith) (omega arith))
  ]

  pub Climbs-HasValues :
      (v : ℕ → DirectoryAggregation) (aggregates : Aggregates)
      → HasValues parents v aggregates
      → (up : Climbs add fuel parents true aggregates entry.parent)
      → HasValues parents (λ id. plus (v id) (counted fuel parents id entry)) up.after
  Climbs-HasValues v aggregates values up id key =
      up.adds id (saturated (v id)) (values id key) ∙ ap some (added-counted id (v id) key)
