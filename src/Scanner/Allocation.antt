-- ===== src/Scanner/Allocation.antt =====
-- `NarrowIdentities` of src/WinBlaze.Scanner/src/allocation.rs: the identities that were claimed, as a
-- hash set and a window of bits. A hash set is the list of its elements; the order in which it is
-- iterated, on which a vote depends, is the parameter `order`. `none` is a panic of the source.
pub mod Bits
pub mod Compacted
pub mod Narrow
pub mod Claims
pub mod Tracker
use Prim.Native.Nat.{bit_and, bit_or}
use win_blaze.Base.{
  ℕ, zero, suc, ◌+◌, ◌-◌, ◌*◌, ◌/◌, ◌%◌, ◌^◌, Bool, true, false, not, ◌&&◌, ◌||◌, Option, none,
  some, List, [], ◌∷◌, ◌++◌, ltb, leb, ◌==◌, if◌then◌else◌, length, get_elem?, set, take, drop,
  replicate, min, max,
}
use win_blaze.Base.Bytes.{u64_max}
use win_blaze.Base.Words.{saturating_mul}

pub record DenseIdentities : Type 0 where
  pub first : ℕ
  pub words : List ℕ
  pub count : ℕ

pub record NarrowIdentities : Type 0 where
  pub sparse : List ℕ
  pub dense : Option DenseIdentities
  pub next_compaction : ℕ

-- `NarrowIdentities::default()`
abbrev pub no_identities : NarrowIdentities
no_identities = record { sparse = []; dense = none; next_compaction = 4096 }

unfoldable pub is_member : ℕ → List ℕ → Bool
is_member file [] = false
is_member file (other ∷ files) = other == file || is_member file files

-- The word of a window that holds the bit of a file, when there is one.
unfoldable pub word_of : ℕ → List ℕ → ℕ → Option ℕ
word_of first words file = if ltb file first then none else get_elem? words ((file - first) / 64)

-- `*word |= 1 << (offset % 64)`
unfoldable pub mark : ℕ → List ℕ → ℕ → ℕ → List ℕ
mark first words file word =
    set words ((file - first) / 64) (bit_or word (2 ^ ((file - first) % 64)))

unfoldable pub claim_bit : DenseIdentities → ℕ → ℕ → Bool × DenseIdentities
unfolding mark
claim_bit dense file word =
    let is_first = bit_and word (2 ^ ((file - dense.first) % 64)) == 0 in
    (
      is_first,
      record dense {
        words = mark dense.first dense.words file word;
        count = dense.count + (if is_first then 1 else 0);
      },
    )

-- The majority vote on the upper halves.
unfoldable pub vote : ℕ → ℕ → List ℕ → ℕ
vote candidate votes [] = candidate
vote candidate votes (file ∷ files) =
    let prefix = file / 2 ^ 32 in
    let started = vote prefix 1 files in
    let for' = vote candidate (votes + 1) files in
    let against = vote candidate (votes - 1) files in
    if votes == 0 then started else if prefix == candidate then for' else against

-- The window that is wanted: its ends, and the count of the files in it.
pub record Region : Type 0 where
  pub first : ℕ
  pub last : ℕ
  pub count : ℕ

unfoldable pub region_of : ℕ → Region → List ℕ → Region
region_of prefix region [] = region
region_of prefix region (file ∷ files) =
    region_of prefix
      (if file / 2 ^ 32 == prefix
        then record {
          first = min region.first (file - file % 64);
          last = max region.last file;
          count = region.count + 1;
        }
        else region)
      files

-- `next_power_of_two`
unfoldable pub double_until : ℕ → ℕ → ℕ → ℕ
double_until zero power n = power
double_until (suc fuel) power n =
    let doubled = double_until fuel (2 * power) n in if leb n power then power else doubled

abbrev pub next_power_of_two : ℕ → ℕ
next_power_of_two n = double_until n 1 n

-- `words[offset..offset + source.len()].copy_from_slice(source)`
unfoldable pub copy_from_slice : List ℕ → ℕ → List ℕ → Option (List ℕ)
copy_from_slice words offset source =
    if leb (offset + length source) (length words)
    then some (take offset words ++ (source ++ drop (offset + length source) words))
    else none

-- `sparse.retain(…)`: the files that stay, the words and the count after it.
pub record Retained : Type 0 where
  pub sparse : List ℕ
  pub words : List ℕ
  pub count : ℕ

unfoldable pub retain : ℕ → List ℕ → ℕ → List ℕ → Retained
unfolding word_of mark
retain first words count [] = record { sparse = []; words = words; count = count }
retain first words count (file ∷ files) = elim (word_of first words file) [
  | none ↦ let rest = retain first words count files in record rest { sparse = file ∷ rest.sparse }
  | some word ↦ retain first (mark first words file word) (count + 1) files
]

unfoldable pub prefix_of : (List ℕ → List ℕ) → NarrowIdentities → ℕ
unfolding vote
prefix_of order self = elim self.dense [
  | none ↦ vote 0 0 (order self.sparse)
  | some dense ↦ dense.first / 2 ^ 32
]

abbrev pub is_none {ℓ} : {A : Type ℓ} → Option A → Bool
is_none none = true
is_none (some a) = false

unfoldable pub widen : Option DenseIdentities → Region → Region
widen none region = region
widen (some dense) region = record {
  first = min region.first dense.first;
  last = max region.last (dense.first + (length dense.words * 64 - 1));
  count = region.count + dense.count;
}

-- The words of the old window, in a window that starts at `first`.
unfoldable pub old_words : Option DenseIdentities → ℕ → ℕ → Option (List ℕ)
unfolding copy_from_slice
old_words none first words = some (replicate words 0)
old_words (some dense) first words =
    copy_from_slice (replicate words 0) ((dense.first - first) / 64) dense.words

abbrev pub count_of : Option DenseIdentities → ℕ
count_of none = 0
count_of (some dense) = dense.count

unfoldable pub rebuild : NarrowIdentities → ℕ → ℕ → Option NarrowIdentities
unfolding old_words retain
rebuild self first words = elim (old_words self.dense first words) [
  | none ↦ none
  | some old ↦
      let retained = retain first old (count_of self.dense) self.sparse in
      some (record {
        sparse = retained.sparse;
        dense = some (record { first = first; words = retained.words; count = retained.count });
        next_compaction = saturating_mul (max (length retained.sparse) 1) 2;
      })
]

abbrev pub postponed : NarrowIdentities → NarrowIdentities
postponed self = record self { next_compaction = saturating_mul (length self.sparse) 2 }

unfoldable pub compact : (List ℕ → List ℕ) → NarrowIdentities → Option NarrowIdentities
unfolding prefix_of region_of widen double_until rebuild
compact order self =
    let found =
      region_of (prefix_of order self) (record { first = u64_max; last = 0; count = 0 })
        self.sparse in
    let region = widen self.dense found in
    let words = next_power_of_two ((region.last - region.first) / 64 + 1) in
    let first =
      if ltb (2 ^ 64) (region.first + words * 64) then 2 ^ 64 - words * 64 else region.first in
    if found.count == 0 || (is_none self.dense && leb found.count (length self.sparse / 2))
    then some (postponed self)
    else if ltb (region.count * 2) words || ltb 131072 words
    then some (postponed self)
    else rebuild self first words

-- The result of the call and the state after it.
unfoldable pub insert_sparse :
    (List ℕ → List ℕ) → NarrowIdentities → ℕ → Option (Bool × NarrowIdentities)
unfolding is_member compact
insert_sparse order self file =
    let grown : NarrowIdentities = record self { sparse = file ∷ self.sparse } in
    if is_member file self.sparse
    then some (false, self)
    else if leb self.next_compaction (length grown.sparse)
    then elim (compact order grown) [ none ↦ none | some after ↦ some (true, after) ]
    else some (true, grown)

unfoldable pub insert_narrow :
    (List ℕ → List ℕ) → NarrowIdentities → ℕ → Option (Bool × NarrowIdentities)
unfolding word_of claim_bit insert_sparse
insert_narrow order self file = elim self.dense [
  | none ↦ insert_sparse order self file
  | some dense ↦ elim (word_of dense.first dense.words file) [
    | none ↦ insert_sparse order self file
    | some word ↦
        let (is_first, claimed) = claim_bit dense file word in
        some (is_first, record self { dense = some claimed })
  ]
]
