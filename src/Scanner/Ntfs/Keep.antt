-- ===== src/Scanner/Ntfs/Keep.antt =====
-- `mft_keep_extents` of src/WinBlaze.Scanner/src/ntfs.rs: the extents of the MFT without its long runs
-- of free records. The loops over the clusters have a round for each cluster, so that their fuel is
-- enough. Unchecked sums wrap at 64 bits.
pub mod Flags
pub mod Grown
pub mod Located
pub mod Kept
use Prim.Native.Nat.{bit_and}
use win_blaze.Base.{
  ℕ, zero, suc, ◌+◌, ◌-◌, ◌*◌, ◌/◌, ◌%◌, ◌^◌, Bool, true, false, not, ◌||◌, Option, none, some,
  List, [], ◌∷◌, ltb, ◌==◌, if◌then◌else◌, get_elem?, get_or, set, replicate, max,
}
use win_blaze.Scanner.Ntfs.Fixups.{ntfs_record_size}

-- `bitmap.get(byte).is_some_and(…)`
unfoldable pub in_use : List ℕ → ℕ → Bool
in_use bitmap number = elim (get_elem? bitmap (number / 8)) [
  | none ↦ false
  | some b ↦ not (bit_and b (2 ^ (number % 8)) == 0)
]

-- Whether one of `count` records is in use.
unfoldable pub any_in_use : List ℕ → ℕ → ℕ → Bool
unfolding in_use
any_in_use bitmap zero number = false
any_in_use bitmap (suc count) number =
    in_use bitmap number || any_in_use bitmap count ((number + 1) % 2 ^ 64)

unfoldable pub cluster_occupied : List ℕ → ℕ → ℕ → Bool
unfolding any_in_use
cluster_occupied bitmap records_per_cluster cluster =
    any_in_use bitmap records_per_cluster (cluster * records_per_cluster % 2 ^ 64)

unfoldable pub total_clusters : ℕ → List (ℕ × ℕ) → ℕ
total_clusters bytes_per_cluster [] = 0
total_clusters bytes_per_cluster (extent ∷ extents) =
    (extent.1 / bytes_per_cluster + total_clusters bytes_per_cluster extents) % 2 ^ 64

-- `valid.div_ceil(size)`
abbrev pub div_ceil : ℕ → ℕ → ℕ
div_ceil bytes size = (bytes + (size - 1)) / size

module _ (occupied : ℕ → Bool) (skip_min : ℕ) where
  -- The length of a run of free clusters that starts at `c`, with `left` clusters to the end.
  unfoldable pub run_length : ℕ → ℕ → ℕ
  run_length zero c = 0
  run_length (suc left) c = let rest = run_length left (suc c) in if occupied c then 0 else suc rest

  unfoldable pub keep_run : List Bool → ℕ → ℕ → List Bool
  keep_run keep start zero = keep
  keep_run keep start (suc count) = keep_run (set keep start true) (suc start) count

  unfoldable pub keep_loop : ℕ → ℕ → List Bool → ℕ → List Bool
  unfolding run_length keep_run
  keep_loop zero total keep c = keep
  keep_loop (suc fuel) total keep c =
      let run = run_length (total - c) c in
      let on = keep_loop fuel total (set keep c true) (suc c) in
      let past =
        keep_loop fuel total (if ltb run skip_min then keep_run keep c run else keep) (c + run) in
      if ltb c total then if occupied c then on else past else keep

  unfoldable pub keep_clusters : ℕ → List Bool
  unfolding keep_loop
  keep_clusters total = keep_loop total total (replicate total false) 0

-- Onto the last extent when it ends where this one starts; the latest extent stands first.
unfoldable pub push_extent : List (ℕ × ℕ) → ℕ → ℕ → List (ℕ × ℕ)
push_extent [] physical length = (physical, length) ∷ []
push_extent ((start, size) ∷ result) physical length =
    if (start + size) % 2 ^ 64 == physical
    then (start, (size + length) % 2 ^ 64) ∷ result
    else (physical, length) ∷ (start, size) ∷ result

module _ (bytes_per_cluster : ℕ) (keep : List Bool) where
  -- The clusters of one extent, from the physical position and the logical cluster on.
  unfoldable pub push_clusters : List (ℕ × ℕ) → ℕ → ℕ → ℕ → List (ℕ × ℕ)
  unfolding push_extent
  push_clusters result zero physical logical = result
  push_clusters result (suc count) physical logical =
      push_clusters
        (if get_or keep logical true then push_extent result physical bytes_per_cluster else result)
        count ((physical + bytes_per_cluster) % 2 ^ 64) ((logical + 1) % 2 ^ 64)

  -- A tail shorter than a cluster is kept.
  unfoldable pub push_tail : List (ℕ × ℕ) → ℕ → ℕ → List (ℕ × ℕ)
  unfolding push_extent
  push_tail result physical tail = if tail == 0 then result else push_extent result physical tail

  unfoldable pub push_extents : List (ℕ × ℕ) → List (ℕ × ℕ) → ℕ → List (ℕ × ℕ)
  unfolding push_clusters push_tail
  push_extents result [] logical = result
  push_extents result ((start, size) ∷ extents) logical =
      let clusters = size / bytes_per_cluster in
      push_extents
        (push_tail (push_clusters result clusters start logical)
          ((start + clusters * bytes_per_cluster) % 2 ^ 64) (size % bytes_per_cluster))
        extents ((logical + clusters) % 2 ^ 64)

unfoldable pub reversed : List (ℕ × ℕ) → List (ℕ × ℕ) → List (ℕ × ℕ)
reversed result [] = result
reversed result (extent ∷ extents) = reversed (extent ∷ result) extents

unfoldable pub mft_keep_extents : List (ℕ × ℕ) → List ℕ → ℕ → ℕ → List (ℕ × ℕ)
unfolding cluster_occupied total_clusters keep_clusters push_extents reversed
mft_keep_extents data_extents bitmap bytes_per_cluster skip_min_bytes =
    let records_per_cluster = bytes_per_cluster / ntfs_record_size in
    let total = total_clusters bytes_per_cluster data_extents in
    let keep =
      keep_clusters (cluster_occupied bitmap records_per_cluster)
        (max (div_ceil skip_min_bytes bytes_per_cluster) 1) total in
    if records_per_cluster == 0 || total == 0
    then data_extents
    else reversed [] (push_extents bytes_per_cluster keep [] data_extents 0)
