-- ===== src/Scanner/Allocation/Tracker.antt =====
-- `VolumeIdentities`, `AllocationTracker` and `ConcurrentAllocationTracker` of
-- src/WinBlaze.Scanner/src/allocation.rs. A shard's lock makes a claim of a concurrent tracker one step.
pub mod Refined
pub mod Shared
use Prim.Native.Nat.{bit_and, bit_xor}
use win_blaze.Base.{
  ℕ, ◌+◌, ◌*◌, ◌/◌, ◌%◌, ◌^◌, Bool, true, false, ◌&&◌, Option, none, some, List, [], ◌∷◌, ltb, leb,
  ◌==◌, if◌then◌else◌, length, get_elem?, set, replicate,
}
use win_blaze.Base.Bytes.{u64_max}
use win_blaze.Base.IdMap
use win_blaze.Base.IdMap.{IdMap}
use win_blaze.Scanner.Allocation.{NarrowIdentities, no_identities, is_member, insert_narrow}

pub record VolumeIdentities : Type 0 where
  pub narrow : NarrowIdentities
  pub wide : List ℕ

-- `VolumeIdentities::default()`
abbrev pub no_files : VolumeIdentities
no_files = record { narrow = no_identities; wide = [] }

pub data TrackedVolumes : Type 0 where
  empty : TrackedVolumes
  single : ℕ → VolumeIdentities → TrackedVolumes
  multiple : IdMap VolumeIdentities → TrackedVolumes

-- `volumes.entry(volume).or_default()`
abbrev pub or_default : Option VolumeIdentities → VolumeIdentities
or_default none = no_files
or_default (some identities) = identities

module _ (order : List ℕ → List ℕ) where
  -- Whether the file is new, and the identities after it.
  unfoldable pub insert_file : VolumeIdentities → ℕ → Option (Bool × VolumeIdentities)
  unfolding insert_narrow is_member
  insert_file self file =
      if leb file u64_max
      then elim (insert_narrow order self.narrow file) [
        | none ↦ none
        | some result ↦ some (result.0, record self { narrow = result.1 })
      ]
      else if is_member file self.wide
      then some (false, self)
      else some (true, record self { wide = file ∷ self.wide })

  -- `VolumeIdentities::claim`
  unfoldable pub claim_file : VolumeIdentities → ℕ → ℕ → Option (ℕ × VolumeIdentities)
  unfolding insert_file
  claim_file self file bytes = elim (insert_file self file) [
    | none ↦ none
    | some result ↦ some (if result.0 then bytes else 0, result.1)
  ]

  -- A claim on the identities of one volume, put back by `store`.
  unfoldable pub claim_in :
      VolumeIdentities → (VolumeIdentities → TrackedVolumes) → ℕ → ℕ → Option (ℕ × TrackedVolumes)
  unfolding claim_file
  claim_in identities store file bytes = elim (claim_file identities file bytes) [
    | none ↦ none
    | some result ↦ some (result.0, store result.1)
  ]

  abbrev pub claim_multiple : IdMap VolumeIdentities → ℕ → ℕ → ℕ → Option (ℕ × TrackedVolumes)
  claim_multiple volumes volume file bytes =
      claim_in (or_default (IdMap.get volumes volume))
        (λ identities. multiple (IdMap.insert volumes volume identities)) file bytes

  unfoldable pub claim_tracked : TrackedVolumes → ℕ → ℕ → ℕ → Option (ℕ × TrackedVolumes)
  unfolding claim_in IdMap.get IdMap.insert
  claim_tracked empty volume file bytes = claim_in no_files (single volume) file bytes
  claim_tracked (single primary identities) volume file bytes =
      if primary == volume
      then claim_in identities (single primary) file bytes
      else claim_multiple ((primary, identities) ∷ []) volume file bytes
  claim_tracked (multiple volumes) volume file bytes = claim_multiple volumes volume file bytes

  -- `AllocationTracker::claim`
  unfoldable pub claim : TrackedVolumes → ℕ × ℕ → ℕ → Option (ℕ × TrackedVolumes)
  unfolding claim_tracked
  claim self (volume, file) bytes =
      if bytes == 0 then some (0, self) else claim_tracked self volume file bytes

  -- The shard of an identity.
  unfoldable pub shard_of : ℕ → ℕ → ℕ
  shard_of volume file =
      bit_and (bit_xor (bit_xor (file % 2 ^ 64) (file / 2 ^ 64 % 2 ^ 64)) volume) 63

  -- `ConcurrentAllocationTracker::claim`; a shard out of range is a panic
  unfoldable pub claim_shared : List TrackedVolumes → ℕ × ℕ → ℕ → Option (ℕ × List TrackedVolumes)
  unfolding claim shard_of
  claim_shared shards (volume, file) bytes =
      if bytes == 0 then some (0, shards) else elim (get_elem? shards (shard_of volume file)) [
        | none ↦ none
        | some shard ↦ elim (claim shard (volume, file) bytes) [
          | none ↦ none
          | some result ↦ some (result.0, set shards (shard_of volume file) result.1)
        ]
      ]

-- `ConcurrentAllocationTracker::default()`
abbrev pub no_shards : List TrackedVolumes
no_shards = replicate 64 empty
