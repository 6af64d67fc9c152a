-- ===== src/Scanner/AllocationTests.antt =====
-- The theorems about src/WinBlaze.Scanner/src/allocation.rs at concrete inputs.
use mathlib.Core.Path.{subst}
use win_blaze.Base.{
  ℕ, zero, suc, ◌≡◌, not, ◌&&◌, ◌||◌, none, some, List, [], ◌∷◌, ◌==◌, if◌then◌else◌, arith,
  length-replicate, get_elem?, replicate,
}
use win_blaze.Scanner.Allocation.{NarrowIdentities}
use win_blaze.Scanner.Allocation.Compacted.{IsNarrow}
use win_blaze.Scanner.Allocation.Tracker.{
  TrackedVolumes, empty, single, claim, claim_shared, no_shards,
}
use win_blaze.Scanner.Allocation.Tracker.Refined.{claimed, IsTracker, claim-Refines}
use win_blaze.Scanner.Allocation.Tracker.Shared.{IsShards, claimed_shared, claim_shared-Refines}

abbrev in_order : List ℕ → List ℕ
in_order files = files

-- Files 7 and 9 of volume 1, in a hash set that the next file makes compact.
abbrev two_files : NarrowIdentities
two_files = record { sparse = 7 ∷ 9 ∷ []; dense = none; next_compaction = 3 }

abbrev tracked : TrackedVolumes
tracked = single 1 (record { narrow = two_files; wide = [] })

two_files-IsNarrow : IsNarrow two_files
two_files-IsNarrow = record {
  small = (omega arith, (omega arith, tt));
  window = λ dense e. absurd (cc);
}

claim-Refines_example :
    (after : TrackedVolumes) × ((claim in_order tracked (1, 8) 4096
        ≡ some (if 4096 == 0 || claimed tracked 1 8 then 0 else 4096, after))
      × (IsTracker after
          × ((v x : ℕ)
              → claimed after v x
                ≡ ((not (4096 == 0) && (1 == v && 8 == x)) || claimed tracked v x))))
claim-Refines_example = claim-Refines in_order tracked 1 8 4096 two_files-IsNarrow

some_inj : {a b : TrackedVolumes} → some a ≡ some b → a ≡ b
some_inj e = cc

empty-IsTracker :
    (n i : ℕ) (shard : TrackedVolumes)
    → get_elem? (replicate n empty) i ≡ some shard
    → IsTracker shard
empty-IsTracker zero i shard e = absurd (cc)
empty-IsTracker (suc n) zero shard e = subst IsTracker (some_inj e) tt
empty-IsTracker (suc n) (suc i) shard e = empty-IsTracker n i shard e

no_shards-IsShards : IsShards no_shards
no_shards-IsShards = record { count = length-replicate 64 empty; trackers = empty-IsTracker 64 }

claim_shared-Refines_example :
    (after : List TrackedVolumes) × ((claim_shared in_order no_shards (1, 8) 4096
        ≡ some (if 4096 == 0 || claimed_shared in_order no_shards 1 8 then 0 else 4096, after))
      × (IsShards after
          × ((v x : ℕ)
              → claimed_shared in_order after v x ≡ (
                  (not (4096 == 0) && (1 == v && 8 == x))
                  || claimed_shared in_order no_shards v x))))
claim_shared-Refines_example = claim_shared-Refines in_order no_shards 1 8 4096 no_shards-IsShards
