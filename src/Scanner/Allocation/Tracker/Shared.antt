-- ===== src/Scanner/Allocation/Tracker/Shared.antt =====
-- The shards of a concurrent tracker together refine one set of claimed identities.
use mathlib.Core.Path.{subst}
use win_blaze.Base.{
  ℕ, ◌<◌, ◌≡◌, refl, sym, ap, ◌∙◌, inl, inr, Bool-cases, Bool, false, not, ◌&&◌, ◌||◌, Option, none,
  some, List, arith, ◌==◌, if◌then◌else◌, length, get_elem?, set, length-set, get_elem?-set,
  get_elem?-of_lt,
}
use win_blaze.Base.Bits.{bit_and_63}
use win_blaze.Scanner.Allocation.Tracker.{
  TrackedVolumes, claim_tracked, claim, shard_of, claim_shared,
}
use win_blaze.Scanner.Allocation.Tracker.Refined.{claimed, IsTracker, claim-Refines}

abbrev claimed_by : Option TrackedVolumes → ℕ → ℕ → Bool
claimed_by none volume file = false
claimed_by (some shard) volume file = claimed shard volume file

module _ (order : List ℕ → List ℕ) where
  -- The abstract state: the shard of the identity has it.
  unfoldable pub claimed_shared : List TrackedVolumes → ℕ → ℕ → Bool
  claimed_shared shards volume file =
      claimed_by (get_elem? shards (shard_of order volume file)) volume file

pub record IsShards (shards : List TrackedVolumes) : Type 0 where
  pub count : length shards ≡ 64
  pub trackers :
      (i : ℕ) (shard : TrackedVolumes) → get_elem? shards i ≡ some shard → IsTracker shard

some_inj : {a b : TrackedVolumes} → some a ≡ some b → a ≡ b
some_inj e = cc

module _ (order : List ℕ → List ℕ) (shards : List TrackedVolumes) (volume file bytes : ℕ)
    (whole : IsShards shards) where
  index : ℕ
  index = shard_of order volume file

  index_lt : index < length shards
  unfolding index shard_of
  index_lt = omega (arith, whole.count, bit_and_63 _)

  shared_eq :
      (shard after : TrackedVolumes) (given : ℕ)
      → (bytes == 0) ≡ false
      → get_elem? shards index ≡ some shard
      → claim order shard (volume, file) bytes ≡ some (given, after)
      → claim_shared order shards (volume, file) bytes ≡ some (given, set shards index after)
  unfolding claim_shared claim index
  shared_eq shard after given t e c =
      let tracked : claim order shard (volume, file) bytes
          ≡ claim_tracked order shard volume file bytes =
        rw (t, claim) refl in
      let ends : claim_tracked order shard volume file bytes ≡ some (given, after) =
        sym tracked ∙ c in
      simp (t, e, ends, claim_shared)

  set-IsShards : (after : TrackedVolumes) → IsTracker after → IsShards (set shards index after)
  set-IsShards after tracker = record {
    count = length-set shards index after ∙ whole.count;
    trackers = λ i shard e. elim (Bool-cases (index == i)) [
      | inl t ↦
          let same : some after ≡ some shard =
            sym (rw t refl) ∙ sym (get_elem?-set shards index after i index_lt) ∙ e in
          subst IsTracker (some_inj same) tracker
      | inr t ↦
          whole.trackers i shard
            (sym (rw t refl) ∙ sym (get_elem?-set shards index after i index_lt) ∙ e)
    ];
  }

  -- An identity of another shard is another identity.
  other_shard :
      (v x : ℕ) → (index == shard_of order v x) ≡ false → (volume == v && file == x) ≡ false
  unfolding index
  other_shard v x t = elim (Bool-cases (volume == v && file == x)) [
    | inr u ↦ u
    | inl u ↦
        let a : volume ≡ v = ground (arith, u) in
        let b : file ≡ x = ground (arith, u) in
        let here : shard_of order volume file ≡ shard_of order v x =
          λ i. shard_of order (a i) (b i) in
        absurd (ground (arith, t, here))
  ]

  set-claimed :
      (shard after : TrackedVolumes)
      → get_elem? shards index ≡ some shard
      → ((v x : ℕ) → claimed after v x ≡ ((volume == v && file == x) || claimed shard v x))
      → (v x : ℕ)
      → claimed_shared order (set shards index after) v x
        ≡ ((volume == v && file == x) || claimed_shared order shards v x)
  unfolding claimed_shared
  set-claimed shard after e same v x =
      let got = get_elem?-set shards index after (shard_of order v x) index_lt in
      elim (Bool-cases (index == shard_of order v x)) [
        | inl t ↦
            let k : index ≡ shard_of order v x = ground (arith, t) in
            let now : get_elem? (set shards index after) (shard_of order v x) ≡ some after =
              got ∙ rw t refl in
            let before : get_elem? shards (shard_of order v x) ≡ some shard =
              ap (get_elem? shards) (sym k) ∙ e in
            ap (λ o. claimed_by o v x) now
            ∙ same v x
            ∙ ap (λ o. (volume == v && file == x) || claimed_by o v x) (sym before)
        | inr t ↦
            let now : get_elem? (set shards index after) (shard_of order v x)
                ≡ get_elem? shards (shard_of order v x) =
              got ∙ rw t refl in
            ap (λ o. claimed_by o v x) now ∙ rw (other_shard v x t) refl
      ]

-- A claim of a concurrent tracker with its 64 well formed shards is a step of one set of
-- identities, whatever the order of the hash sets: it gives no bytes when there are none or the
-- identity was claimed, and the bytes otherwise; then exactly the identity, unless there were
-- no bytes, is claimed beside those before, and the shards are well formed. No claim panics.
pub claim_shared-Refines :
    (order : List ℕ → List ℕ) (shards : List TrackedVolumes) (volume file bytes : ℕ)
    → IsShards shards
    → (after : List TrackedVolumes) × ((claim_shared order shards (volume, file) bytes
          ≡ some
              (if bytes == 0 || claimed_shared order shards volume file then 0 else bytes, after))
        × (IsShards after
            × ((v x : ℕ)
                → claimed_shared order after v x ≡ (
                    (not (bytes == 0) && (volume == v && file == x))
                    || claimed_shared order shards v x))))
unfolding claim_shared index claimed_shared
claim_shared-Refines order shards volume file bytes whole = elim (Bool-cases (bytes == 0)) [
  | inl t ↦ rw (t, claim_shared) (shards, (refl, (whole, λ v x. refl)))
  | inr t ↦
      let i = index order shards volume file bytes whole in
      let (shard, e) = get_elem?-of_lt shards i (index_lt order shards volume file bytes whole) in
      let (after, (ends, (tracker, same))) =
        claim-Refines order shard volume file bytes (whole.trackers i shard e) in
      let there : claimed_shared order shards volume file ≡ claimed shard volume file =
        ap (λ o. claimed_by o volume file) e in
      let step = shared_eq order shards volume file bytes whole shard after _ t e ends in
      (
        set shards i after,
        (
          step ∙ rw (t, there) refl,
          (
            set-IsShards order shards volume file bytes whole after tracker,
            λ v x.
                rw t (
                  set-claimed order shards volume file bytes whole shard after e (rw t at same) v
                    x),
          ),
        ),
      )
]
