-- ===== src/Scanner/Allocation/Narrow.antt =====
-- The window that `compact` chooses, and what `insert_narrow` returns.
use win_blaze.Base.{
  ℕ, zero, suc, ◌+◌, ◌-◌, ◌*◌, ◌/◌, ◌%◌, ◌^◌, ◌≤◌, ◌≡◌, refl, ◌⊎◌, inl, inr, Bool-cases,
  Option-cases, Bool, true, false, ◌&&◌, ◌||◌, some, List, [], ◌∷◌, arith, ltb, leb, ◌==◌,
  if◌then◌else◌, length, All,
}
use win_blaze.Base.Bytes.{u64_max}
use win_blaze.Scanner.Allocation.{
  NarrowIdentities, Region, region_of, double_until, next_power_of_two, widen, compact, is_none,
  prefix_of, postponed,
}
use win_blaze.Scanner.Allocation.Compacted.{holds, IsU64, IsNarrow, Takes, Keeps, rebuild-Keeps}

double_until-le : (fuel power n : ℕ) → 1 ≤ power → n ≤ power + fuel → n ≤ double_until fuel power n
unfolding double_until
double_until-le zero power n pos h = omega arith
double_until-le (suc fuel) power n pos h =
    ground (arith, double_until-le fuel (2 * power) n (omega arith) (omega arith))

next_power_of_two-le : (n : ℕ) → n ≤ next_power_of_two n
next_power_of_two-le n = double_until-le n 1 n (omega arith) (omega arith)

-- A region starts at a multiple of 64, or has no file yet.
abbrev IsAligned : Region → Type 0
IsAligned region = (region.first % 64 ≡ 0) ⊎ ((region.count ≡ 0) × (region.first ≡ u64_max))

region_of-IsAligned :
    (prefix : ℕ) (files : List ℕ) (region : Region)
    → All IsU64 files
    → IsAligned region
    → IsAligned (region_of prefix region files)
unfolding region_of
region_of-IsAligned prefix [] region small h = h
region_of-IsAligned prefix (file ∷ files) region small h =
    region_of-IsAligned prefix files _ small.1 (elim (Bool-cases (file / 2 ^ 32 == prefix)) [
      | inl t ↦ rw t (inl (omega (arith, h, small.0)))
      | inr t ↦ rw t h
    ])

or_false : (a b : Bool) → (a || b) ≡ false → a ≡ false
or_false true b h = absurd (ground arith)
or_false false b h = refl

-- Where the window starts, so that it ends within the 64-bit numbers.
abbrev window_start : ℕ → ℕ → ℕ
window_start first words = if ltb (2 ^ 64) (first + words * 64) then 2 ^ 64 - words * 64 else first

window_start-cases :
    (first words : ℕ)
    → words ≤ 131072
    → ((window_start first words ≡ first) × (first + words * 64 ≤ 2 ^ 64))
      ⊎ ((window_start first words + words * 64 ≡ 2 ^ 64) × (window_start first words ≤ first))
window_start-cases first words few = elim (Bool-cases (ltb (2 ^ 64) (first + words * 64))) [
  | inl t ↦ inr (rw t (omega (arith, few)), rw t (ground (arith, t, few)))
  | inr t ↦ inl (rw t refl, ground (arith, t))
]

module _ (first last words : ℕ) (aligned : first % 64 ≡ 0)
    (enough : (last - first) / 64 + 1 ≤ words) (few : words ≤ 131072) where
  window_start-aligned : window_start first words % 64 ≡ 0
  window_start-aligned = elim (window_start-cases first words few) [
    | inl (e, h) ↦ omega (arith, e, aligned)
    | inr (e, h) ↦ omega (arith, e)
  ]

  window_start-within : window_start first words + 64 * words ≤ 2 ^ 64
  window_start-within = elim (window_start-cases first words few) [
    | inl (e, h) ↦ omega (arith, e, h)
    | inr (e, h) ↦ omega (arith, e)
  ]

  window_start-room :
      (start size : ℕ)
      → start % 64 ≡ 0
      → 1 ≤ size
      → start + 64 * size ≤ 2 ^ 64
      → first ≤ start
      → start + (size * 64 - 1) ≤ last
      → (window_start first words ≤ start)
        × ((start - window_start first words) / 64 + size ≤ words)
  window_start-room start size a pos b c d = elim (window_start-cases first words few) [
    | inl (e, h) ↦ (omega (arith, e, c), omega (arith, e, a, aligned, pos, c, d, enough))
    | inr (e, h) ↦ (omega (arith, e, h, c), omega (arith, e, h, a, b, c))
  ]

module _ (self : NarrowIdentities) (found : Region) (words : ℕ) (narrow : IsNarrow self)
    (aligned : IsAligned found) (some_file : (found.count == 0) ≡ false)
    (enough : ((widen self.dense found).last - (widen self.dense found).first) / 64 + 1 ≤ words)
    (few : words ≤ 131072) where
  found_aligned : found.first % 64 ≡ 0
  found_aligned = elim aligned [ inl h ↦ h | inr (h, k) ↦ absurd (ground (arith, h, some_file)) ]

  widen-aligned : (widen self.dense found).first % 64 ≡ 0
  unfolding widen
  widen-aligned = elim (Option-cases self.dense) [
    | inl e ↦ rw (e, widen) found_aligned
    | inr (dense, e) ↦ rw (e, widen) (omega (arith, found_aligned, (narrow.window dense e).aligned))
  ]

  widen-Takes : Takes self.dense (window_start (widen self.dense found).first words) words
  unfolding widen
  widen-Takes =
      let region = widen self.dense found in
      record {
        aligned = window_start-aligned region.first region.last words widen-aligned enough few;
        nonempty = omega (arith, enough);
        within = window_start-within region.first region.last words widen-aligned enough few;
        room = λ dense e.
            let w = narrow.window dense e in
            let left : region.first ≤ dense.first = rw (e, widen) (omega arith) in
            let right : dense.first + (length dense.words * 64 - 1) ≤ region.last =
              rw (e, widen) (omega arith) in
            (
              w.aligned,
              window_start-room region.first region.last words widen-aligned enough few dense.first
                  (length dense.words) w.aligned w.nonempty w.within left right,
            );
      }

postponed-Keeps : (self : NarrowIdentities) → IsNarrow self → Keeps self (some (postponed self))
unfolding holds
postponed-Keeps self narrow = record {
  after = postponed self;
  ends = refl;
  narrow = record { small = narrow.small; window = narrow.window };
  same = λ x. refl;
}

-- Compaction keeps the identities, whatever the order of the hash set, and does not panic.
pub compact-Keeps :
    (order : List ℕ → List ℕ) (self : NarrowIdentities)
    → IsNarrow self
    → Keeps self (compact order self)
unfolding compact
compact-Keeps order self narrow =
    let found =
      region_of (prefix_of order self) (record { first = u64_max; last = 0; count = 0 })
        self.sparse in
    let region = widen self.dense found in
    let words = next_power_of_two ((region.last - region.first) / 64 + 1) in
    let later = postponed-Keeps self narrow in
    elim (Bool-cases
      (found.count == 0 || (is_none self.dense && leb found.count (length self.sparse / 2)))) [
        | inl t ↦ rw (t, compact) later
        | inr t ↦ elim (Bool-cases (ltb (region.count * 2) words || ltb 131072 words)) [
          | inl u ↦ rw (t, u, compact) later
          | inr u ↦
              rw (t, u, compact)
                (rebuild-Keeps self (window_start region.first words) words
                  (widen-Takes self found words narrow
                    (region_of-IsAligned (prefix_of order self) self.sparse _ narrow.small
                      (inr (refl, refl)))
                    (or_false _ _ t) (next_power_of_two-le _) (ground (arith, u)))
                  narrow.small)
        ]
      ]
