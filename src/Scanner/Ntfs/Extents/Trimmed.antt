-- ===== src/Scanner/Ntfs/Extents/Trimmed.antt =====
-- What trimming the extents of the MFT keeps.
use win_blaze.Base.{
  false, ℕ, ◌+◌, ◌-◌, ◌*◌, ◌/◌, ◌%◌, ◌^◌, ◌≤◌, ◌<◌, ◌≡◌, ◌≢◌, refl, min, some, List, [], ◌∷◌, arith,
  ltb, ◌==◌, if◌then◌else◌, ◌||◌, Bool-cases, inl, inr,
}
use native.Mathlib.Nat.{lt-div-mul-add}
use win_blaze.Base.Bytes.{u64_max}
use win_blaze.Scanner.Ntfs.Extents.{
  valid_cap, trim_from, keep_some, trim_extents_to_valid_length, offset_from,
  mft_record_physical_offset,
}

-- The number of bytes that extents cover.
unfoldable pub covered : List (ℕ × ℕ) → ℕ
covered [] = 0
covered ((start, size) ∷ extents) = size + covered extents

covered-trim_from :
    (cap cumulative : ℕ) (extents : List (ℕ × ℕ))
    → covered (trim_from cap cumulative extents) ≡ min (cap - cumulative) (covered extents)
unfolding covered trim_from
covered-trim_from cap cumulative [] = omega arith
covered-trim_from cap cumulative ((start, size) ∷ extents) =
    ground (arith, covered-trim_from cap (cumulative + size) extents)

-- One extent of the search, when the sums do not wrap.
pub offset_from-cons :
    (target logical start size : ℕ) (extents : List (ℕ × ℕ))
    → logical + size < 2 ^ 64
    → offset_from target logical ((start, size) ∷ extents) ≡ (
        if ltb target (logical + size)
        then some ((start + (target + 2 ^ 64 - logical) % 2 ^ 64) % 2 ^ 64)
        else offset_from target (logical + size) extents)
unfolding offset_from
offset_from-cons target logical start size extents room =
    let same : (logical + size) % 2 ^ 64 ≡ logical + size = omega arith in rw same refl

offset_from-trim_from :
    (cap target logical : ℕ) (extents : List (ℕ × ℕ))
    → logical ≤ target
    → target < cap
    → logical + covered extents < 2 ^ 64
    → offset_from target logical (trim_from cap logical extents)
      ≡ offset_from target logical extents
unfolding covered trim_from
offset_from-trim_from cap target logical [] below inside room = refl
offset_from-trim_from cap target logical ((start, size) ∷ extents) below inside room = ground (
  arith,
  offset_from-cons target logical start size extents,
  offset_from-cons target logical start size (trim_from cap (logical + size) extents),
  offset_from-cons target logical start (cap - logical) [],
  offset_from-trim_from cap target (logical + size) extents,
)

valid_cap-covers :
    (valid_len cluster : ℕ)
    → cluster ≢ 0
    → valid_len ≤ u64_max
    → valid_len ≤ valid_cap valid_len cluster
unfolding valid_cap
valid_cap-covers valid_len cluster h fits =
    omega (arith, lt-div-mul-add {a = valid_len + (cluster - 1)} {b = cluster} (omega (arith, h)))

keep_some-offset :
    (target : ℕ) (trimmed extents : List (ℕ × ℕ))
    → offset_from target 0 trimmed ≡ offset_from target 0 extents
    → offset_from target 0 (keep_some trimmed extents) ≡ offset_from target 0 extents
unfolding keep_some
keep_some-offset target [] extents e = refl
keep_some-offset target (kept ∷ rest) extents e = e

-- Trimming the extents to a valid length leaves every record that starts below that length
-- where it was on the volume. The extents cover less than 2^64 bytes, and the length is a
-- `u64`.
pub mft_record_physical_offset-trim_extents :
    (extents : List (ℕ × ℕ)) (valid_len cluster number : ℕ)
    → covered extents < 2 ^ 64
    → valid_len ≤ u64_max
    → number * 1024 < valid_len
    → mft_record_physical_offset (trim_extents_to_valid_length extents valid_len cluster) number
      ≡ mft_record_physical_offset extents number
unfolding mft_record_physical_offset trim_extents_to_valid_length
mft_record_physical_offset-trim_extents extents valid_len cluster number room fits below =
    elim (Bool-cases (cluster == 0 || (valid_len == 0 || valid_len == u64_max))) [
      | inl off ↦ rw off refl
      | inr on ↦
          let small : number * 1024 % 2 ^ 64 ≡ number * 1024 = omega (arith, below, fits) in
          let some_cluster : cluster ≢ 0 = ground arith in
          let covers = valid_cap-covers valid_len cluster some_cluster fits in
          rw (on, small)
            (keep_some-offset (number * 1024) _ extents (
              offset_from-trim_from (valid_cap valid_len cluster) (number * 1024) 0 extents
                (omega arith) (omega (arith, covers, below)) (omega (arith, room))))
    ]

keep_some-covered :
    (trimmed extents : List (ℕ × ℕ)) (cap : ℕ)
    → 0 < cap
    → covered trimmed ≡ min cap (covered extents)
    → covered (keep_some trimmed extents) ≡ min cap (covered extents)
unfolding keep_some covered
keep_some-covered [] extents cap h e = omega (arith, h, e)
keep_some-covered (kept ∷ rest) extents cap h e = e

pub mul_gap : (m n c : ℕ) → m < n → m * c + c ≤ n * c
mul_gap m n c lt = grind (arith, lt)

-- A number of clusters that holds the length, and not with one cluster less, is the rounded quotient.
div-round :
    (v q clusters cluster : ℕ)
    → v ≤ clusters * cluster
    → clusters * cluster < v + cluster
    → q * cluster ≤ v + (cluster - 1)
    → v + (cluster - 1) < q * cluster + cluster
    → q ≡ clusters
div-round v q clusters cluster lo hi lo' hi' = elim (Bool-cases (ltb q clusters)) [
  | inl t ↦
      let less : q < clusters = ground (arith, t) in
      absurd (omega (arith, mul_gap q clusters cluster less, hi, hi'))
  | inr t ↦ elim (Bool-cases (ltb clusters q)) [
    | inl t' ↦
        let less : clusters < q = ground (arith, t') in
        absurd (omega (arith, mul_gap clusters q cluster less, lo, lo', hi'))
    | inr t' ↦ ground (arith, t, t')
  ]
]

valid_cap-of_clusters :
    (valid_len cluster clusters : ℕ)
    → valid_len ≤ clusters * cluster
    → clusters * cluster < valid_len + cluster
    → clusters * cluster ≤ u64_max
    → valid_cap valid_len cluster ≡ clusters * cluster
unfolding valid_cap
valid_cap-of_clusters valid_len cluster clusters lo hi fits =
    let quotient = (valid_len + (cluster - 1)) / cluster in
    let some_cluster : 0 < cluster = omega (arith, lo, hi) in
    let e : quotient ≡ clusters =
      div-round valid_len quotient clusters cluster lo hi (omega arith)
        (lt-div-mul-add {a = valid_len + (cluster - 1)} {b = cluster} some_cluster) in
    rw e (omega (arith, fits))

-- Trimmed extents cover the least number of whole clusters that holds the valid length, or all
-- that the extents cover where that is less. The valid length is not 0 and below 2^64 - 1, and
-- those clusters have less than 2^64 bytes.
pub covered-trim_extents :
    (extents : List (ℕ × ℕ)) (valid_len cluster clusters : ℕ)
    → valid_len ≢ 0
    → valid_len < u64_max
    → valid_len ≤ clusters * cluster
    → clusters * cluster < valid_len + cluster
    → clusters * cluster ≤ u64_max
    → covered (trim_extents_to_valid_length extents valid_len cluster)
      ≡ min (clusters * cluster) (covered extents)
unfolding trim_extents_to_valid_length
covered-trim_extents extents valid_len cluster clusters h' below lo hi fits =
    let some_cluster : cluster ≢ 0 = λ e. omega (arith, e, lo, hi) in
    let trims : (cluster == 0 || (valid_len == 0 || valid_len == u64_max)) ≡ false =
      ground (arith, some_cluster, h', below) in
    let cap = valid_cap-of_clusters valid_len cluster clusters lo hi fits in
    rw trims (
      keep_some-covered (trim_from (valid_cap valid_len cluster) 0 extents) extents
        (clusters * cluster) (omega (arith, lo, h'))
        (omega (arith, cap, covered-trim_from (valid_cap valid_len cluster) 0 extents)))
