-- ===== src/Scanner/Ntfs/Keep/Kept.antt =====
-- What `mft_keep_extents` of src/WinBlaze.Scanner/src/ntfs.rs keeps of the extents.
use win_blaze.Base.{
  ℕ, zero, suc, ◌+◌, ◌*◌, ◌/◌, ◌%◌, ◌^◌, ◌≤◌, ◌<◌, ◌≡◌, refl, sym, ap, ◌∙◌, inl, inr, Bool-cases,
  Bool, true, false, some, List, [], ◌∷◌, arith, ◌==◌, get_elem?, get_or, max,
}
use win_blaze.Base.Bits.{has_bit, bit_and_pow}
use win_blaze.Scanner.Ntfs.Extents.{offset_from, mft_record_physical_offset}
use win_blaze.Scanner.Ntfs.Extents.Trimmed.{covered, mul_gap}
use win_blaze.Scanner.Ntfs.Keep.{
  in_use, any_in_use, cluster_occupied, total_clusters, keep_clusters, div_ceil, mft_keep_extents,
}
use win_blaze.Scanner.Ntfs.Keep.Flags.{keep_clusters-occupied}
use win_blaze.Scanner.Ntfs.Keep.Grown.{Covers, IsBounded, reversed-Covers}
use win_blaze.Scanner.Ntfs.Keep.Located.{
  AreClusters, less_clusters, total_clusters-covered, push_extents-new,
}

get_or-some : (keep : List Bool) (i : ℕ) → get_elem? keep i ≡ some true → get_or keep i true ≡ true
get_or-some [] i h = refl
get_or-some (k ∷ keep) zero h = cc
get_or-some (k ∷ keep) (suc i) h = get_or-some keep i h

-- A set bit of the bitmap.
in_use-has_bit :
    (bitmap : List ℕ) (number b : ℕ)
    → get_elem? bitmap (number / 8) ≡ some b
    → has_bit (number % 8) b ≡ true
    → in_use bitmap number ≡ true
unfolding in_use
in_use-has_bit bitmap number b e h = rw (in_use, e, bit_and_pow (number % 8) b, h) refl

-- A record in use among those that are looked at.
any_in_use-in_use :
    (bitmap : List ℕ) (count first i : ℕ)
    → i < count
    → first + count ≤ 2 ^ 64
    → in_use bitmap (first + i) ≡ true
    → any_in_use bitmap count first ≡ true
unfolding any_in_use
any_in_use-in_use bitmap zero first i lt room h = absurd (omega (arith, lt))
any_in_use-in_use bitmap (suc count) first zero lt room h =
    let e : first + 0 ≡ first = omega arith in
    let here : in_use bitmap first ≡ true = ap (in_use bitmap) (sym e) ∙ h in rw here refl
any_in_use-in_use bitmap (suc count) first (suc i) lt room h =
    elim (Bool-cases (in_use bitmap first)) [
      | inl t ↦ rw t refl
      | inr t ↦
          let next : (first + 1) % 2 ^ 64 ≡ first + 1 = omega (arith, lt, room) in
          let e : first + suc i ≡ first + 1 + i = omega arith in
          rw (t, next)
            (any_in_use-in_use bitmap count (first + 1) i (omega (arith, lt)) (omega (arith, room))
              (ap (in_use bitmap) (sym e) ∙ h))
    ]

module _ (records number : ℕ) (some_records : 0 < records) where
  -- The cluster of a record, and the record's place in it.
  cluster_of_record :
      (number * 1024 ≡ number / records * (records * 1024) + number % records * 1024)
      × (number % records * 1024 + 1024 ≤ records * 1024)
      × (number / records * records + number % records ≡ number)
      × (number % records < records)
  cluster_of_record =
      let split : number / records * records + number % records ≡ number = omega arith in
      let less : number % records < records = omega (arith, some_records) in
      let whole : number / records * (records * 1024) ≡ number / records * records * 1024 =
        grind arith in
      (omega (arith, split, whole), omega (arith, less), split, less)

  cluster_occupied-has_bit :
      (bitmap : List ℕ) (b : ℕ)
      → number / records * records + records ≤ 2 ^ 64
      → get_elem? bitmap (number / 8) ≡ some b
      → has_bit (number % 8) b ≡ true
      → cluster_occupied bitmap records (number / records) ≡ true
  unfolding cluster_occupied
  cluster_occupied-has_bit bitmap b room e h =
      let (_, _, split, less) = cluster_of_record in
      let exact : number / records * records % 2 ^ 64 ≡ number / records * records =
        omega (arith, room, some_records) in
      rw exact (
        any_in_use-in_use bitmap records _ (number % records) less room
          (ap (in_use bitmap) split ∙ in_use-has_bit bitmap number b e h))

-- Each record that the bitmap has in use lies whole in one of the extents that
-- `mft_keep_extents` keeps, at the place where `mft_record_physical_offset` finds it in the
-- given extents, whatever length of free records is worth skipping. A cluster has one or more
-- whole records, every extent is whole clusters and ends below 2^64, the extents cover less
-- than 2^64 bytes, and the record starts in what they cover.
pub mft_keep_extents-Covers :
    (data_extents : List (ℕ × ℕ)) (bitmap : List ℕ) (records skip_min_bytes number b physical : ℕ)
    → 0 < records
    → IsBounded data_extents
    → AreClusters (records * 1024) data_extents
    → covered data_extents < 2 ^ 64
    → number * 1024 < covered data_extents
    → get_elem? bitmap (number / 8) ≡ some b
    → has_bit (number % 8) b ≡ true
    → mft_record_physical_offset data_extents number ≡ some physical
    → Covers (mft_keep_extents data_extents bitmap (records * 1024) skip_min_bytes) physical 1024
unfolding mft_keep_extents mft_record_physical_offset
mft_keep_extents-Covers data_extents bitmap records skip_min_bytes number b physical some_records
      bounded whole fits inside e h found =
    let bytes_per_cluster = records * 1024 in
    let cluster = number / records in
    let total = total_clusters bytes_per_cluster data_extents in
    let (place, fit, split, less) = cluster_of_record records number some_records in
    let (bytes, few) = total_clusters-covered bytes_per_cluster data_extents whole fits in
    let lt : cluster < total =
      less_clusters cluster total bytes_per_cluster (number % records * 1024)
        (omega (arith, place, bytes, inside)) in
    let scaled : total * bytes_per_cluster ≡ total * records * 1024 = grind arith in
    let room : cluster * records + records ≤ 2 ^ 64 =
      omega (arith, mul_gap cluster total records lt, scaled, bytes, fits) in
    let occupied = cluster_occupied-has_bit records number some_records bitmap b room e h in
    let skip_min = max (div_ceil skip_min_bytes bytes_per_cluster) 1 in
    let flags = keep_clusters (cluster_occupied bitmap records) skip_min total in
    let kept =
      keep_clusters-occupied (cluster_occupied bitmap records) skip_min total cluster lt occupied in
    let exact : number * 1024 % 2 ^ 64 ≡ number * 1024 = omega (arith, inside, fits) in
    let ratio : bytes_per_cluster / 1024 ≡ records = omega arith in
    let has_records : (records == 0) ≡ false = ground (arith, some_records) in
    let has_clusters : (total == 0) ≡ false = ground (arith, lt) in
    let from_zero : cluster * bytes_per_cluster + number % records * 1024
        ≡ 0 + (cluster * bytes_per_cluster + number % records * 1024) =
      omega arith in
    let from_first : cluster ≡ 0 + cluster = omega arith in
    let at : offset_from (0 + (cluster * bytes_per_cluster + number % records * 1024)) 0
          data_extents
        ≡ some physical =
      ap (λ t. offset_from t 0 data_extents) (sym (exact ∙ (place ∙ from_zero))) ∙ found in
    rw (ratio, has_records, has_clusters)
      (reversed-Covers _ [] physical 1024 (
        inr (
          push_extents-new bytes_per_cluster flags data_extents [] 0 0 cluster
            (number % records * 1024) 1024 physical bounded tt whole (omega (arith, fits))
            (omega (arith, fits)) fit (omega (arith, fit)) at
            (ap (λ i. get_or flags i true) (sym from_first) ∙ get_or-some flags cluster kept))))
