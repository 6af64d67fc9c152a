-- ===== src/Scanner/Ntfs/Keep/Grown.antt =====
-- What the extents of `mft_keep_extents` of src/WinBlaze.Scanner/src/ntfs.rs cover while they grow.
use win_blaze.Base.{
  ℕ, zero, suc, ◌+◌, ◌*◌, ◌%◌, ◌^◌, ◌≤◌, ◌<◌, ◌≡◌, sym, ap, ◌∙◌, ◌⊎◌, inl, inr, Bool-cases, Bool,
  true, List, [], ◌∷◌, arith, ◌==◌, if◌then◌else◌, get_or,
}
use win_blaze.Scanner.Ntfs.Keep.{push_extent, push_clusters, push_tail, reversed}

-- One of the extents has the `n` bytes from `a` on.
abbrev pub Covers : List (ℕ × ℕ) → ℕ → ℕ → Type 0
Covers [] a n = ⊥
Covers ((start, size) ∷ extents) a n = ((start ≤ a) × (a + n ≤ start + size)) ⊎ Covers extents a n

-- Every extent ends below 2^64.
abbrev pub IsBounded : List (ℕ × ℕ) → Type 0
IsBounded [] = Unit
IsBounded ((start, size) ∷ extents) = (start + size < 2 ^ 64) × IsBounded extents

-- Extents that cover more.
abbrev pub Grows : List (ℕ × ℕ) → List (ℕ × ℕ) → Type 0
Grows result after = IsBounded after × ((a n : ℕ) → Covers result a n → Covers after a n)

pub Grows-trans :
    (result mid after : List (ℕ × ℕ)) → Grows result mid → Grows mid after → Grows result after
Grows-trans result mid after g h = (h.0, λ a n c. h.1 a n (g.1 a n c))

push_extent-Grows :
    (result : List (ℕ × ℕ)) (physical length : ℕ)
    → IsBounded result
    → physical + length < 2 ^ 64
    → Grows result (push_extent result physical length)
unfolding push_extent
push_extent-Grows [] physical length b room = ((room, tt), λ a n h. absurd h)
push_extent-Grows ((start, size) ∷ result) physical length (fits, b) room =
    let ends : (start + size) % 2 ^ 64 ≡ start + size = omega (arith, fits) in
    elim (Bool-cases (start + size == physical)) [
      | inr t ↦ rw (ends, t) ((room, (fits, b)), λ a n h. inr h)
      | inl t ↦
          let e : start + size ≡ physical = ground (arith, t) in
          let longer : (size + length) % 2 ^ 64 ≡ size + length = omega (arith, e, room) in
          rw (ends, t, longer)
            (
              (omega (arith, e, room), b),
              λ a n h. elim h [
                | inl (from, to) ↦ inl (from, omega (arith, to))
                | inr later ↦ inr later
              ],
            )
    ]

push_extent-new :
    (result : List (ℕ × ℕ)) (physical length : ℕ)
    → IsBounded result
    → physical + length < 2 ^ 64
    → Covers (push_extent result physical length) physical length
unfolding push_extent
push_extent-new [] physical length b room = inl (omega arith, omega arith)
push_extent-new ((start, size) ∷ result) physical length (fits, b) room =
    let ends : (start + size) % 2 ^ 64 ≡ start + size = omega (arith, fits) in
    elim (Bool-cases (start + size == physical)) [
      | inr t ↦ rw (ends, t) (inl (omega arith, omega arith))
      | inl t ↦
          let e : start + size ≡ physical = ground (arith, t) in
          let longer : (size + length) % 2 ^ 64 ≡ size + length = omega (arith, e, room) in
          rw (ends, t, longer) (inl (omega (arith, e), omega (arith, e)))
    ]

module _ (bytes_per_cluster : ℕ) (keep : List Bool) where
  next_fits :
      (count physical : ℕ)
      → physical + suc count * bytes_per_cluster < 2 ^ 64
      → (physical + bytes_per_cluster < 2 ^ 64)
        × (physical + bytes_per_cluster + count * bytes_per_cluster < 2 ^ 64)
  next_fits count physical room =
      let e : suc count * bytes_per_cluster ≡ bytes_per_cluster + count * bytes_per_cluster =
        ground arith in
      (omega (arith, e, room), omega (arith, e, room))

  kept_one :
      (result : List (ℕ × ℕ)) (physical logical : ℕ)
      → IsBounded result
      → physical + bytes_per_cluster < 2 ^ 64
      → Grows result (
          if get_or keep logical true
          then push_extent result physical bytes_per_cluster
          else result)
  kept_one result physical logical b room = elim (Bool-cases (get_or keep logical true)) [
    | inl t ↦ rw t (push_extent-Grows result physical bytes_per_cluster b room)
    | inr t ↦ rw t (b, λ a n h. h)
  ]

  pub push_clusters-Grows :
      (count : ℕ) (result : List (ℕ × ℕ)) (physical logical : ℕ)
      → IsBounded result
      → physical + count * bytes_per_cluster < 2 ^ 64
      → Grows result (push_clusters bytes_per_cluster keep result count physical logical)
  unfolding push_clusters
  push_clusters-Grows zero result physical logical b room = (b, λ a n h. h)
  push_clusters-Grows (suc count) result physical logical b room =
      let (next, rest) = next_fits count physical room in
      let e : (physical + bytes_per_cluster) % 2 ^ 64 ≡ physical + bytes_per_cluster =
        omega (arith, next) in
      let one = kept_one result physical logical b next in
      rw e (
        Grows-trans _ _ _ one (
          push_clusters-Grows count _ (physical + bytes_per_cluster) ((logical + 1) % 2 ^ 64) one.0
            rest))

  -- The cluster `k` of an extent is covered when its flag is set.
  pub push_clusters-new :
      (count : ℕ) (result : List (ℕ × ℕ)) (physical logical k : ℕ)
      → IsBounded result
      → physical + count * bytes_per_cluster < 2 ^ 64
      → logical + count < 2 ^ 64
      → k < count
      → get_or keep (logical + k) true ≡ true
      → Covers
          (push_clusters bytes_per_cluster keep result count physical logical)
          (physical + k * bytes_per_cluster)
          bytes_per_cluster
  unfolding push_clusters
  push_clusters-new zero result physical logical k b room few lt h = absurd (omega (arith, lt))
  push_clusters-new (suc count) result physical logical zero b room few lt h =
      let (next, rest) = next_fits count physical room in
      let at : (physical + bytes_per_cluster) % 2 ^ 64 ≡ physical + bytes_per_cluster =
        omega (arith, next) in
      let e : logical + 0 ≡ logical = omega arith in
      let here : physical + 0 * bytes_per_cluster ≡ physical = omega arith in
      let t : get_or keep logical true ≡ true = ap (λ i. get_or keep i true) (sym e) ∙ h in
      let one = push_extent-Grows result physical bytes_per_cluster b next in
      rw (t, here, at)
        ((push_clusters-Grows count _ (physical + bytes_per_cluster) ((logical + 1) % 2 ^ 64) one.0
            rest).1
          physical bytes_per_cluster (push_extent-new result physical bytes_per_cluster b next))
  push_clusters-new (suc count) result physical logical (suc k) b room few lt h =
      let (next, rest) = next_fits count physical room in
      let at : (physical + bytes_per_cluster) % 2 ^ 64 ≡ physical + bytes_per_cluster =
        omega (arith, next) in
      let on : (logical + 1) % 2 ^ 64 ≡ logical + 1 = omega (arith, few) in
      let e : logical + suc k ≡ logical + 1 + k = omega arith in
      let there : physical + suc k * bytes_per_cluster
          ≡ physical + bytes_per_cluster + k * bytes_per_cluster =
        ground arith in
      rw (there, at, on)
        (push_clusters-new count _ (physical + bytes_per_cluster) (logical + 1) k
          (kept_one result physical logical b next).0 rest (omega (arith, few)) (omega (arith, lt))
          (ap (λ i. get_or keep i true) (sym e) ∙ h))

  pub push_tail-Grows :
      (result : List (ℕ × ℕ)) (physical tail : ℕ)
      → IsBounded result
      → physical + tail < 2 ^ 64
      → Grows result (push_tail bytes_per_cluster keep result physical tail)
  unfolding push_tail
  push_tail-Grows result physical tail b room = elim (Bool-cases (tail == 0)) [
    | inl t ↦ rw t (b, λ a n h. h)
    | inr t ↦ rw t (push_extent-Grows result physical tail b room)
  ]

pub reversed-Covers :
    (extents result : List (ℕ × ℕ)) (a n : ℕ)
    → Covers result a n ⊎ Covers extents a n
    → Covers (reversed result extents) a n
unfolding reversed
reversed-Covers [] result a n (inl h) = h
reversed-Covers [] result a n (inr h) = absurd h
reversed-Covers (extent ∷ extents) result a n (inl h) =
    reversed-Covers extents (extent ∷ result) a n (inl (inr h))
reversed-Covers (extent ∷ extents) result a n (inr (inl h)) =
    reversed-Covers extents (extent ∷ result) a n (inl (inl h))
reversed-Covers (extent ∷ extents) result a n (inr (inr h)) =
    reversed-Covers extents (extent ∷ result) a n (inr h)
