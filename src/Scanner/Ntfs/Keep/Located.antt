-- ===== src/Scanner/Ntfs/Keep/Located.antt =====
-- Where the records of the MFT lie in what `mft_keep_extents` of src/WinBlaze.Scanner/src/ntfs.rs makes
-- of its extents.
use native.Mathlib.Nat.{div-le_self}
use win_blaze.Base.{
  ℕ, ◌+◌, ◌-◌, ◌*◌, ◌/◌, ◌%◌, ◌^◌, ◌≤◌, ◌<◌, ◌≡◌, sym, ap, ◌∙◌, inl, inr, Bool-cases, Bool, true,
  some, List, [], ◌∷◌, arith, ltb, get_or,
}
use win_blaze.Scanner.Ntfs.Extents.{offset_from}
use win_blaze.Scanner.Ntfs.Extents.Trimmed.{covered, offset_from-cons}
use win_blaze.Scanner.Ntfs.Keep.{total_clusters, push_clusters, push_tail, push_extents}
use win_blaze.Scanner.Ntfs.Keep.Grown.{
  Covers, IsBounded, Grows, Grows-trans, push_clusters-Grows, push_clusters-new, push_tail-Grows,
}

-- Every extent is a number of whole clusters.
abbrev pub AreClusters : ℕ → List (ℕ × ℕ) → Type 0
AreClusters bytes_per_cluster [] = Unit
AreClusters bytes_per_cluster ((start, size) ∷ extents) =
    (size ≡ size / bytes_per_cluster * bytes_per_cluster) × AreClusters bytes_per_cluster extents

pub add_mul : (m n c : ℕ) → (m + n) * c ≡ m * c + n * c
add_mul m n c = grind arith

pub total_clusters-covered :
    (bytes_per_cluster : ℕ) (extents : List (ℕ × ℕ))
    → AreClusters bytes_per_cluster extents
    → covered extents < 2 ^ 64
    → (total_clusters bytes_per_cluster extents * bytes_per_cluster ≡ covered extents)
      × (total_clusters bytes_per_cluster extents ≤ covered extents)
unfolding total_clusters covered
total_clusters-covered b [] w fits = (omega arith, omega arith)
total_clusters-covered b ((start, size) ∷ extents) (whole, w) fits =
    let (e, le) = total_clusters-covered b extents w (omega (arith, fits)) in
    let total = total_clusters b extents in
    let few : size / b ≤ size = div-le_self size b in
    let exact : (size / b + total) % 2 ^ 64 ≡ size / b + total = omega (arith, few, le, fits) in
    rw exact (omega (arith, add_mul (size / b) total b, e, whole), omega (arith, few, le))

Covers-within :
    (extents : List (ℕ × ℕ)) (a n a' n' : ℕ)
    → a ≤ a'
    → a' + n' ≤ a + n
    → Covers extents a n
    → Covers extents a' n'
Covers-within [] a n a' n' lo hi h = absurd h
Covers-within ((start, size) ∷ extents) a n a' n' lo hi (inl (from, to)) =
    inl (omega (arith, lo, from), omega (arith, hi, to))
Covers-within ((start, size) ∷ extents) a n a' n' lo hi (inr h) =
    inr (Covers-within extents a n a' n' lo hi h)

module _ (bytes_per_cluster : ℕ) (keep : List Bool) where
  -- What one extent of the source adds.
  extent-Grows :
      (start size : ℕ) (result : List (ℕ × ℕ)) (logical : ℕ)
      → IsBounded result
      → start + size < 2 ^ 64
      → let clusters = size / bytes_per_cluster in
        let pushed = push_clusters bytes_per_cluster keep result clusters start logical in
        Grows result pushed
        × Grows pushed (
            push_tail bytes_per_cluster keep pushed
              ((start + clusters * bytes_per_cluster) % 2 ^ 64)
              (size % bytes_per_cluster))
  extent-Grows start size result logical b fits =
      let clusters = size / bytes_per_cluster in
      let split : clusters * bytes_per_cluster + size % bytes_per_cluster ≡ size = omega arith in
      let e : (start + clusters * bytes_per_cluster) % 2 ^ 64
          ≡ start + clusters * bytes_per_cluster =
        omega (arith, split, fits) in
      let pushed =
        push_clusters-Grows bytes_per_cluster keep clusters result start logical b
          (omega (arith, split, fits)) in
      (
        pushed,
        push_tail-Grows bytes_per_cluster keep _ _ (size % bytes_per_cluster) pushed.0
            (omega (arith, e, split, fits)),
      )

  push_extents-Grows :
      (extents result : List (ℕ × ℕ)) (logical : ℕ)
      → IsBounded extents
      → IsBounded result
      → Grows result (push_extents bytes_per_cluster keep result extents logical)
  unfolding push_extents
  push_extents-Grows [] result logical bs b = (b, λ a n h. h)
  push_extents-Grows ((start, size) ∷ extents) result logical (fits, bs) b =
      let (pushed, tailed) = extent-Grows start size result logical b fits in
      Grows-trans _ _ _ pushed
        (Grows-trans _ _ _ tailed (push_extents-Grows extents _ _ bs tailed.0))

some_inj : {a b : ℕ} → some a ≡ some b → a ≡ b
some_inj e = cc

-- Where a place of an extent is on the volume.
wrapped_place :
    (start size bytes place physical : ℕ)
    → start + size < 2 ^ 64
    → bytes + size < 2 ^ 64
    → place < size
    → (start + (bytes + place + 2 ^ 64 - bytes) % 2 ^ 64) % 2 ^ 64 ≡ physical
    → physical ≡ start + place
wrapped_place start size bytes place physical fits room inside e =
    omega (arith, fits, room, inside, e)

pub less_clusters : (c k b rest : ℕ) → c * b + rest < k * b → c < k
less_clusters c k b rest h = elim (Bool-cases (ltb c k)) [
  | inl t ↦ ground (arith, t)
  | inr t ↦
      let le : k ≤ c = ground (arith, t) in
      absurd (omega (arith, h, add_mul (c - k) k b, ap (λ m. m * b) (sub_add c k le)))
]
  where
    sub_add : (c k : ℕ) → k ≤ c → c - k + k ≡ c
    sub_add c k le = omega (arith, le)

module _ (bytes_per_cluster : ℕ) (keep : List Bool) where
  -- The bytes that `offset_from` finds in a cluster whose flag is set are covered.
  pub push_extents-new :
      (extents result : List (ℕ × ℕ)) (logical bytes c rest n physical : ℕ)
      → IsBounded extents
      → IsBounded result
      → AreClusters bytes_per_cluster extents
      → bytes + covered extents < 2 ^ 64
      → logical + covered extents < 2 ^ 64
      → rest + n ≤ bytes_per_cluster
      → rest < bytes_per_cluster
      → offset_from (bytes + (c * bytes_per_cluster + rest)) bytes extents ≡ some physical
      → get_or keep (logical + c) true ≡ true
      → Covers (push_extents bytes_per_cluster keep result extents logical) physical n
  unfolding push_extents covered
  push_extents-new [] result logical bytes c rest n physical bs b w room few fit lt h o =
      absurd (unfold offset_from in cc)
  push_extents-new ((start, size) ∷ extents) result logical bytes c rest n physical (fits, bs) b
        (whole, w) room few fit lt h o =
      let clusters = size / bytes_per_cluster in
      let place = c * bytes_per_cluster + rest in
      let few_clusters : clusters ≤ size = div-le_self size bytes_per_cluster in
      let found =
        sym (offset_from-cons (bytes + place) bytes start size extents (omega (arith, room))) ∙ h in
      let (pushed, tailed) = extent-Grows bytes_per_cluster keep start size result logical b fits in
      elim (Bool-cases (ltb (bytes + place) (bytes + size))) [
        | inl t ↦
            let inside : place < size = ground (arith, t) in
            let here =
              wrapped_place start size bytes place physical fits (omega (arith, room)) inside
                (some_inj (rw t at found)) in
            let mine =
              push_clusters-new bytes_per_cluster keep clusters result start logical c b
                (omega (arith, whole, fits)) (omega (arith, few, few_clusters))
                (less_clusters c clusters bytes_per_cluster rest (omega (arith, inside, whole)))
                o in
            (push_extents-Grows bytes_per_cluster keep extents _ _ bs tailed.0).1 physical n (
              tailed.1 physical n (
                Covers-within _ (start + c * bytes_per_cluster) bytes_per_cluster physical n
                  (omega (arith, here)) (omega (arith, here, fit)) mine))
        | inr t ↦
            let past : size ≤ place = ground (arith, t) in
            let le : clusters < c + 1 =
              less_clusters clusters (c + 1) bytes_per_cluster 0
                (omega (arith, past, whole, lt, add_mul c 1 bytes_per_cluster)) in
            let sum : c - clusters + clusters ≡ c = omega (arith, le) in
            let same : (c - clusters) * bytes_per_cluster + clusters * bytes_per_cluster
                ≡ c * bytes_per_cluster =
              sym (add_mul (c - clusters) clusters bytes_per_cluster)
              ∙ ap (λ m. m * bytes_per_cluster) sum in
            let target : bytes + place
                ≡ bytes + size + ((c - clusters) * bytes_per_cluster + rest) =
              omega (arith, same, whole) in
            let on : (logical + clusters) % 2 ^ 64 ≡ logical + clusters =
              omega (arith, few, few_clusters) in
            let flag : logical + c ≡ (logical + clusters) % 2 ^ 64 + (c - clusters) =
              omega (arith, on, sum) in
            push_extents-new extents _ ((logical + clusters) % 2 ^ 64) (bytes + size) (c - clusters)
              rest n physical bs tailed.0 w (omega (arith, room))
              (omega (arith, on, few, few_clusters)) fit lt
              (ap (λ q. offset_from q (bytes + size) extents) (sym target) ∙ (rw t at found))
              (ap (λ i. get_or keep i true) (sym flag) ∙ o)
      ]
