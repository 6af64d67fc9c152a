-- ===== src/Scanner/Ntfs/Keep/Flags.antt =====
-- The flags of `mft_keep_extents` of src/WinBlaze.Scanner/src/ntfs.rs.
use win_blaze.Base.{
  ℕ, zero, suc, ◌+◌, ◌-◌, ◌≤◌, ◌<◌, ◌≡◌, refl, ap, ◌∙◌, inl, inr, Bool-cases, Bool, true, false,
  some, List, [], ◌∷◌, arith, ltb, if◌then◌else◌, length, get_elem?, set, replicate, length-set,
  length-replicate, get_elem?-set,
}
use win_blaze.Scanner.Ntfs.Keep.{run_length, keep_run, keep_loop, keep_clusters}

-- Setting flags keeps those that are set.
abbrev Extends : List Bool → List Bool → Type 0
Extends keep after =
    (length after ≡ length keep)
    × ((j : ℕ) → get_elem? keep j ≡ some true → get_elem? after j ≡ some true)

set-Extends : (keep : List Bool) (c : ℕ) → Extends keep (set keep c true)
set-Extends keep c = (
  length-set keep c true,
  λ j h. elim (Bool-cases (ltb c (length keep))) [
    | inl t ↦ ground (arith, h, get_elem?-set keep c true j (ground (arith, t)))
    | inr t ↦ set-past keep c j (ground (arith, t)) h
  ],
)
  where
    set-past :
        (keep : List Bool) (c j : ℕ)
        → length keep ≤ c
        → get_elem? keep j ≡ some true
        → get_elem? (set keep c true) j ≡ some true
    set-past [] c j le h = h
    set-past (k ∷ keep) zero j le h = absurd (omega arith)
    set-past (k ∷ keep) (suc c) zero le h = h
    set-past (k ∷ keep) (suc c) (suc j) le h = set-past keep c j (omega arith) h

module _ (occupied : ℕ → Bool) (skip_min : ℕ) where
  keep_run-Extends :
      (count : ℕ) (keep : List Bool) (start : ℕ)
      → Extends keep (keep_run occupied skip_min keep start count)
  unfolding keep_run
  keep_run-Extends zero keep start = (refl, λ j h. h)
  keep_run-Extends (suc count) keep start =
      let one = set-Extends keep start in
      let rest = keep_run-Extends count (set keep start true) (suc start) in
      (rest.0 ∙ one.0, λ j h. rest.1 j (one.1 j h))

  -- The clusters of a run are free, and a run that starts at a free cluster has one.
  run_length-free :
      (left c j : ℕ) → j < run_length occupied skip_min left c → occupied (c + j) ≡ false
  unfolding run_length
  run_length-free zero c j h = absurd (omega arith)
  run_length-free (suc left) c zero h = let e : c + 0 ≡ c = omega arith in rw e (ground (arith, h))
  run_length-free (suc left) c (suc j) h =
      let e : c + suc j ≡ suc c + j = omega arith in
      rw e (run_length-free left (suc c) j (ground (arith, h)))

  run_length-pos :
      (left c : ℕ) → 1 ≤ left → occupied c ≡ false → 1 ≤ run_length occupied skip_min left c
  unfolding run_length
  run_length-pos zero c h t = absurd (omega arith)
  run_length-pos (suc left) c h t = ground (arith, t)

  -- The flags of the occupied clusters below `c` are set.
  abbrev KeepsBelow : ℕ → List Bool → Type 0
  KeepsBelow c keep = (j : ℕ) → j < c → occupied j ≡ true → get_elem? keep j ≡ some true

  abbrev past_run : ℕ → List Bool → ℕ → List Bool
  past_run total keep c =
      let run = run_length occupied skip_min (total - c) c in
      if ltb run skip_min then keep_run occupied skip_min keep c run else keep

  past_run-Extends : (total : ℕ) (keep : List Bool) (c : ℕ) → Extends keep (past_run total keep c)
  past_run-Extends total keep c =
      let run = run_length occupied skip_min (total - c) c in
      elim (Bool-cases (ltb run skip_min)) [
        | inl t ↦ rw t (keep_run-Extends run keep c)
        | inr t ↦ rw t (refl, λ j h. h)
      ]

  on-KeepsBelow :
      (keep : List Bool) (c : ℕ)
      → c < length keep
      → KeepsBelow c keep
      → KeepsBelow (suc c) (set keep c true)
  on-KeepsBelow keep c lt h j below o = ground (arith, o, h j, get_elem?-set keep c true j lt)

  past-KeepsBelow :
      (total : ℕ) (keep : List Bool) (c : ℕ)
      → KeepsBelow c keep
      → KeepsBelow (c + run_length occupied skip_min (total - c) c) (past_run total keep c)
  past-KeepsBelow total keep c h j below o = elim (Bool-cases (ltb j c)) [
    | inl t ↦ (past_run-Extends total keep c).1 j (h j (ground (arith, t)) o)
    | inr t ↦
        let ge : c ≤ j = ground (arith, t) in
        let e : c + (j - c) ≡ j = omega (arith, ge) in
        let free : occupied (c + (j - c)) ≡ false =
          run_length-free (total - c) c (j - c) (omega (arith, ge, below)) in
        absurd (ground (arith, o, free, ap occupied e))
  ]

  keep_loop-KeepsBelow :
      (fuel total : ℕ) (keep : List Bool) (c : ℕ)
      → length keep ≡ total
      → total ≤ c + fuel
      → KeepsBelow c keep
      → KeepsBelow total (keep_loop occupied skip_min fuel total keep c)
  unfolding keep_loop
  keep_loop-KeepsBelow zero total keep c l enough h = λ j below o. h j (omega (arith, below)) o
  keep_loop-KeepsBelow (suc fuel) total keep c l enough h = elim (Bool-cases (ltb c total)) [
    | inr t ↦ rw t (λ j below o. h j (ground (arith, t, below)) o)
    | inl t ↦
        let lt : c < total = ground (arith, t) in
        elim (Bool-cases (occupied c)) [
          | inl o ↦
              rw (t, o)
                (keep_loop-KeepsBelow fuel total (set keep c true) (suc c)
                  (length-set keep c true ∙ l) (omega arith)
                  (on-KeepsBelow keep c (omega (arith, lt, l)) h))
          | inr o ↦
              rw (t, o)
                (keep_loop-KeepsBelow fuel total (past_run total keep c)
                  (c + run_length occupied skip_min (total - c) c)
                  ((past_run-Extends total keep c).0 ∙ l)
                  (omega (arith, run_length-pos (total - c) c (omega (arith, lt)) o))
                  (past-KeepsBelow total keep c h))
        ]
  ]

  pub keep_clusters-occupied :
      (total j : ℕ)
      → j < total
      → occupied j ≡ true
      → get_elem? (keep_clusters occupied skip_min total) j ≡ some true
  unfolding keep_clusters
  keep_clusters-occupied total j lt o =
      keep_loop-KeepsBelow total total (replicate total false) 0 (length-replicate total false)
        (omega arith) (λ i below. absurd (omega arith)) j lt o
