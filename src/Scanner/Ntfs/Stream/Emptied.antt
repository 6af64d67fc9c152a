-- ===== src/Scanner/Ntfs/Stream/Emptied.antt =====
-- Each round of `finish` empties a bucket of orphans, and so does away with all of them.
use win_blaze.Base.{
  ℕ, suc, ◌≤◌, ◌≡◌, refl, ◌⊎◌, inl, inr, Option-cases, Bool-cases, true, List, [], ◌∷◌, arith, leb,
  length, min, All,
}
use win_blaze.Base.IdMap
use win_blaze.Base.IdMap.{IdMap}
use win_blaze.Base.IdMap.Totals.{total, HasDistinctKeys, total-remove}
use win_blaze.Base.Ascending.{insert_by, sort_by_key}
use win_blaze.Scanner.Ntfs.Records.{ParsedNtfsEntry}
use win_blaze.Scanner.Ntfs.Stream.{NtfsStreamState, is_some, release, drain_one, emit_directory}
use win_blaze.Scanner.Ntfs.Stream.Ingest.{drain_loop}
use win_blaze.Scanner.Ntfs.Stream.Drained.{
  release-none, release-some, release-HasDistinctKeys, drain_loop-keeps,
}
use win_blaze.Scanner.Ntfs.Stream.Finish.{stuck_keys, is_waiting, min_key, stuck_or_min}

abbrev pub Buckets : Type 0
Buckets = IdMap (List ParsedNtfsEntry)

abbrev pub IsKey : Buckets → ℕ → Type 0
IsKey buckets key = is_some (IdMap.get buckets key) ≡ true

pub length-buckets : (m : Buckets) → length m ≡ total (λ children. 1) m
length-buckets [] = refl
length-buckets ((key, children) ∷ m) = omega (arith, length-buckets m)

IsKey-cons : (m : Buckets) (j k : ℕ) (c : List ParsedNtfsEntry) → IsKey m k → IsKey ((j, c) ∷ m) k
unfolding IdMap.get
IsKey-cons m j k c h = ground (arith, h)

All-map {ℓ} :
    {A : Type 0} {P Q : A → Type ℓ} (xs : List A) → ((x : A) → P x → Q x) → All P xs → All Q xs
All-map [] f h = h
All-map (x ∷ xs) f h = (f x h.0, All-map xs f h.1)

pub stuck_keys-All : (orphans m : Buckets) → All (IsKey m) (stuck_keys orphans m)
unfolding stuck_keys IdMap.get
stuck_keys-All orphans [] = tt
stuck_keys-All orphans ((key, children) ∷ m) =
    let rest : All (IsKey ((key, children) ∷ m)) (stuck_keys orphans m) =
      All-map _ (λ k. IsKey-cons m key k children) (stuck_keys-All orphans m) in
    elim (Bool-cases (is_waiting key orphans)) [
      | inl e ↦ rw e rest
      | inr e ↦ rw e (ground arith, rest)
    ]

min_key-cases : (key : ℕ) (m : Buckets) → (min_key key m ≡ key) ⊎ IsKey m (min_key key m)
unfolding min_key IdMap.get
min_key-cases key [] = inl refl
min_key-cases key ((other, children) ∷ m) = ground (arith, min_key-cases (min key other) m)

insert_by-All :
    (P : ℕ → Type 0) (k : ℕ) (ks : List ℕ) → P k → All P ks → All P (insert_by (λ j. j) k ks)
unfolding insert_by
insert_by-All P k [] p h = (p, h)
insert_by-All P k (j ∷ ks) p h = elim (Bool-cases (leb k j)) [
  | inl e ↦ rw e (p, h)
  | inr e ↦ rw e (h.0, insert_by-All P k ks p h.1)
]

pub sort_by_key-All : (P : ℕ → Type 0) (ks : List ℕ) → All P ks → All P (sort_by_key (λ j. j) ks)
unfolding sort_by_key
sort_by_key-All P [] h = h
sort_by_key-All P (k ∷ ks) h =
    insert_by-All P k (sort_by_key (λ j. j) ks) h.0 (sort_by_key-All P ks h.1)

pub insert_by-cons :
    (k : ℕ) (ks : List ℕ) → (j : ℕ) × ((js : List ℕ) × (insert_by (λ i. i) k ks ≡ j ∷ js))
unfolding insert_by
insert_by-cons k [] = (k, ([], refl))
insert_by-cons k (j ∷ ks) = elim (Bool-cases (leb k j)) [
  | inl e ↦ (k, (j ∷ ks, rw e refl))
  | inr e ↦ (j, (insert_by (λ i. i) k ks, rw e refl))
]

pub stuck_or_min-All :
    (keys : List ℕ) (m : Buckets) → All (IsKey m) keys → All (IsKey m) (stuck_or_min keys m)
unfolding stuck_or_min IdMap.get
stuck_or_min-All (key ∷ keys) m h = h
stuck_or_min-All [] [] h = tt
stuck_or_min-All [] ((key, children) ∷ m) h = (ground (arith, min_key-cases key m), tt)

pub stuck_or_min-cons :
    (keys : List ℕ) (bucket : ℕ × List ParsedNtfsEntry) (m : Buckets)
    → (k : ℕ) × ((ks : List ℕ) × (stuck_or_min keys (bucket ∷ m) ≡ k ∷ ks))
unfolding stuck_or_min
stuck_or_min-cons (key ∷ keys) bucket m = (key, (keys, refl))
stuck_or_min-cons [] (key, children) m = (min_key key m, ([], refl))

-- What holds between two rounds of `finish`.
pub record IsSettled (self : NtfsStreamState) : Type 0 where
  pub keys : HasDistinctKeys self.orphan_dirs
  pub empty : self.cascade ≡ []

abbrev pub buckets_of : NtfsStreamState → ℕ
buckets_of self = total (λ children. 1) self.orphan_dirs

pub release-buckets_of :
    (self : NtfsStreamState) (parent : ℕ)
    → HasDistinctKeys self.orphan_dirs
    → (buckets_of (release self parent) ≤ buckets_of self)
      × (IsKey self.orphan_dirs parent → suc (buckets_of (release self parent)) ≡ buckets_of self)
release-buckets_of self parent h = elim (Option-cases (IdMap.get self.orphan_dirs parent)) [
  | inl e ↦ rw (release-none self parent e) (ground (arith, e))
  | inr (children, e) ↦
      rw (release-some self parent children e)
        (ground (arith, e, total-remove (λ c. 1) self.orphan_dirs parent h))
]

-- A property that each round keeps, with distinct keys, holds at the end of the loop.
pub drain_loop-buckets_of :
    (n fuel : ℕ) (self : NtfsStreamState)
    → HasDistinctKeys self.orphan_dirs
    → buckets_of self ≤ n
    → buckets_of (drain_loop fuel self) ≤ n
unfolding drain_one emit_directory
drain_loop-buckets_of n fuel self h le =
    (drain_loop-keeps (λ s. HasDistinctKeys s.orphan_dirs × (buckets_of s ≤ n))
      (λ s entry rest e p.
        let emitted = emit_directory s entry rest in
        (
          release-HasDistinctKeys emitted entry.file_id p.0,
          ground (arith, p.1, release-buckets_of emitted entry.file_id p.0),
        ))
      fuel self (h, le)).1
