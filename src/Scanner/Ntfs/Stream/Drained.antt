-- ===== src/Scanner/Ntfs/Stream/Drained.antt =====
-- What the loop of `drain_cascade` leaves alone, and that its fuel is enough.
use win_blaze.Base.{
  ℕ, zero, suc, ◌+◌, ◌≤◌, ◌≡◌, refl, ◌∙◌, inl, inr, List-cases, Option-cases, none, some, List, [],
  ◌∷◌, ◌++◌, arith, ◌==◌, if◌then◌else◌, length,
}
use win_blaze.Base.IdMap
use win_blaze.Base.IdMap.{IdMap}
use win_blaze.Base.IdMap.Totals.{total, HasDistinctKeys, total-remove, remove-HasDistinctKeys}
use win_blaze.Core.Scan.{ScanEvent, directory_found}
use win_blaze.Scanner.Ntfs.Records.{ParsedNtfsEntry}
use win_blaze.Scanner.Ntfs.Stream.{NtfsStreamState, extend, release, emit_directory, drain_one}
use win_blaze.Scanner.Ntfs.Stream.Ingest.{waiting, drain_loop}

-- How many of the entries have the identifier.
abbrev pub count : ℕ → List ParsedNtfsEntry → ℕ
count id [] = 0
count id (entry ∷ entries) = (if entry.file_id == id then 1 else 0) + count id entries

-- How many of the events are the directory.
abbrev pub count_found : ℕ → List ScanEvent → ℕ
count_found id [] = 0
count_found id (directory_found d ∷ events) = (if d.id == id then 1 else 0) + count_found id events
count_found id (_ ∷ events) = count_found id events

abbrev pub count_waiting : ℕ → NtfsStreamState → ℕ
count_waiting id self = count id self.cascade + total (count id) self.orphan_dirs

-- How often the directory was emitted or waits.
abbrev pub count_all : ℕ → NtfsStreamState → ℕ
count_all id self = count_found id self.emitted + count_waiting id self

pub count-append :
    (id : ℕ) (xs ys : List ParsedNtfsEntry) → count id (xs ++ ys) ≡ count id xs + count id ys
count-append id [] ys = omega arith
count-append id (x ∷ xs) ys = omega (arith, count-append id xs ys)

count-extend :
    (id : ℕ) (cascade children : List ParsedNtfsEntry)
    → count id (extend cascade children) ≡ count id cascade + count id children
unfolding extend
count-extend id cascade [] = omega arith
count-extend id cascade (child ∷ children) =
    omega (arith, count-extend id (child ∷ cascade) children)

length-extend :
    (cascade children : List ParsedNtfsEntry)
    → length (extend cascade children) ≡ length cascade + length children
unfolding extend
length-extend cascade [] = omega arith
length-extend cascade (child ∷ children) = omega (arith, length-extend (child ∷ cascade) children)

abbrev pub released : NtfsStreamState → ℕ → List ParsedNtfsEntry → NtfsStreamState
released self parent children = record self {
  orphan_dirs = IdMap.remove self.orphan_dirs parent;
  cascade = extend self.cascade children;
}

module _ (self : NtfsStreamState) (parent : ℕ) where
  pub release-none : IdMap.get self.orphan_dirs parent ≡ none → release self parent ≡ self
  unfolding release
  release-none e = rw (e, release) refl

  pub release-some :
      (children : List ParsedNtfsEntry)
      → IdMap.get self.orphan_dirs parent ≡ some children
      → release self parent ≡ released self parent children
  unfolding release
  release-some children e = rw (e, release) refl

module _ (self : NtfsStreamState) (parent : ℕ) (h : HasDistinctKeys self.orphan_dirs) where
  pub release-waiting : waiting (release self parent) ≡ waiting self
  release-waiting = elim (Option-cases (IdMap.get self.orphan_dirs parent)) [
    | inl e ↦ rw (release-none self parent e) refl
    | inr (children, e) ↦ rw (release-some self parent children e) (
        ground (
          arith,
          e,
          length-extend self.cascade children,
          total-remove length self.orphan_dirs parent h,
        ))
  ]

  pub release-count : (id : ℕ) → count_all id (release self parent) ≡ count_all id self
  release-count id = elim (Option-cases (IdMap.get self.orphan_dirs parent)) [
    | inl e ↦ rw (release-none self parent e) refl
    | inr (children, e) ↦ rw (release-some self parent children e) (
        ground (
          arith,
          e,
          count-extend id self.cascade children,
          total-remove (count id) self.orphan_dirs parent h,
        ))
  ]

  pub release-HasDistinctKeys : HasDistinctKeys (release self parent).orphan_dirs
  release-HasDistinctKeys = elim (Option-cases (IdMap.get self.orphan_dirs parent)) [
    | inl e ↦ rw (release-none self parent e) h
    | inr (children, e) ↦
        rw (release-some self parent children e) (remove-HasDistinctKeys self.orphan_dirs parent h)
  ]

module _ (self : NtfsStreamState) (entry : ParsedNtfsEntry) (rest : List ParsedNtfsEntry)
    (top : self.cascade ≡ entry ∷ rest) (h : HasDistinctKeys self.orphan_dirs) where
  drain_one-waiting : suc (waiting (drain_one self entry rest)) ≡ waiting self
  unfolding drain_one emit_directory
  drain_one-waiting =
      rw (release-waiting (emit_directory self entry rest) entry.file_id h) (ground (arith, top))

  drain_one-count : (id : ℕ) → count_all id (drain_one self entry rest) ≡ count_all id self
  unfolding drain_one emit_directory
  drain_one-count id =
      rw (release-count (emit_directory self entry rest) entry.file_id h id) (ground (arith, top))

  drain_one-HasDistinctKeys : HasDistinctKeys (drain_one self entry rest).orphan_dirs
  unfolding drain_one emit_directory
  drain_one-HasDistinctKeys =
      release-HasDistinctKeys (emit_directory self entry rest) entry.file_id h

module _ (fuel : ℕ) (self : NtfsStreamState) where
  pub drain_loop-nil : self.cascade ≡ [] → drain_loop (suc fuel) self ≡ self
  unfolding drain_loop
  drain_loop-nil e = simp (e, drain_loop)

  pub drain_loop-cons :
      (entry : ParsedNtfsEntry) (rest : List ParsedNtfsEntry)
      → self.cascade ≡ entry ∷ rest
      → drain_loop (suc fuel) self ≡ drain_loop fuel (drain_one self entry rest)
  unfolding drain_loop
  drain_loop-cons entry rest e = simp (e, drain_loop)

-- A property that each round keeps holds at the end of the loop.
pub drain_loop-keeps {ℓ} :
    (P : NtfsStreamState → Type ℓ)
    → ((self : NtfsStreamState) (entry : ParsedNtfsEntry) (rest : List ParsedNtfsEntry)
        → self.cascade ≡ entry ∷ rest
        → P self
        → P (drain_one self entry rest))
    → (fuel : ℕ) (self : NtfsStreamState) → P self
    → P (drain_loop fuel self)
unfolding drain_loop
drain_loop-keeps P step zero self p = p
drain_loop-keeps P step (suc fuel) self p = elim (List-cases self.cascade) [
  | inl e ↦ rw (drain_loop-nil fuel self e) p
  | inr (entry, (rest, e)) ↦
      rw (drain_loop-cons fuel self entry rest e)
        (drain_loop-keeps P step fuel (drain_one self entry rest) (step self entry rest e p))
]

pub drain_loop-HasDistinctKeys :
    (fuel : ℕ) (self : NtfsStreamState)
    → HasDistinctKeys self.orphan_dirs
    → HasDistinctKeys (drain_loop fuel self).orphan_dirs
drain_loop-HasDistinctKeys =
    drain_loop-keeps (λ s. HasDistinctKeys s.orphan_dirs) drain_one-HasDistinctKeys

-- With fuel for the directories that wait, the worklist is empty at the end.
pub drain_loop-empty :
    (fuel : ℕ) (self : NtfsStreamState)
    → HasDistinctKeys self.orphan_dirs
    → waiting self ≤ fuel
    → (drain_loop fuel self).cascade ≡ []
unfolding drain_loop
drain_loop-empty zero self h enough = elim (List-cases self.cascade) [
  | inl e ↦ e
  | inr (entry, (rest, e)) ↦ absurd (ground (arith, e))
]
drain_loop-empty (suc fuel) self h enough = elim (List-cases self.cascade) [
  | inl e ↦ rw (drain_loop-nil fuel self e) e
  | inr (entry, (rest, e)) ↦ rw (drain_loop-cons fuel self entry rest e) (
      drain_loop-empty fuel (drain_one self entry rest)
        (drain_one-HasDistinctKeys self entry rest e h)
        (ground (arith, drain_one-waiting self entry rest e h)))
]

pub drain_loop-count :
    (id fuel : ℕ) (self : NtfsStreamState)
    → HasDistinctKeys self.orphan_dirs
    → count_all id (drain_loop fuel self) ≡ count_all id self
unfolding drain_loop
drain_loop-count id zero self h = refl
drain_loop-count id (suc fuel) self h = elim (List-cases self.cascade) [
  | inl e ↦ rw (drain_loop-nil fuel self e) refl
  | inr (entry, (rest, e)) ↦ rw (drain_loop-cons fuel self entry rest e) (
      drain_loop-count id fuel (drain_one self entry rest)
        (drain_one-HasDistinctKeys self entry rest e h)
      ∙ drain_one-count self entry rest e h id)
]
