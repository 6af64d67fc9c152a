-- ===== src/Scanner/Ntfs/Stream/Finished.antt =====
-- `finish` leaves no directory behind, and emits each that waited.
use win_blaze.Base.{
  ℕ, zero, suc, ◌≤◌, ◌<◌, ◌≡◌, refl, ◌∙◌, inl, inr, List-cases, Option-cases, none, some, List, [],
  ◌∷◌, arith, length, All,
}
use mathlib.Core.Path.{sym, subst}
use win_blaze.Base.IdMap
use win_blaze.Base.IdMap.Totals.{total, HasDistinctKeys}
use win_blaze.Base.Ascending.{sort_by_key}
use win_blaze.Scanner.Ntfs.Records.{ParsedNtfsEntry}
use win_blaze.Scanner.Ntfs.Stream.{NtfsStreamState, release}
use win_blaze.Scanner.Ntfs.Stream.Ingest.{waiting, drain_cascade}
use win_blaze.Scanner.Ntfs.Stream.Drained.{
  count, count_found, count_all, release-HasDistinctKeys, release-count, drain_loop-HasDistinctKeys,
  drain_loop-empty, drain_loop-count,
}
use win_blaze.Scanner.Ntfs.Stream.Emptied.{
  Buckets, IsKey, IsSettled, buckets_of, length-buckets, release-buckets_of, drain_loop-buckets_of,
  stuck_keys-All, stuck_or_min-All, stuck_or_min-cons, sort_by_key-All, insert_by-cons,
}
use win_blaze.Scanner.Ntfs.Stream.Finish.{
  stuck_keys, stuck_or_min, drain_stuck, finish_round, finish_loop, finish,
}

pub drain_cascade-IsSettled :
    (self : NtfsStreamState) → HasDistinctKeys self.orphan_dirs → IsSettled (drain_cascade self)
unfolding drain_cascade
drain_cascade-IsSettled self h = record {
  keys = drain_loop-HasDistinctKeys (waiting self) self h;
  empty = drain_loop-empty (waiting self) self h (omega arith);
}

pub drain_cascade-count :
    (id : ℕ) (self : NtfsStreamState)
    → HasDistinctKeys self.orphan_dirs
    → count_all id (drain_cascade self) ≡ count_all id self
unfolding drain_cascade
drain_cascade-count id self h = drain_loop-count id (waiting self) self h

-- One key of the stuck ones: the state after it.
abbrev pub unstuck : NtfsStreamState → ℕ → NtfsStreamState
unstuck self parent = drain_cascade (release self parent)

module _ (self : NtfsStreamState) (parent : ℕ) (s : IsSettled self) where
  unstuck-IsSettled : IsSettled (unstuck self parent)
  unstuck-IsSettled =
      drain_cascade-IsSettled (release self parent) (release-HasDistinctKeys self parent s.keys)

  unstuck-count : (id : ℕ) → count_all id (unstuck self parent) ≡ count_all id self
  unstuck-count id =
      drain_cascade-count id (release self parent) (release-HasDistinctKeys self parent s.keys)
      ∙ release-count self parent s.keys id

  unstuck-buckets_of : buckets_of (unstuck self parent) ≤ buckets_of (release self parent)
  unfolding drain_cascade
  unstuck-buckets_of =
      drain_loop-buckets_of (buckets_of (release self parent)) (waiting (release self parent))
        (release self parent) (release-HasDistinctKeys self parent s.keys) (omega arith)

module _ (self : NtfsStreamState) (parent : ℕ) (stuck : List ℕ) where
  pub drain_stuck-none :
      IdMap.get self.orphan_dirs parent ≡ none
      → drain_stuck self (parent ∷ stuck) ≡ drain_stuck self stuck
  unfolding drain_stuck
  drain_stuck-none e = simp (e, drain_stuck)

  pub drain_stuck-some :
      (children : List ParsedNtfsEntry)
      → IdMap.get self.orphan_dirs parent ≡ some children
      → drain_stuck self (parent ∷ stuck) ≡ drain_stuck (unstuck self parent) stuck
  unfolding drain_stuck
  drain_stuck-some children e = simp (e, drain_stuck)

-- What the rounds keep, from a state on.
record Goes (self after : NtfsStreamState) : Type 0 where
  settled : IsSettled after
  counts : (id : ℕ) → count_all id after ≡ count_all id self
  fewer : buckets_of after ≤ buckets_of self

Goes-trans : {a b c : NtfsStreamState} → Goes a b → Goes b c → Goes a c
Goes-trans p q = record {
  settled = q.settled;
  counts = λ id. q.counts id ∙ p.counts id;
  fewer = omega (arith, p.fewer, q.fewer);
}

unstuck-Goes :
    (self : NtfsStreamState) (parent : ℕ) → IsSettled self → Goes self (unstuck self parent)
unstuck-Goes self parent s = record {
  settled = unstuck-IsSettled self parent s;
  counts = unstuck-count self parent s;
  fewer =
      omega (arith, unstuck-buckets_of self parent s, (release-buckets_of self parent s.keys).0);
}

drain_stuck-Goes :
    (self : NtfsStreamState) (stuck : List ℕ) → IsSettled self → Goes self (drain_stuck self stuck)
unfolding drain_stuck
drain_stuck-Goes self [] s = record { settled = s; counts = λ id. refl; fewer = omega arith }
drain_stuck-Goes self (parent ∷ stuck) s = elim (Option-cases (IdMap.get self.orphan_dirs parent)) [
  | inl e ↦ rw (drain_stuck-none self parent stuck e) (drain_stuck-Goes self stuck s)
  | inr (children, e) ↦ rw (drain_stuck-some self parent stuck children e) (
      Goes-trans (unstuck-Goes self parent s)
        (drain_stuck-Goes (unstuck self parent) stuck (unstuck-IsSettled self parent s)))
]

drain_stuck-fewer :
    (self : NtfsStreamState) (parent : ℕ) (stuck : List ℕ)
    → IsSettled self
    → IsKey self.orphan_dirs parent
    → buckets_of (drain_stuck self (parent ∷ stuck)) < buckets_of self
drain_stuck-fewer self parent stuck s key =
    elim (Option-cases (IdMap.get self.orphan_dirs parent)) [
      | inl e ↦ absurd (ground (arith, e, key))
      | inr (children, e) ↦ rw (drain_stuck-some self parent stuck children e) (
          let later =
            drain_stuck-Goes (unstuck self parent) stuck (unstuck-IsSettled self parent s) in
          let one = (release-buckets_of self parent s.keys).1 key in
          omega (arith, later.fewer, unstuck-buckets_of self parent s, one))
    ]

stuck_of : Buckets → List ℕ
stuck_of m = sort_by_key (λ key. key) (stuck_or_min (stuck_keys m m) m)

stuck_of-All : (m : Buckets) → All (IsKey m) (stuck_of m)
unfolding stuck_of
stuck_of-All m =
    sort_by_key-All (IsKey m) _ (stuck_or_min-All (stuck_keys m m) m (stuck_keys-All m m))

stuck_of-cons :
    (m : Buckets) (bucket : ℕ × List ParsedNtfsEntry) (rest : Buckets)
    → m ≡ bucket ∷ rest
    → (k : ℕ) × ((ks : List ℕ) × (stuck_of m ≡ k ∷ ks))
unfolding stuck_of sort_by_key
stuck_of-cons m bucket rest e = rw e (
    let (k, (ks, eq)) =
      stuck_or_min-cons (stuck_keys (bucket ∷ rest) (bucket ∷ rest)) bucket rest in
    rw eq (insert_by-cons k (sort_by_key (λ key. key) ks)))

module _ (self : NtfsStreamState) (s : IsSettled self) where
  finish_round-Goes : Goes self (finish_round self)
  unfolding finish_round
  finish_round-Goes = drain_stuck-Goes self _ s

  finish_round-fewer :
      (bucket : ℕ × List ParsedNtfsEntry) (rest : Buckets)
      → self.orphan_dirs ≡ bucket ∷ rest
      → buckets_of (finish_round self) < buckets_of self
  unfolding finish_round stuck_of
  finish_round-fewer bucket rest e =
      let (k, (ks, eq)) = stuck_of-cons self.orphan_dirs bucket rest e in
      let keys : All (IsKey self.orphan_dirs) (k ∷ ks) =
        subst (All (IsKey self.orphan_dirs)) eq (stuck_of-All self.orphan_dirs) in
      subst (λ stuck. buckets_of (drain_stuck self stuck) < buckets_of self) (sym eq)
        (drain_stuck-fewer self k ks s keys.0)

module _ (fuel : ℕ) (self : NtfsStreamState) where
  pub finish_loop-nil : self.orphan_dirs ≡ [] → finish_loop (suc fuel) self ≡ self
  unfolding finish_loop
  finish_loop-nil e = simp (e, finish_loop)

  pub finish_loop-cons :
      (bucket : ℕ × List ParsedNtfsEntry) (rest : Buckets)
      → self.orphan_dirs ≡ bucket ∷ rest
      → finish_loop (suc fuel) self ≡ finish_loop fuel (finish_round self)
  unfolding finish_loop
  finish_loop-cons bucket rest e = simp (e, finish_loop)

finish_loop-Goes :
    (fuel : ℕ) (self : NtfsStreamState) → IsSettled self → Goes self (finish_loop fuel self)
unfolding finish_loop
finish_loop-Goes zero self s = record { settled = s; counts = λ id. refl; fewer = omega arith }
finish_loop-Goes (suc fuel) self s = elim (List-cases self.orphan_dirs) [
  | inl e ↦
      rw (finish_loop-nil fuel self e)
        record { settled = s; counts = λ id. refl; fewer = omega arith }
  | inr (bucket, (rest, e)) ↦ rw (finish_loop-cons fuel self bucket rest e) (
      let one = finish_round-Goes self s in
      Goes-trans one (finish_loop-Goes fuel (finish_round self) one.settled))
]

finish_loop-empty :
    (fuel : ℕ) (self : NtfsStreamState)
    → IsSettled self
    → buckets_of self ≤ fuel
    → (finish_loop fuel self).orphan_dirs ≡ []
unfolding finish_loop
finish_loop-empty zero self s enough = elim (List-cases self.orphan_dirs) [
  | inl e ↦ e
  | inr (bucket, (rest, e)) ↦ absurd (ground (arith, e))
]
finish_loop-empty (suc fuel) self s enough = elim (List-cases self.orphan_dirs) [
  | inl e ↦ rw (finish_loop-nil fuel self e) e
  | inr (bucket, (rest, e)) ↦ rw (finish_loop-cons fuel self bucket rest e) (
      finish_loop-empty fuel (finish_round self) (finish_round-Goes self s).settled
        (omega (arith, finish_round-fewer self s bucket rest e)))
]

-- From a state between two calls, the last pass leaves no directory in the worklist or among the
-- orphans.
pub finish-empty :
    (self : NtfsStreamState)
    → IsSettled self
    → ((finish self).cascade ≡ []) × ((finish self).orphan_dirs ≡ [])
unfolding finish
finish-empty self s = (
  (finish_loop-Goes (length self.orphan_dirs) self s).settled.empty,
  finish_loop-empty (length self.orphan_dirs) self s
      (omega (arith, length-buckets self.orphan_dirs)),
)

-- The last pass emits each directory that waited, as often as it did.
pub finish-count :
    (self : NtfsStreamState) (id : ℕ)
    → IsSettled self
    → count_found id (finish self).emitted ≡ count_all id self
unfolding finish
finish-count self id s =
    let goes = finish_loop-Goes (length self.orphan_dirs) self s in
    let (c, o) = finish-empty self s in
    let same = goes.counts id in
    let cascade : count id (finish self).cascade ≡ 0 = rw c refl in
    let orphans : total (count id) (finish self).orphan_dirs ≡ 0 = rw o refl in
    omega (arith, same, cascade, orphans)
