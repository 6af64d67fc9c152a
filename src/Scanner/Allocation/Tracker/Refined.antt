-- ===== src/Scanner/Allocation/Tracker/Refined.antt =====
-- The trackers refine a set of claimed identities: bytes go to the first claim of each.
use win_blaze.Base.{
  ℕ, ◌≡◌, refl, sym, ap, ◌∙◌, inl, inr, Bool-cases, Bool, true, false, not, ◌&&◌, ◌||◌, Option,
  some, List, [], ◌∷◌, arith, leb, ◌==◌, if◌then◌else◌,
}
use win_blaze.Base.Bytes.{u64_max}
use win_blaze.Base.IdMap
use win_blaze.Base.IdMap.{IdMap, get-insert}
use win_blaze.Scanner.Allocation.{no_identities, is_member}
use win_blaze.Scanner.Allocation.Compacted.{has_dense, holds, IsNarrow}
use win_blaze.Scanner.Allocation.Claims.{held, insert_narrow-Claims}
use win_blaze.Scanner.Allocation.Tracker.{
  VolumeIdentities, no_files, TrackedVolumes, empty, single, multiple, insert_file, claim_file,
  claim_in, or_default, claim_multiple, claim_tracked, claim,
}

unfoldable pub has_file : VolumeIdentities → ℕ → Bool
unfolding holds is_member
has_file self file = if leb file u64_max then holds self.narrow file else is_member file self.wide

-- Files claimed on a volume, and what a claim does to them.
record ClaimsFile (self : VolumeIdentities) (file bytes : ℕ)
    (result : Option (ℕ × VolumeIdentities)) : Type 0 where
  after : VolumeIdentities
  ends : result ≡ some (if has_file self file then 0 else bytes, after)
  narrow : IsNarrow after.narrow
  same : (x : ℕ) → has_file after x ≡ ((file == x) || has_file self x)

new_bytes : (b : Bool) (bytes : ℕ) → (if not b then bytes else 0) ≡ (if b then 0 else bytes)
new_bytes true bytes = refl
new_bytes false bytes = refl

module _ (order : List ℕ → List ℕ) (self : VolumeIdentities) (file bytes : ℕ)
    (narrow : IsNarrow self.narrow) where
  claim_file-ClaimsFile : ClaimsFile self file bytes (claim_file order self file bytes)
  unfolding claim_file insert_file has_file is_member
  claim_file-ClaimsFile = elim (Bool-cases (leb file u64_max)) [
    | inl t ↦
        let c = insert_narrow-Claims order self.narrow file narrow (ground (arith, t)) in
        rw (t, c.ends, claim_file, insert_file)
          record {
            after = record self { narrow = c.after };
            ends = rw (t, new_bytes (holds self.narrow file) bytes) refl;
            narrow = c.narrow;
            same = λ x. ground (arith, c.same x, t);
          }
    | inr t ↦ elim (Bool-cases (is_member file self.wide)) [
      | inl u ↦
          rw (t, u, claim_file, insert_file)
            record {
              after = self;
              ends = rw (t, u) refl;
              narrow = narrow;
              same = held (has_file self) file (rw t u);
            }
      | inr u ↦
          rw (t, u, claim_file, insert_file)
            record {
              after = record self { wide = file ∷ self.wide };
              ends = rw (t, u) refl;
              narrow = narrow;
              same = λ x. ground (arith, t);
            }
    ]
  ]

-- The abstract state: an identity of a volume was claimed.
unfoldable pub claimed : TrackedVolumes → ℕ → ℕ → Bool
unfolding has_file IdMap.get
claimed empty volume file = false
claimed (single primary identities) volume file = primary == volume && has_file identities file
claimed (multiple volumes) volume file = has_file (or_default (IdMap.get volumes volume)) file

abbrev pub IsTracker : TrackedVolumes → Type 0
IsTracker empty = Unit
IsTracker (single primary identities) = IsNarrow identities.narrow
IsTracker (multiple volumes) =
    (volume : ℕ) → IsNarrow (or_default (IdMap.get volumes volume)).narrow

-- What a claim of some bytes does: they are returned for an identity that is new, and it is then
-- claimed, beside those before.
pub record Refines (self : TrackedVolumes) (volume file bytes : ℕ)
    (result : Option (ℕ × TrackedVolumes)) : Type 0 where
  pub after : TrackedVolumes
  pub ends : result ≡ some (if claimed self volume file then 0 else bytes, after)
  pub tracker : IsTracker after
  pub same : (v x : ℕ) → claimed after v x ≡ ((volume == v && file == x) || claimed self v x)

no_files-IsNarrow : IsNarrow no_identities
no_files-IsNarrow = record { small = tt; window = λ dense e. absurd (cc) }

no_files-has_file : (x : ℕ) → has_file no_files x ≡ false
unfolding has_file holds has_dense is_member
no_files-has_file x = ground arith

module _ (order : List ℕ → List ℕ) (volume file bytes : ℕ) where
  claim_single-Refines :
      (self : TrackedVolumes) (identities : VolumeIdentities)
      → IsNarrow identities.narrow
      → ((v x : ℕ) → claimed self v x ≡ (volume == v && has_file identities x))
      → Refines self volume file bytes (claim_in order identities (single volume) file bytes)
  unfolding claim_in claimed
  claim_single-Refines self identities narrow before =
      let c = claim_file-ClaimsFile order identities file bytes narrow in
      rw (c.ends, claim_in)
        record {
          after = single volume c.after;
          ends = ground (arith, before volume file);
          tracker = c.narrow;
          same = λ v x. ground (arith, c.same x, before v x);
        }

  claim_multiple-Refines :
      (self : TrackedVolumes) (volumes : IdMap VolumeIdentities)
      → IsTracker (multiple volumes)
      → ((v x : ℕ) → claimed self v x ≡ claimed (multiple volumes) v x)
      → Refines self volume file bytes (claim_multiple order volumes volume file bytes)
  unfolding claim_in claimed
  claim_multiple-Refines self volumes narrow before =
      let identities = or_default (IdMap.get volumes volume) in
      let c = claim_file-ClaimsFile order identities file bytes (narrow volume) in
      rw (c.ends, claim_in)
        record {
          after = multiple (IdMap.insert volumes volume c.after);
          ends = ground (arith, before volume file);
          tracker = λ v. elim (Bool-cases (volume == v)) [
            | inl t ↦ rw (get-insert volumes volume c.after v, t) c.narrow
            | inr t ↦ rw (get-insert volumes volume c.after v, t) (narrow v)
          ];
          same = λ v x. elim (Bool-cases (volume == v)) [
            | inl t ↦
                let e : volume ≡ v = ground (arith, t) in
                let old : has_file identities x ≡ claimed self v x =
                  ap (λ w. has_file (or_default (IdMap.get volumes w)) x) e ∙ sym (before v x) in
                rw (get-insert volumes volume c.after v, t)
                  (c.same x ∙ ap (λ b. (file == x) || b) old)
            | inr t ↦ rw (get-insert volumes volume c.after v, t) (sym (before v x))
          ];
        }

  promoted :
      (primary : ℕ) (identities : VolumeIdentities)
      → (primary == volume) ≡ false
      → claim_tracked order (single primary identities) volume file bytes
        ≡ claim_multiple order ((primary, identities) ∷ []) volume file bytes
  unfolding claim_tracked
  promoted primary identities t = rw (t, claim_tracked) refl

  claim_tracked-Refines :
      (self : TrackedVolumes)
      → IsTracker self
      → Refines self volume file bytes (claim_tracked order self volume file bytes)
  unfolding claim_tracked claimed IdMap.get
  claim_tracked-Refines empty tracker =
      claim_single-Refines empty no_files no_files-IsNarrow
        (λ v x. ground (arith, no_files-has_file x))
  claim_tracked-Refines (single primary identities) tracker =
      elim (Bool-cases (primary == volume)) [
        | inl t ↦
            let e : primary ≡ volume = ground (arith, t) in
            rw (t, claim_tracked, e)
              (claim_single-Refines (single volume identities) identities tracker (λ v x. refl))
        | inr t ↦ rw (promoted primary identities t) (
            claim_multiple-Refines (single primary identities) ((primary, identities) ∷ [])
              (λ v. elim (Bool-cases (primary == v)) [
                | inl u ↦ rw u tracker
                | inr u ↦ rw u no_files-IsNarrow
              ])
              (λ v x. elim (Bool-cases (primary == v)) [
                | inl u ↦ rw u refl
                | inr u ↦ rw u (sym (no_files-has_file x))
              ]))
      ]
  claim_tracked-Refines (multiple volumes) tracker =
      claim_multiple-Refines (multiple volumes) volumes tracker (λ v x. refl)

-- A claim of a well formed tracker is a step of the set of claimed identities of all volumes,
-- whatever the order of the hash sets: it gives no bytes when there are none or the identity
-- was claimed, and the bytes otherwise; then exactly the identity, unless there were no bytes,
-- is claimed beside those before, and the tracker is well formed. No claim panics.
pub claim-Refines :
    (order : List ℕ → List ℕ) (self : TrackedVolumes) (volume file bytes : ℕ)
    → IsTracker self
    → (after : TrackedVolumes) × ((claim order self (volume, file) bytes
          ≡ some (if bytes == 0 || claimed self volume file then 0 else bytes, after))
        × (IsTracker after
            × ((v x : ℕ)
                → claimed after v x
                  ≡ ((not (bytes == 0) && (volume == v && file == x)) || claimed self v x))))
unfolding claim
claim-Refines order self volume file bytes tracker = elim (Bool-cases (bytes == 0)) [
  | inl t ↦ rw (t, claim) (self, (refl, (tracker, λ v x. refl)))
  | inr t ↦
      let r = claim_tracked-Refines order volume file bytes self tracker in
      rw (t, claim) (r.after, (r.ends, (r.tracker, r.same)))
]
