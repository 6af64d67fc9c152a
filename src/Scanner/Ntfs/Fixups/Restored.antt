-- ===== src/Scanner/Ntfs/Fixups/Restored.antt =====
-- What a record holds after its sectors are restored, byte by byte.
use win_blaze.Base.{
  ℕ, zero, suc, ◌+◌, ◌-◌, ◌*◌, ◌≤◌, ◌<◌, ◌≡◌, ◌≢◌, ◌∙◌, inl, inr, Option-cases, some, List, arith,
  length, take, drop, get_elem?, set, ◌==◌, if◌then◌else◌, get_elem?-set, length-set, Bool-cases,
}
use win_blaze.Scanner.Ntfs.Fixups.{
  restored, put_tail, fix_sector, fix_sectors, apply_record_fixups, le_u16,
}
use win_blaze.Scanner.Ntfs.Fixups.Safe.{Fixed-cases}

-- What one round finds and writes.
record Round (usa_offset bps index : ℕ) (rec out : List ℕ) : Type 0 where
  pub inside : index * bps ≤ length rec
  pub first : ℕ
  pub second : ℕ
  pub at_first : get_elem? rec (usa_offset + index * 2) ≡ some first
  pub at_second : get_elem? rec (usa_offset + index * 2 + 1) ≡ some second
  pub written : out ≡ set (set rec (index * bps - 2) first) (index * bps - 1) second

fix_sector-Round :
    (usa_offset bps : ℕ) (usn : List ℕ) (index : ℕ) (rec out : List ℕ)
    → fix_sector usa_offset bps usn index rec ≡ restored out
    → Round usa_offset bps index rec out
unfolding fix_sector put_tail
fix_sector-Round usa_offset bps usn index rec out e =
    elim (Option-cases (get_elem? rec (usa_offset + index * 2))) [
      | inl gone ↦ absurd (ground arith)
      | inr (a, here) ↦ elim (Option-cases (get_elem? rec (usa_offset + index * 2 + 1))) [
        | inl gone ↦ absurd (ground arith)
        | inr (b, there) ↦ record {
          inside = ground arith;
          first = a;
          second = b;
          at_first = here;
          at_second = there;
          written = ground arith;
        }
      ]
    ]

-- The places of the tail of a sector.
module _ (bps index j : ℕ) (two : 2 ≤ bps) (later : index < j) (one : 1 ≤ index) where
  tails_apart : index * bps + bps ≤ j * bps
  tails_apart = grind arith

module _ {usa_offset bps index : ℕ} {rec out : List ℕ}
    (r : Round usa_offset bps index rec out) where
  get-round :
      (q : ℕ)
      → 2 ≤ index * bps
      → get_elem? out q ≡ (
          if index * bps - 1 == q
          then some r.second
          else if index * bps - 2 == q
          then some r.first
          else get_elem? rec q)
  get-round q two = rw r.written (
      ground (
        arith,
        get_elem?-set rec (index * bps - 2) r.first q (omega (arith, r.inside)),
        get_elem?-set (set rec (index * bps - 2) r.first) (index * bps - 1) r.second q
            (omega (arith, r.inside, length-set rec (index * bps - 2) r.first)),
      ))

module _ (usa_offset bps : ℕ) (usn : List ℕ) (two : 2 ≤ bps) where
  rounds :
      (count index : ℕ) (rec out : List ℕ)
      → fix_sectors usa_offset bps usn (suc count) index rec ≡ restored out
      → (mid : List ℕ) × Round usa_offset bps index rec mid
        × (fix_sectors usa_offset bps usn count (index + 1) mid ≡ restored out)
  unfolding fix_sectors
  rounds count index rec out e = elim (Fixed-cases (fix_sector usa_offset bps usn index rec)) [
    | inr (inr h) ↦ absurd (let e' = rw (h, fix_sectors) at e in cc)
    | inr (inl (r, h)) ↦ absurd (let e' = rw (h, fix_sectors) at e in cc)
    | inl (mid, h) ↦
        (mid, fix_sector-Round usa_offset bps usn index rec mid h, rw (h, fix_sectors) at e)
  ]

  kept :
      (count index : ℕ) (rec out : List ℕ)
      → fix_sectors usa_offset bps usn count index rec ≡ restored out
      → 1 ≤ index
      → (q : ℕ) → ((j : ℕ) → index ≤ j → j < index + count → (q ≢ j * bps - 1) × (q ≢ j * bps - 2))
      → get_elem? out q ≡ get_elem? rec q
  unfolding fix_sectors
  kept zero index rec out e one q apart = ground arith
  kept (suc count) index rec out e one q apart =
      let (mid, round, e') = rounds count index rec out e in
      let (a, b) = apart index (omega arith) (omega arith) in
      kept count (index + 1) mid out e' (omega arith) q
        (λ j l u. apart j (omega (arith, l)) (omega (arith, u)))
      ∙ (get-round round q (grind arith) ∙ ground (arith, a, b))

  own_tail :
      (count index : ℕ) (rec out : List ℕ)
      → fix_sectors usa_offset bps usn (suc count) index rec ≡ restored out
      → 1 ≤ index
      → (get_elem? out (index * bps - 2) ≡ get_elem? rec (usa_offset + index * 2))
        × (get_elem? out (index * bps - 1) ≡ get_elem? rec (usa_offset + index * 2 + 1))
  own_tail count index rec out e one =
      let (mid, round, e') = rounds count index rec out e in
      let long : 2 ≤ index * bps = grind (arith, two, one) in
      let apart : (k : ℕ) → index + 1 ≤ k → index * bps + bps ≤ k * bps =
        λ k l. tails_apart bps index k two (omega (arith, l)) one in
      (
        kept count (index + 1) mid out e' (omega arith) (index * bps - 2) (λ k l u. (
          λ h. omega (arith, apart k l, h, long, two),
          λ h. omega (arith, apart k l, h, long, two),
        ))
            ∙ (get-round round (index * bps - 2) long ∙ ground (arith, round.at_first, long)),
        kept count (index + 1) mid out e' (omega arith) (index * bps - 1) (λ k l u. (
          λ h. omega (arith, apart k l, h, long, two),
          λ h. omega (arith, apart k l, h, long, two),
        ))
            ∙ (get-round round (index * bps - 1) long ∙ ground (arith, round.at_second, long)),
      )

  tails :
      (count index : ℕ) (rec out : List ℕ)
      → fix_sectors usa_offset bps usn count index rec ≡ restored out
      → 1 ≤ index
      → usa_offset + (index + count) * 2 + 2 ≤ bps
      → (j : ℕ) → index ≤ j
      → j < index + count
      → (get_elem? out (j * bps - 2) ≡ get_elem? rec (usa_offset + j * 2))
        × (get_elem? out (j * bps - 1) ≡ get_elem? rec (usa_offset + j * 2 + 1))
  tails zero index rec out e one room j lo hi = absurd (omega (arith, lo, hi))
  tails (suc count) index rec out e one room j lo hi =
      let (mid, round, e') = rounds count index rec out e in
      let long : bps ≤ index * bps = grind (arith, two, one) in
      elim (Bool-cases (index == j)) [
        | inl same ↦ let at : j ≡ index = ground arith in rw at (own_tail count index rec out e one)
        | inr other ↦
            let past : index + 1 ≤ j = ground (arith, lo) in
            let (a, b) =
              tails count (index + 1) mid out e' (omega arith) (omega (arith, room)) j past
                (omega (arith, hi)) in
            (
              a
                  ∙ (get-round round (usa_offset + j * 2) (omega (arith, long, two))
                      ∙ ground (arith, long, hi, room)),
              b
                  ∙ (get-round round (usa_offset + j * 2 + 1) (omega (arith, long, two))
                      ∙ ground (arith, long, hi, room)),
            )
      ]

-- The update sequence ends before the last two bytes of the first sector.
abbrev pub HasRoom : List ℕ → ℕ → Type 0
HasRoom rec bps = le_u16 rec 4 + le_u16 rec 6 * 2 + 2 ≤ bps

-- When every sector of a record is found whole, and its update sequence ends before the tail of
-- the first sector, the last two bytes of each sector that the sequence covers are those that
-- it keeps for that sector.
pub apply_record_fixups-tail :
    (rec out : List ℕ) (bps : ℕ)
    → apply_record_fixups rec bps ≡ restored out
    → HasRoom rec bps
    → (j : ℕ) → 1 ≤ j
    → j < le_u16 rec 6
    → (get_elem? out (j * bps - 2) ≡ get_elem? rec (le_u16 rec 4 + j * 2))
      × (get_elem? out (j * bps - 1) ≡ get_elem? rec (le_u16 rec 4 + j * 2 + 1))
unfolding apply_record_fixups
apply_record_fixups-tail rec out bps e room j lo hi =
    let usn = take 2 (drop (le_u16 rec 4) rec) in
    let count = le_u16 rec 6 - 1 in
    let two : 2 ≤ bps = ground arith in
    let loop : fix_sectors (le_u16 rec 4) bps usn count 1 rec ≡ restored out = ground arith in
    tails (le_u16 rec 4) bps usn two count 1 rec out loop (omega arith)
      (omega (arith, room, lo, hi)) j lo (omega (arith, lo, hi))

-- When every sector of a record is found whole, each byte that is not one of the last two of a
-- sector that the update sequence covers is what it was.
pub apply_record_fixups-elsewhere :
    (rec out : List ℕ) (bps q : ℕ)
    → apply_record_fixups rec bps ≡ restored out
    → ((j : ℕ) → 1 ≤ j → j < le_u16 rec 6 → (q ≢ j * bps - 1) × (q ≢ j * bps - 2))
    → get_elem? out q ≡ get_elem? rec q
unfolding apply_record_fixups
apply_record_fixups-elsewhere rec out bps q e apart =
    let usn = take 2 (drop (le_u16 rec 4) rec) in
    let count = le_u16 rec 6 - 1 in
    let more : 2 ≤ le_u16 rec 6 = ground arith in
    let two : 2 ≤ bps = ground arith in
    let loop : fix_sectors (le_u16 rec 4) bps usn count 1 rec ≡ restored out = ground arith in
    kept (le_u16 rec 4) bps usn two count 1 rec out loop (omega arith) q
      (λ j lo hi. apart j lo (omega (arith, hi, more)))
