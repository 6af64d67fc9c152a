-- ===== src/Scanner/Ntfs/Fixups/Safe.antt =====
-- `apply_record_fixups` of src/WinBlaze.Scanner/src/ntfs.rs on any bytes.
use win_blaze.Base.{
  ℕ, zero, suc, ◌+◌, ◌-◌, ◌*◌, ◌≤◌, ◌<◌, ◌≡◌, false, ltb, ◌||◌, refl, ◌∙◌, ◌⊎◌, inl, inr,
  Bool-cases, some, List, arith, length, take, drop, get_elem?, get_elem?-of_lt, length-set,
}
use mathlib.Core.Path.{subst}
use win_blaze.Base.Text.{text_eq}
use win_blaze.Scanner.Ntfs.Fixups.{
  Fixed, restored, torn, panicked, u16_at, pair_at, tail_of, put_tail, fix_tail, fix_sector,
  fix_numbered, fix_sequence, fix_sectors, apply_record_fixups, le_u16,
}

-- A result that is no panic, with as many bytes as there were.
abbrev pub HasLength : ℕ → Fixed → Type 0
HasLength n (restored record') = length record' ≡ n
HasLength n (torn record') = length record' ≡ n
HasLength n panicked = ⊥

put_tail-HasLength :
    (record' : List ℕ) (sector_end i j : ℕ)
    → 2 ≤ sector_end
    → sector_end ≤ length record'
    → i < length record'
    → j < length record'
    → HasLength
        (length record')
        (put_tail record' sector_end (get_elem? record' i) (get_elem? record' j))
unfolding put_tail
put_tail-HasLength record' sector_end i j two inside h h' =
    let (a, e) = get_elem?-of_lt record' i h in
    let (b, e') = get_elem?-of_lt record' j h' in
    let fits : (ltb sector_end 2 || ltb (length record') sector_end) ≡ false =
      ground (arith, two, inside) in
    rw (e, e', fits) (length-set _ _ b ∙ length-set record' _ a)

tail_of-of_le :
    (record' : List ℕ) (sector_end : ℕ)
    → 2 ≤ sector_end
    → sector_end ≤ length record'
    → tail_of record' sector_end ≡ some (take 2 (drop (sector_end - 2) record'))
unfolding tail_of
tail_of-of_le record' sector_end two inside = ground (arith, two, inside)

fix_tail-HasLength :
    (usa_offset sector_end : ℕ) (usn : List ℕ) (index : ℕ) (record' tail : List ℕ)
    → 2 ≤ sector_end
    → sector_end ≤ length record'
    → usa_offset + index * 2 + 1 < length record'
    → HasLength (length record') (fix_tail usa_offset sector_end usn index record' (some tail))
unfolding fix_tail
fix_tail-HasLength usa_offset sector_end usn index record' tail two inside h =
    elim (Bool-cases (text_eq tail usn)) [
      | inr other ↦ rw other refl
      | inl same ↦ rw same (
          put_tail-HasLength record' sector_end (usa_offset + index * 2)
            (usa_offset + index * 2 + 1) two inside (omega (arith, h)) h)
    ]

fix_sector-HasLength :
    (usa_offset bps : ℕ) (usn : List ℕ) (index : ℕ) (record' : List ℕ)
    → 2 ≤ index * bps
    → usa_offset + index * 2 + 1 < length record'
    → HasLength (length record') (fix_sector usa_offset bps usn index record')
unfolding fix_sector
fix_sector-HasLength usa_offset bps usn index record' two h =
    elim (Bool-cases (ltb (length record') (index * bps))) [
      | inl past ↦ rw past refl
      | inr e ↦
          let inside : index * bps ≤ length record' = ground arith in
          rw (tail_of-of_le record' (index * bps) two inside, e)
            (fix_tail-HasLength usa_offset (index * bps) usn index record' _ two inside h)
    ]

pub Fixed-cases :
    (f : Fixed) → ((r : List ℕ) × (f ≡ restored r)) ⊎ ((r : List ℕ) × (f ≡ torn r)) ⊎ (f ≡ panicked)
Fixed-cases (restored r) = inl (r, refl)
Fixed-cases (torn r) = inr (inl (r, refl))
Fixed-cases panicked = inr (inr refl)

fix_sectors-HasLength :
    (usa_offset bps : ℕ) (usn : List ℕ) (count index : ℕ) (record' : List ℕ)
    → 2 ≤ bps
    → 1 ≤ index
    → usa_offset + (index + count) * 2 ≤ length record'
    → HasLength (length record') (fix_sectors usa_offset bps usn count index record')
unfolding fix_sectors
fix_sectors-HasLength usa_offset bps usn zero index record' two first h = refl
fix_sectors-HasLength usa_offset bps usn (suc count) index record' two first h =
    let one =
      fix_sector-HasLength usa_offset bps usn index record' (grind (arith, two, first))
        (omega (arith, h)) in
    elim (Fixed-cases (fix_sector usa_offset bps usn index record')) [
      | inr (inr e) ↦ absurd (rw e at one)
      | inr (inl (r, e)) ↦ rw (e, fix_sectors) (rw e at one)
      | inl (r, e) ↦
          let same : length r ≡ length record' = rw e at one in
          rw (e, fix_sectors)
            (subst (λ n. HasLength n (fix_sectors usa_offset bps usn count (index + 1) r)) same
              (fix_sectors-HasLength usa_offset bps usn count (index + 1) r two (omega arith)
                (omega (arith, h, same))))
    ]

u16_at-of_le :
    (record' : List ℕ) (offset : ℕ)
    → offset + 2 ≤ length record'
    → u16_at record' offset ≡ some (le_u16 record' offset)
unfolding u16_at
u16_at-of_le record' offset h = ground (arith, h)

pair_at-of_le :
    (record' : List ℕ) (offset : ℕ)
    → offset + 2 ≤ length record'
    → pair_at record' offset ≡ some (take 2 (drop offset record'))
unfolding pair_at
pair_at-of_le record' offset h = ground (arith, h)

fix_sequence-HasLength :
    (record' : List ℕ) (bps usa_offset usa_count : ℕ)
    → 2 ≤ bps
    → HasLength (length record') (fix_sequence record' bps (some usa_offset) (some usa_count))
unfolding fix_sequence fix_numbered
fix_sequence-HasLength record' bps usa_offset usa_count two =
    elim (Bool-cases (ltb usa_count 2 || ltb (length record') (usa_offset + usa_count * 2))) [
      | inl e ↦ rw e refl
      | inr e ↦
          let more : 2 ≤ usa_count = ground arith in
          let room : usa_offset + usa_count * 2 ≤ length record' = ground arith in
          rw (e, pair_at-of_le record' usa_offset (omega (arith, more, room)))
            (fix_sectors-HasLength usa_offset bps _ (usa_count - 1) 1 record' two (omega arith)
              (omega (arith, more, room)))
    ]

-- Restoring the sectors of a record indexes nothing past its end and keeps its length, whatever
-- its bytes and the sector size.
pub apply_record_fixups-HasLength :
    (record' : List ℕ) (bps : ℕ) → HasLength (length record') (apply_record_fixups record' bps)
unfolding apply_record_fixups
apply_record_fixups-HasLength record' bps =
    elim (Bool-cases (ltb (length record') 8 || ltb bps 2)) [
      | inl e ↦ rw e refl
      | inr e ↦
          let long : 8 ≤ length record' = ground arith in
          let two : 2 ≤ bps = ground arith in
          rw (e, u16_at-of_le record' 4 (omega (arith, long)), u16_at-of_le record' 6 long)
            (fix_sequence-HasLength record' bps (le_u16 record' 4) (le_u16 record' 6) two)
    ]
