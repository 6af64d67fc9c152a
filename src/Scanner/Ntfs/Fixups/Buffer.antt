-- ===== src/Scanner/Ntfs/Fixups/Buffer.antt =====
-- `apply_mft_fixups` of src/WinBlaze.Scanner/src/ntfs.rs on any buffer.
use mathlib.Core.Path.{subst}
use win_blaze.Base.{
  ℕ, zero, suc, ◌+◌, ◌*◌, ◌/◌, ◌≤◌, ◌<◌, ◌≡◌, refl, sym, ap, ◌∙◌, inl, inr, false, Bool-cases,
  Option, some, List, ◌++◌, arith, ltb, length, take, drop, length-append, length-drop, length-take,
  take-append_of_eq, drop-append_of_eq, drop-drop,
}
use win_blaze.Base.Text.{text_eq}
use win_blaze.Scanner.Ntfs.Fixups.{
  file_record_signature, apply_record_fixups, mark_bad, fix_record, joined, fix_records,
  apply_mft_fixups,
}
use win_blaze.Scanner.Ntfs.Fixups.Safe.{Fixed-cases, apply_record_fixups-HasLength}

HasSize : ℕ → Option (List ℕ) → Type 0
HasSize n o = (out : List ℕ) × (o ≡ some out) × (length out ≡ n)

fix_record-HasSize :
    (bps : ℕ) (record' : List ℕ)
    → 4 ≤ length record'
    → HasSize (length record') (fix_record bps record')
unfolding fix_record HasSize
fix_record-HasSize bps record' h =
    let all = apply_record_fixups-HasLength record' bps in
    elim (Bool-cases (text_eq (take 4 record') file_record_signature)) [
      | inr e ↦ (record', rw e refl, refl)
      | inl signed ↦ elim (Fixed-cases (apply_record_fixups record' bps)) [
        | inr (inr e) ↦ absurd (rw e at all)
        | inr (inl (r, e)) ↦ (
          mark_bad r,
          rw (signed, e, fix_record) refl,
          unfold mark_bad in omega (arith, h, rw e at all, length-drop 4 r),
        )
        | inl (r, e) ↦ (r, rw (signed, e, fix_record) refl, rw e at all)
      ]
    ]

-- The `k`th record of a buffer.
abbrev pub record_at : ℕ → List ℕ → List ℕ
record_at k batch = take 1024 (drop (k * 1024) batch)

drop-suc : (k : ℕ) (batch : List ℕ) → drop (suc k * 1024) batch ≡ drop (k * 1024) (drop 1024 batch)
drop-suc k batch =
    let e : suc k * 1024 ≡ 1024 + k * 1024 = omega arith in
    ap (λ n. drop n batch) e ∙ drop-drop 1024 (k * 1024) batch

-- The first records of a buffer are fixed one by one, and what is behind them is left alone.
abbrev pub FixesEach : ℕ → ℕ → List ℕ → Option (List ℕ) → Type 0
FixesEach bps count batch fixed =
    (out : List ℕ) × (fixed ≡ some out)
    × (length out ≡ length batch)
    × (drop (count * 1024) out ≡ drop (count * 1024) batch)
    × ((k : ℕ) → k < count → fix_record bps (record_at k batch) ≡ some (record_at k out))

module _ (bps count : ℕ) (batch x y : List ℕ) (first : length x ≡ 1024) where
  record_at-join :
      fix_record bps (take 1024 batch) ≡ some x
      → ((k : ℕ)
          → k < count
          → fix_record bps (record_at k (drop 1024 batch)) ≡ some (record_at k y))
      → (k : ℕ) → k < suc count
      → fix_record bps (record_at k batch) ≡ some (record_at k (x ++ y))
  record_at-join e each zero lt =
      let start : 0 * 1024 ≡ 0 = omega arith in
      subst (λ n. fix_record bps (take 1024 (drop n batch)) ≡ some (take 1024 (drop n (x ++ y))))
        (sym start) (e ∙ ap some (sym (take-append_of_eq 1024 x y first)))
  record_at-join e each (suc k) lt =
      ap (λ r. fix_record bps (take 1024 r)) (drop-suc k batch)
      ∙ (each k (omega (arith, lt))
          ∙ ap (λ r. some (take 1024 r))
              (ap (drop (k * 1024)) (sym (drop-append_of_eq 1024 x y first))
                ∙ sym (drop-suc k (x ++ y))))

ltb-of_le : (m n : ℕ) → n ≤ m → ltb m n ≡ false
ltb-of_le m n h = ground (arith, h)

fix_records-suc :
    (bps count : ℕ) (batch x y : List ℕ)
    → 1024 ≤ length batch
    → fix_record bps (take 1024 batch) ≡ some x
    → fix_records bps count (drop 1024 batch) ≡ some y
    → fix_records bps (suc count) batch ≡ some (x ++ y)
unfolding fix_records joined
fix_records-suc bps count batch x y h e e' = rw (ltb-of_le (length batch) 1024 h, e, e') refl

fix_records-FixesEach :
    (bps count : ℕ) (batch : List ℕ)
    → count * 1024 ≤ length batch
    → FixesEach bps count batch (fix_records bps count batch)
unfolding fix_records HasSize
fix_records-FixesEach bps zero batch h =
    (batch, refl, refl, refl, λ k lt. absurd (omega (arith, lt)))
fix_records-FixesEach bps (suc count) batch h =
    let size : length (take 1024 batch) ≡ 1024 = omega (arith, h, length-take 1024 batch) in
    let (x, e, l) = fix_record-HasSize bps (take 1024 batch) (omega (arith, size)) in
    let (y, e', l', behind, each) =
      fix_records-FixesEach bps count (drop 1024 batch)
        (omega (arith, h, length-drop 1024 batch)) in
    let first : length x ≡ 1024 = l ∙ size in
    (
      x ++ y,
      fix_records-suc bps count batch x y (omega (arith, h)) e e',
      omega (arith, length-append x y, first, l', h, length-drop 1024 batch),
      drop-suc count (x ++ y)
          ∙ (ap (drop (count * 1024)) (drop-append_of_eq 1024 x y first)
              ∙ (behind ∙ sym (drop-suc count batch))),
      record_at-join bps count batch x y first e each,
    )

-- A buffer of any bytes, with any sector size, comes out of the fixups with no panic and as
-- long as it was: each of its whole records is what its own fixup makes of it, and the bytes
-- behind the last whole record are what they were.
pub apply_mft_fixups-fix_record :
    (batch : List ℕ) (bps : ℕ)
    → FixesEach bps (length batch / 1024) batch (apply_mft_fixups batch bps)
unfolding apply_mft_fixups
apply_mft_fixups-fix_record batch bps =
    fix_records-FixesEach bps (length batch / 1024) batch (omega arith)
