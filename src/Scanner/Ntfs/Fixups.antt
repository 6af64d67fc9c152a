-- ===== src/Scanner/Ntfs/Fixups.antt =====
-- `apply_record_fixups` and `apply_mft_fixups` of src/WinBlaze.Scanner/src/ntfs.rs. The slice that is
-- changed in place is passed on. An index or a slice out of its range is the panic of the source. The
-- product `index * bytes_per_sector` is exact: a sector size has at most 32 bits there, a count 16.
pub mod Safe
pub mod Buffer
pub mod Restored
use win_blaze.Base.{
  ℕ, zero, suc, ◌+◌, ◌-◌, ◌*◌, ◌/◌, ◌≤◌, ◌<◌, Bool, true, false, not, ◌&&◌, ◌||◌, Option, none,
  some, List, [], ◌∷◌, ◌++◌, ltb, leb, ◌==◌, if◌then◌else◌, length, take, drop, get_elem?, set,
  get_or,
}
use win_blaze.Base.Bytes.{from_le_bytes}
use win_blaze.Base.Text.{text_eq}

abbrev pub ntfs_record_size : ℕ
ntfs_record_size = 1024

-- b"FILE"
abbrev pub file_record_signature : List ℕ
file_record_signature = b'F' ∷ b'I' ∷ b'L' ∷ b'E' ∷ []

-- What is left of the record, and whether every sector was whole.
pub data Fixed : Type 0 where
  restored torn : List ℕ → Fixed
  panicked : Fixed

-- The word at an offset in the record.
unfoldable pub le_u16 : List ℕ → ℕ → ℕ
le_u16 record' offset = from_le_bytes (take 2 (drop offset record'))

-- `u16::from_le_bytes([record[offset], record[offset + 1]])`; nothing is a panic, here and below.
unfoldable pub u16_at : List ℕ → ℕ → Option ℕ
unfolding le_u16
u16_at record' offset =
    if ltb (length record') (offset + 2) then none else some (le_u16 record' offset)

-- `[record[offset], record[offset + 1]]`
unfoldable pub pair_at : List ℕ → ℕ → Option (List ℕ)
pair_at record' offset =
    if ltb (length record') (offset + 2) then none else some (take 2 (drop offset record'))

-- `record[sector_end - 2..sector_end]`
unfoldable pub tail_of : List ℕ → ℕ → Option (List ℕ)
tail_of record' sector_end =
    if ltb sector_end 2 || ltb (length record') sector_end
    then none
    else some (take 2 (drop (sector_end - 2) record'))

-- The two writes at the end of the sector.
unfoldable pub put_tail : List ℕ → ℕ → Option ℕ → Option ℕ → Fixed
put_tail record' sector_end (some a) (some b) =
    if ltb sector_end 2 || ltb (length record') sector_end
    then panicked
    else restored (set (set record' (sector_end - 2) a) (sector_end - 1) b)
put_tail record' sector_end _ _ = panicked

unfoldable pub fix_tail : ℕ → ℕ → List ℕ → ℕ → List ℕ → Option (List ℕ) → Fixed
unfolding put_tail
fix_tail usa_offset sector_end usn index record' none = panicked
fix_tail usa_offset sector_end usn index record' (some tail) =
    if not (text_eq tail usn)
    then torn record'
    else put_tail record' sector_end (get_elem? record' (usa_offset + index * 2))
        (get_elem? record' (usa_offset + index * 2 + 1))

-- One round of the loop over the sectors.
unfoldable pub fix_sector : ℕ → ℕ → List ℕ → ℕ → List ℕ → Fixed
unfolding tail_of fix_tail
fix_sector usa_offset bytes_per_sector usn index record' =
    let sector_end = index * bytes_per_sector in
    if ltb (length record') sector_end
    then torn record'
    else fix_tail usa_offset sector_end usn index record' (tail_of record' sector_end)

-- `count` rounds, from `index` on
unfoldable pub fix_sectors : ℕ → ℕ → List ℕ → ℕ → ℕ → List ℕ → Fixed
unfolding fix_sector
fix_sectors usa_offset bytes_per_sector usn zero index record' = restored record'
fix_sectors usa_offset bytes_per_sector usn (suc count) index record' =
    elim (fix_sector usa_offset bytes_per_sector usn index record') [
      | restored fixed ↦ fix_sectors usa_offset bytes_per_sector usn count (index + 1) fixed
      | torn left ↦ torn left
      | panicked ↦ panicked
    ]

unfoldable pub fix_numbered : List ℕ → ℕ → ℕ → ℕ → Option (List ℕ) → Fixed
unfolding fix_sectors
fix_numbered record' bytes_per_sector usa_offset usa_count none = panicked
fix_numbered record' bytes_per_sector usa_offset usa_count (some usn) =
    fix_sectors usa_offset bytes_per_sector usn (usa_count - 1) 1 record'

unfoldable pub fix_sequence : List ℕ → ℕ → Option ℕ → Option ℕ → Fixed
unfolding pair_at fix_numbered
fix_sequence record' bytes_per_sector (some usa_offset) (some usa_count) =
    if ltb usa_count 2 || ltb (length record') (usa_offset + usa_count * 2)
    then torn record'
    else fix_numbered record' bytes_per_sector usa_offset usa_count (pair_at record' usa_offset)
fix_sequence record' bytes_per_sector _ _ = panicked

unfoldable pub apply_record_fixups : List ℕ → ℕ → Fixed
unfolding u16_at fix_sequence
apply_record_fixups record' bytes_per_sector =
    if ltb (length record') 8 || ltb bytes_per_sector 2
    then torn record'
    else fix_sequence record' bytes_per_sector (u16_at record' 4) (u16_at record' 6)

-- `record[0..4].copy_from_slice(b"BAAD")`
unfoldable pub mark_bad : List ℕ → List ℕ
mark_bad record' = (b'B' ∷ b'A' ∷ b'A' ∷ b'D' ∷ []) ++ drop 4 record'

-- What a record becomes; nothing if the source panics.
unfoldable pub fix_record : ℕ → List ℕ → Option (List ℕ)
unfolding apply_record_fixups mark_bad
fix_record bytes_per_sector record' =
    if text_eq (take 4 record') file_record_signature
    then elim (apply_record_fixups record' bytes_per_sector) [
      | restored fixed ↦ some fixed
      | torn left ↦ some (mark_bad left)
      | panicked ↦ none
    ]
    else some record'

joined : Option (List ℕ) → Option (List ℕ) → Option (List ℕ)
joined (some record') (some rest) = some (record' ++ rest)
joined _ _ = none

-- The loop over as many records as the buffer holds whole.
unfoldable pub fix_records : ℕ → ℕ → List ℕ → Option (List ℕ)
unfolding fix_record joined
fix_records bytes_per_sector zero batch = some batch
fix_records bytes_per_sector (suc count) batch =
    let rest = fix_records bytes_per_sector count (drop ntfs_record_size batch) in
    if ltb (length batch) ntfs_record_size
    then none
    else joined (fix_record bytes_per_sector (take ntfs_record_size batch)) rest

unfoldable pub apply_mft_fixups : List ℕ → ℕ → Option (List ℕ)
unfolding fix_records
apply_mft_fixups batch bytes_per_sector =
    fix_records bytes_per_sector (length batch / ntfs_record_size) batch
