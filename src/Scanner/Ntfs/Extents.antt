-- ===== src/Scanner/Ntfs/Extents.antt =====
-- `trim_extents_to_valid_length` and `mft_record_physical_offset` of
-- src/WinBlaze.Scanner/src/ntfs.rs. Unchecked sums wrap at 64 bits.
pub mod Trimmed
use win_blaze.Base.{
  ℕ, ◌+◌, ◌-◌, ◌*◌, ◌/◌, ◌%◌, ◌^◌, ◌≤◌, min, Bool, ◌||◌, Option, none, some, List, [], ◌∷◌, ltb,
  leb, ◌==◌, if◌then◌else◌,
}
use win_blaze.Base.Bytes.{u64_max}

-- `valid_len.div_ceil(cluster).saturating_mul(cluster)`
unfoldable pub valid_cap : ℕ → ℕ → ℕ
valid_cap valid_len cluster = min u64_max ((valid_len + (cluster - 1)) / cluster * cluster)

-- The loop and the truncation: the extents up to `keep`, the last one cut. `cumulative` stays below
-- the cap, so that its sum does not wrap.
unfoldable pub trim_from : ℕ → ℕ → List (ℕ × ℕ) → List (ℕ × ℕ)
trim_from cap cumulative [] = []
trim_from cap cumulative ((start, size) ∷ extents) =
    let remaining = cap - cumulative in
    let rest = trim_from cap (cumulative + size) extents in
    if remaining == 0
    then []
    else if leb size remaining
    then (start, size) ∷ rest
    else (start, remaining) ∷ []

-- `if keep > 0`
keep_some : List (ℕ × ℕ) → List (ℕ × ℕ) → List (ℕ × ℕ)
keep_some [] extents = extents
keep_some (kept ∷ rest) extents = kept ∷ rest

unfoldable pub trim_extents_to_valid_length : List (ℕ × ℕ) → ℕ → ℕ → List (ℕ × ℕ)
unfolding trim_from keep_some valid_cap
trim_extents_to_valid_length extents valid_len cluster =
    if cluster == 0 || (valid_len == 0 || valid_len == u64_max)
    then extents
    else keep_some (trim_from (valid_cap valid_len cluster) 0 extents) extents

unfoldable pub offset_from : ℕ → ℕ → List (ℕ × ℕ) → Option ℕ
offset_from target logical [] = none
offset_from target logical ((start, size) ∷ extents) =
    let rest = offset_from target ((logical + size) % 2 ^ 64) extents in
    if ltb target ((logical + size) % 2 ^ 64)
    then some ((start + (target + 2 ^ 64 - logical) % 2 ^ 64) % 2 ^ 64)
    else rest

unfoldable pub mft_record_physical_offset : List (ℕ × ℕ) → ℕ → Option ℕ
unfolding offset_from
mft_record_physical_offset data_extents number = offset_from (number * 1024 % 2 ^ 64) 0 data_extents
