-- ===== src/Scanner/Tests.antt =====
-- The theorems about src/WinBlaze.Scanner at concrete inputs.
use win_blaze.Base.{
  ℕ, ◌+◌, ◌*◌, ◌/◌, ◌-◌, ◌≡◌, ◌≢◌, refl, ◌^◌, ◌<◌, min, List, [], ◌∷◌, ◌++◌, arith, length,
  replicate, get_elem?, All,
}
use win_blaze.Base.Int.{pos, negsuc, ◌+ℤ◌}
use win_blaze.Base.Bytes.{to_le_bytes, from_le_bytes, bits_i64}
use win_blaze.Base.Text.{text_eq}
use win_blaze.Scanner.Ntfs.Runs.{ok, exhausted, decode_data_runs, sign_extend}
use win_blaze.Scanner.Ntfs.Runs.Sign.{signed_bits, sign_extend-signed_bits}
use win_blaze.Scanner.Ntfs.Runs.Sound.{
  IsExtent, decode_data_runs-ne-exhausted, decode_data_runs_sound,
}
use win_blaze.Scanner.Ntfs.Runs.Complete.{
  Run, IsRun, Laid, done, run, write_runs, decode_data_runs-write_runs,
}
use win_blaze.Scanner.Ntfs.Extents.{trim_extents_to_valid_length, mft_record_physical_offset}
use win_blaze.Scanner.Ntfs.Extents.Trimmed.{
  covered, mft_record_physical_offset-trim_extents, covered-trim_extents,
}
use win_blaze.Scanner.Ntfs.Fixups.{restored, le_u16, apply_record_fixups, apply_mft_fixups}
use win_blaze.Scanner.Ntfs.Fixups.Buffer.{FixesEach, apply_mft_fixups-fix_record}
use win_blaze.Scanner.Ntfs.Fixups.Restored.{apply_record_fixups-tail, apply_record_fixups-elsewhere}
use win_blaze.Scanner.Ntfs.Checked.{panicked}
use win_blaze.Scanner.Ntfs.FileName.{parse_file_name}
use win_blaze.Scanner.Ntfs.Records.{parse_record}
use win_blaze.Scanner.Ntfs.Records.Outcome.{IsTotal, parse_file_name-IsTotal}

-- Two runs: 16 clusters at cluster 16384, then 4 clusters 16 clusters before.
abbrev first_run : Run
first_run = record { length_size = 1; offset_size = 2; clusters = 16; delta = pos 16384 }

abbrev second_run : Run
second_run = record { length_size = 1; offset_size = 1; clusters = 4; delta = negsuc 15 }

abbrev extents : List (ℕ × ℕ)
extents = (67108864, 65536) ∷ (67043328, 16384) ∷ []

first_run-IsRun : IsRun first_run
first_run-IsRun = record {
  length_pos = omega arith;
  length_max = omega arith;
  offset_pos = omega arith;
  offset_max = omega arith;
  clusters_pos = omega arith;
  clusters_fit = omega arith;
  delta_fits = omega arith;
}

second_run-IsRun : IsRun second_run
second_run-IsRun = record {
  length_pos = omega arith;
  length_max = omega arith;
  offset_pos = omega arith;
  offset_max = omega arith;
  clusters_pos = omega arith;
  clusters_fit = omega arith;
  delta_fits = omega arith;
}

runs-Laid : Laid 4096 (pos 0) (first_run ∷ second_run ∷ []) extents
unfolding ◌+ℤ◌
runs-Laid =
    run 16384 first_run-IsRun refl (omega arith) refl (omega arith) refl (omega arith)
      (run 16368 second_run-IsRun refl (omega arith) refl (omega arith) refl (omega arith) done)

decode_data_runs-write_runs_example :
    decode_data_runs (write_runs (first_run ∷ second_run ∷ []) ++ 0 ∷ 0xff ∷ []) 4096 ≡ ok extents
decode_data_runs-write_runs_example =
    decode_data_runs-write_runs 4096 (0xff ∷ []) (first_run ∷ second_run ∷ []) extents runs-Laid
      (λ e. cc)

-- The bytes of those runs.
write_runs_test :
    write_runs (first_run ∷ second_run ∷ []) ≡ 0x21 ∷ 0x10 ∷ 0x00 ∷ 0x40 ∷ 0x11 ∷ 0x04 ∷ 0xf0 ∷ []
unfolding write_runs to_le_bytes signed_bits
write_runs_test = refl

decoded :
    decode_data_runs (0x21 ∷ 0x10 ∷ 0x00 ∷ 0x40 ∷ 0x11 ∷ 0x04 ∷ 0xf0 ∷ 0x00 ∷ []) 4096 ≡ ok extents
unfolding decode_data_runs from_le_bytes bits_i64 ◌+ℤ◌
decoded = refl

decode_data_runs_sound_example : All (IsExtent 4096) extents × (extents ≢ [])
decode_data_runs_sound_example =
    decode_data_runs_sound (0x21 ∷ 0x10 ∷ 0x00 ∷ 0x40 ∷ 0x11 ∷ 0x04 ∷ 0xf0 ∷ 0x00 ∷ []) 4096 extents
      decoded

decode_data_runs-ne-exhausted_example : decode_data_runs (0x31 ∷ 0x08 ∷ []) 4096 ≢ exhausted
decode_data_runs-ne-exhausted_example = decode_data_runs-ne-exhausted (0x31 ∷ 0x08 ∷ []) 4096

sign_extend-signed_bits_example : sign_extend 1 (signed_bits 1 (negsuc 15)) ≡ negsuc 15
sign_extend-signed_bits_example =
    sign_extend-signed_bits 1 (negsuc 15) (omega arith) (omega arith) (omega arith)

-- The extents are cut after five clusters.
abbrev mft_extents : List (ℕ × ℕ)
mft_extents = (0x1000, 16384) ∷ (0x9000, 16384) ∷ []

mft_extents-covered : covered mft_extents < 2 ^ 64
unfolding covered
mft_extents-covered = omega arith

mft_record_physical_offset-trim_extents_example :
    mft_record_physical_offset (trim_extents_to_valid_length mft_extents 20480 4096) 17
    ≡ mft_record_physical_offset mft_extents 17
mft_record_physical_offset-trim_extents_example =
    mft_record_physical_offset-trim_extents mft_extents 20480 4096 17 mft_extents-covered
      (omega arith) (omega arith)

covered-trim_extents_example :
    covered (trim_extents_to_valid_length mft_extents 20000 4096)
    ≡ min (5 * 4096) (covered mft_extents)
covered-trim_extents_example =
    covered-trim_extents mft_extents 20000 4096 5 (omega arith) (omega arith) (omega arith)
      (omega arith) (omega arith)

trim_extents_test :
    trim_extents_to_valid_length mft_extents 20480 4096 ≡ (0x1000, 16384) ∷ (0x9000, 4096) ∷ []
unfolding trim_extents_to_valid_length
trim_extents_test = refl

-- A record of two sectors of sixteen bytes, with its update sequence at byte 8.
abbrev sectors : List ℕ
sectors =
    b'F' ∷ b'I' ∷ b'L' ∷ b'E' ∷ 8 ∷ 0 ∷ 3 ∷ 0 ∷ 9 ∷ 1 ∷ 21 ∷ 22 ∷ 23 ∷ 24 ∷ 9 ∷ 1 ∷ 0 ∷ 0 ∷ 0 ∷ 0
    ∷ 0 ∷ 0 ∷ 0 ∷ 0 ∷ 0 ∷ 0 ∷ 0 ∷ 0 ∷ 0 ∷ 0 ∷ 9 ∷ 1 ∷ []

abbrev whole : List ℕ
whole =
    b'F' ∷ b'I' ∷ b'L' ∷ b'E' ∷ 8 ∷ 0 ∷ 3 ∷ 0 ∷ 9 ∷ 1 ∷ 21 ∷ 22 ∷ 23 ∷ 24 ∷ 21 ∷ 22 ∷ 0 ∷ 0 ∷ 0 ∷ 0
    ∷ 0 ∷ 0 ∷ 0 ∷ 0 ∷ 0 ∷ 0 ∷ 0 ∷ 0 ∷ 0 ∷ 0 ∷ 23 ∷ 24 ∷ []

sectors_restored : apply_record_fixups sectors 16 ≡ restored whole
unfolding apply_record_fixups from_le_bytes text_eq
sectors_restored = refl

sectors_sequence : (le_u16 sectors 4 ≡ 8) × (le_u16 sectors 6 ≡ 3)
unfolding le_u16 from_le_bytes
sectors_sequence = (refl, refl)

apply_record_fixups-tail_example :
    (get_elem? whole (2 * 16 - 2) ≡ get_elem? sectors (le_u16 sectors 4 + 2 * 2))
    × (get_elem? whole (2 * 16 - 1) ≡ get_elem? sectors (le_u16 sectors 4 + 2 * 2 + 1))
apply_record_fixups-tail_example =
    apply_record_fixups-tail sectors whole 16 sectors_restored
      (omega (arith, sectors_sequence.0, sectors_sequence.1)) 2 (omega arith)
      (omega (arith, sectors_sequence.1))

apply_record_fixups-elsewhere_example : get_elem? whole 10 ≡ get_elem? sectors 10
apply_record_fixups-elsewhere_example =
    apply_record_fixups-elsewhere sectors whole 16 10 sectors_restored
      (λ j lo hi. (λ e. omega (arith, e, lo), λ e. omega (arith, e, lo)))

abbrev batch : List ℕ
batch = sectors ++ replicate 1000 7

apply_mft_fixups-fix_record_example :
    FixesEach 16 (length batch / 1024) batch (apply_mft_fixups batch 16)
apply_mft_fixups-fix_record_example = apply_mft_fixups-fix_record batch 16

parse_file_name-IsTotal_example : IsTotal (parse_file_name (replicate 68 1))
parse_file_name-IsTotal_example = parse_file_name-IsTotal (replicate 68 1)

-- A record in use whose first attribute starts at byte 1016, of type 1 and eight bytes long.
abbrev short_record : List ℕ
short_record =
    b'F'
    ∷ b'I'
    ∷ b'L'
    ∷ b'E'
    ∷ (replicate 16 0 ++ 0xf8 ∷ 3 ∷ 1 ∷ 0 ∷ (replicate 992 0 ++ 1 ∷ 0 ∷ 0 ∷ 0 ∷ 8 ∷ 0 ∷ 0 ∷ 0 ∷ []))

-- The walk reads the form of an attribute whose first eight bytes are the last of the record, and
-- panics.
parse_record_panics : parse_record short_record ≡ panicked
unfolding parse_record from_le_bytes text_eq
parse_record_panics = refl
