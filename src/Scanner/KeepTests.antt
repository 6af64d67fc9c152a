-- ===== src/Scanner/KeepTests.antt =====
-- A run of the skip of free records.
use win_blaze.Base.{ℕ, refl, List, [], ◌∷◌, ◌≡◌, true, some, arith}
use win_blaze.Base.Bits.{has_bit}
use win_blaze.Scanner.Ntfs.Extents.{mft_record_physical_offset}
use win_blaze.Scanner.Ntfs.Extents.Trimmed.{covered}
use win_blaze.Scanner.Ntfs.Keep.{mft_keep_extents}
use win_blaze.Scanner.Ntfs.Keep.Grown.{Covers}
use win_blaze.Scanner.Ntfs.Keep.Kept.{mft_keep_extents-Covers}

-- Records 0 and 5 are in use, of two records in a cluster.
abbrev bitmap : List ℕ
bitmap = 33 ∷ []

abbrev extents : List (ℕ × ℕ)
extents = (4096, 4096) ∷ (20480, 4096) ∷ []

kept_extents : mft_keep_extents extents bitmap 2048 2048 ≡ (4096, 2048) ∷ (20480, 2048) ∷ []
unfolding mft_keep_extents
kept_extents = refl

extents-covered : covered extents ≡ 8192
unfolding covered
extents-covered = refl

bit_of_record : has_bit 5 33 ≡ true
unfolding has_bit
bit_of_record = refl

place_of_record : mft_record_physical_offset extents 5 ≡ some 21504
unfolding mft_record_physical_offset
place_of_record = refl

mft_keep_extents-Covers_example : Covers (mft_keep_extents extents bitmap 2048 2048) 21504 1024
mft_keep_extents-Covers_example =
    mft_keep_extents-Covers extents bitmap 2 2048 5 33 21504 (omega arith)
      (omega arith, (omega arith, tt)) (refl, (refl, tt)) (omega (arith, extents-covered))
      (omega (arith, extents-covered)) refl bit_of_record place_of_record
