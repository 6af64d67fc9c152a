-- ===== src/Scanner/Ntfs/Runs/Sign.antt =====
-- The shift left and the arithmetic shift right extend the sign of a 1 to 8 byte offset.
use win_blaze.Base.{ℕ, zero, suc, ◌-◌, ◌*◌, ◌^◌, ◌≤◌, ◌<◌, ◌≡◌, arith}
use win_blaze.Base.Int.{ℤ, pos, negsuc}
use win_blaze.Base.Bytes.{bits_i64}
use win_blaze.Scanner.Ntfs.Runs.{sign_extend}

-- The two's complement of a number in `size` bytes, and the numbers that have one.
unfoldable pub signed_bits : ℕ → ℤ → ℕ
signed_bits size (pos n) = n
signed_bits size (negsuc n) = 256 ^ size - 1 - n

abbrev pub HasBytes : ℕ → ℤ → Type 0
HasBytes size (pos n) = 2 * n < 256 ^ size
HasBytes size (negsuc n) = 2 * n < 256 ^ size

pub signed_bits-lt : (size : ℕ) (z : ℤ) → HasBytes size z → signed_bits size z < 256 ^ size
unfolding signed_bits
signed_bits-lt size (pos n) h = omega arith
signed_bits-lt size (negsuc n) h = omega arith

extend_1 : (z : ℤ) → HasBytes 1 z → sign_extend 1 (signed_bits 1 z) ≡ z
unfolding sign_extend signed_bits bits_i64
extend_1 (pos n) h = ground arith
extend_1 (negsuc n) h = ground arith

extend_2 : (z : ℤ) → HasBytes 2 z → sign_extend 2 (signed_bits 2 z) ≡ z
unfolding sign_extend signed_bits bits_i64
extend_2 (pos n) h = ground arith
extend_2 (negsuc n) h = ground arith

extend_3 : (z : ℤ) → HasBytes 3 z → sign_extend 3 (signed_bits 3 z) ≡ z
unfolding sign_extend signed_bits bits_i64
extend_3 (pos n) h = ground arith
extend_3 (negsuc n) h = ground arith

extend_4 : (z : ℤ) → HasBytes 4 z → sign_extend 4 (signed_bits 4 z) ≡ z
unfolding sign_extend signed_bits bits_i64
extend_4 (pos n) h = ground arith
extend_4 (negsuc n) h = ground arith

extend_5 : (z : ℤ) → HasBytes 5 z → sign_extend 5 (signed_bits 5 z) ≡ z
unfolding sign_extend signed_bits bits_i64
extend_5 (pos n) h = ground arith
extend_5 (negsuc n) h = ground arith

extend_6 : (z : ℤ) → HasBytes 6 z → sign_extend 6 (signed_bits 6 z) ≡ z
unfolding sign_extend signed_bits bits_i64
extend_6 (pos n) h = ground arith
extend_6 (negsuc n) h = ground arith

extend_7 : (z : ℤ) → HasBytes 7 z → sign_extend 7 (signed_bits 7 z) ≡ z
unfolding sign_extend signed_bits bits_i64
extend_7 (pos n) h = ground arith
extend_7 (negsuc n) h = ground arith

extend_8 : (z : ℤ) → HasBytes 8 z → sign_extend 8 (signed_bits 8 z) ≡ z
unfolding sign_extend signed_bits bits_i64
extend_8 (pos n) h = ground arith
extend_8 (negsuc n) h = ground arith

-- The shift to the left and the arithmetic shift to the right turn the two's complement of a
-- number in one to eight bytes into that number.
pub sign_extend-signed_bits :
    (size : ℕ) (z : ℤ)
    → 0 < size
    → size ≤ 8
    → HasBytes size z
    → sign_extend size (signed_bits size z) ≡ z
sign_extend-signed_bits zero z lo hi h = absurd (omega arith)
sign_extend-signed_bits (suc zero) z lo hi h = extend_1 z h
sign_extend-signed_bits (suc (suc zero)) z lo hi h = extend_2 z h
sign_extend-signed_bits (suc (suc (suc zero))) z lo hi h = extend_3 z h
sign_extend-signed_bits (suc (suc (suc (suc zero)))) z lo hi h = extend_4 z h
sign_extend-signed_bits (suc (suc (suc (suc (suc zero))))) z lo hi h = extend_5 z h
sign_extend-signed_bits (suc (suc (suc (suc (suc (suc zero)))))) z lo hi h = extend_6 z h
sign_extend-signed_bits (suc (suc (suc (suc (suc (suc (suc zero))))))) z lo hi h = extend_7 z h
sign_extend-signed_bits (suc (suc (suc (suc (suc (suc (suc (suc zero)))))))) z lo hi h =
    extend_8 z h
sign_extend-signed_bits (suc (suc (suc (suc (suc (suc (suc (suc (suc k))))))))) z lo hi h =
    absurd (omega arith)
