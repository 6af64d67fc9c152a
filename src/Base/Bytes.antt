-- ===== src/Base/Bytes.antt =====
-- Machine words as bytes: the little-endian conversions of the standard library, two's complement
-- for `i64`, and the test by which `String::from_utf8` accepts bytes.
use win_blaze.Base.{
  ℕ, zero, suc, ◌+◌, ◌-◌, ◌*◌, ◌/◌, ◌%◌, ◌^◌, ◌<◌, ◌≡◌, refl, Bool, true, false, ◌&&◌, ◌||◌, Option,
  none, some, List, [], ◌∷◌, arith, ltb, leb, ◌==◌, if◌then◌else◌, length, All,
}
use win_blaze.Base.Int.{ℤ, pos, negsuc}
use native.Mathlib.Nat.{pow-suc}

abbrev pub IsByte : ℕ → Type 0
IsByte b = b < 256

abbrev pub IsU32 : ℕ → Type 0
IsU32 v = v < 2 ^ 32

abbrev pub IsU64 : ℕ → Type 0
IsU64 v = v < 2 ^ 64

abbrev pub IsI64 : ℤ → Type 0
IsI64 (pos n) = n < 2 ^ 63
IsI64 (negsuc n) = n < 2 ^ 63

abbrev pub u64_max : ℕ
u64_max = 2 ^ 64 - 1

-- uN::to_le_bytes, for N / 8 bytes
unfoldable pub to_le_bytes : ℕ → ℕ → List ℕ
to_le_bytes zero v = []
to_le_bytes (suc k) v = (v % 256) ∷ to_le_bytes k (v / 256)

-- uN::from_le_bytes
unfoldable pub from_le_bytes : List ℕ → ℕ
from_le_bytes [] = 0
from_le_bytes (b ∷ bs) = b + 256 * from_le_bytes bs

pub length-to_le_bytes : (k v : ℕ) → length (to_le_bytes k v) ≡ k
unfolding to_le_bytes
length-to_le_bytes zero v = refl
length-to_le_bytes (suc k) v = omega (arith, length-to_le_bytes k (v / 256))

div-lt-pow : (k v : ℕ) → v < 256 ^ suc k → v / 256 < 256 ^ k
div-lt-pow k v h = let h' : v < 256 ^ k * 256 = rw (← pow-suc 256 k) h in omega arith

-- The bytes of a word read back as the word.
pub from_le_bytes-to_le_bytes : (k v : ℕ) → v < 256 ^ k → from_le_bytes (to_le_bytes k v) ≡ v
unfolding to_le_bytes from_le_bytes
from_le_bytes-to_le_bytes zero v h = omega arith
from_le_bytes-to_le_bytes (suc k) v h =
    omega (arith, from_le_bytes-to_le_bytes k (v / 256) (div-lt-pow k v h))

pub to_le_bytes-IsByte : (k v : ℕ) → All IsByte (to_le_bytes k v)
unfolding to_le_bytes
to_le_bytes-IsByte zero v = tt
to_le_bytes-IsByte (suc k) v = (omega arith, to_le_bytes-IsByte k (v / 256))

-- The bit pattern of an `i64`, and the `i64` of a bit pattern.
unfoldable pub i64_bits : ℤ → ℕ
i64_bits (pos n) = n
i64_bits (negsuc n) = 2 ^ 64 - 1 - n

unfoldable pub bits_i64 : ℕ → ℤ
bits_i64 w = if ltb w (2 ^ 63) then pos w else negsuc (2 ^ 64 - 1 - w)

pub i64_bits-IsU64 : (z : ℤ) → IsI64 z → IsU64 (i64_bits z)
unfolding i64_bits
i64_bits-IsU64 (pos n) h = omega arith
i64_bits-IsU64 (negsuc n) h = omega arith

pub bits_i64-i64_bits : (z : ℤ) → IsI64 z → bits_i64 (i64_bits z) ≡ z
unfolding i64_bits bits_i64
bits_i64-i64_bits (pos n) h = ground arith
bits_i64-i64_bits (negsuc n) h = ground arith

between : ℕ → ℕ → ℕ → Bool
between lo hi b = leb lo b && leb b hi

is_tail : ℕ → Bool
is_tail = between 0x80 0xbf

-- Well-formed UTF-8: no overlong form, no surrogate, nothing past U+10FFFF. The clauses are by what
-- the lead byte leaves to be read.
pub data Expect : Type 0 where
  lead : Expect
  tails : ℕ → Expect
  ranged : ℕ → ℕ → ℕ → Expect

after_lead : ℕ → Option Expect
after_lead b =
    if ltb b 0x80
    then some lead
    else if between 0xc2 0xdf b
    then some (tails 1)
    else if b == 0xe0
    then some (ranged 0xa0 0xbf 1)
    else if between 0xe1 0xec b || between 0xee 0xef b
    then some (tails 2)
    else if b == 0xed
    then some (ranged 0x80 0x9f 1)
    else if b == 0xf0
    then some (ranged 0x90 0xbf 2)
    else if between 0xf1 0xf3 b
    then some (tails 3)
    else if b == 0xf4
    then some (ranged 0x80 0x8f 2)
    else none

next_expect : Expect → ℕ → Option Expect
next_expect lead b = after_lead b
next_expect (tails zero) b = after_lead b
next_expect (tails (suc n)) b = if is_tail b then some (tails n) else none
next_expect (ranged lo hi n) b = if between lo hi b then some (tails n) else none

complete : Expect → Bool
complete lead = true
complete (tails zero) = true
complete _ = false

utf8_from : Expect → List ℕ → Bool
utf8_from e [] = complete e
utf8_from e (b ∷ bs) = elim (next_expect e b) [ none ↦ false | some e' ↦ utf8_from e' bs ]

-- std::str::from_utf8 accepts the bytes
unfoldable pub is_utf8 : List ℕ → Bool
unfolding between is_tail after_lead next_expect complete utf8_from
is_utf8 = utf8_from lead
