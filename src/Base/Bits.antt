-- ===== src/Base/Bits.antt =====
-- Single bits of a number, through `bit_and` and `bit_or`.
use Prim.Native.Nat.{bit_and, bit_or, digits, bitwise, bit_and-bitwise, bit_or-bitwise}
use native.Mathlib.Numerals.{unary_clauses}
use win_blaze.Base.{
  ℕ, zero, suc, ◌+◌, ◌*◌, ◌/◌, ◌%◌, ◌^◌, ◌≤◌, ◌≡◌, refl, sym, ◌∙◌, min, max, Bool, false, not, ◌||◌,
  arith, ◌==◌,
}

-- A digitwise operation `f`, with `z b` for the digits that are left when the first number ran out.
module _ (z : ℕ → ℕ) (f : ℕ → ℕ → ℕ) (z_law : (b : ℕ) → z b ≡ z (b / 2) * 2 + f 0 (b % 2)) where
  more_digits : (m n a b : ℕ) → a ≤ m → a ≤ n → digits z f m a b ≡ digits z f n a b
  more_digits m n zero b p q = out m ∙ sym (out n)
    where
      out : (k : ℕ) → digits z f k 0 b ≡ z b
      out zero = refl
      out (suc k) = refl
  more_digits zero n (suc a) b p q = absurd (omega arith)
  more_digits (suc m) zero (suc a) b p q = absurd (omega arith)
  more_digits (suc m) (suc n) (suc a) b p q =
      omega (arith, more_digits m n (suc a / 2) (b / 2) (omega arith) (omega arith))

  lowest : (a b : ℕ) → bitwise z f a b ≡ bitwise z f (a / 2) (b / 2) * 2 + f (a % 2) (b % 2)
  lowest zero b = z_law b
  lowest (suc a) b =
      omega (arith, more_digits a (suc a / 2) (suc a / 2) (b / 2) (omega arith) (omega arith))

and_lowest : (a b : ℕ) → bit_and a b ≡ bit_and (a / 2) (b / 2) * 2 + min (a % 2) (b % 2)
and_lowest a b = omega (
  arith,
  lowest (λ c. 0) min (λ c. omega arith) a b,
  bit_and-bitwise a b,
  bit_and-bitwise (a / 2) (b / 2),
)

or_lowest : (a b : ℕ) → bit_or a b ≡ bit_or (a / 2) (b / 2) * 2 + max (a % 2) (b % 2)
or_lowest a b = omega (
  arith,
  lowest (λ c. c) max (λ c. omega arith) a b,
  bit_or-bitwise a b,
  bit_or-bitwise (a / 2) (b / 2),
)

-- Bit `k` of `w` is set.
unfoldable pub has_bit : ℕ → ℕ → Bool
has_bit zero w = w % 2 == 1
has_bit (suc k) w = has_bit k (w / 2)

and_zero_fuel : (n w : ℕ) → w ≤ n → bit_and w 0 ≡ 0
and_zero_fuel n zero h = refl
and_zero_fuel zero (suc w) h = absurd (omega arith)
and_zero_fuel (suc n) (suc w) h =
    omega (arith, and_lowest (suc w) 0, and_zero_fuel n (suc w / 2) (omega arith))

or_zero_fuel : (n w : ℕ) → w ≤ n → bit_or w 0 ≡ w
or_zero_fuel n zero h = refl
or_zero_fuel zero (suc w) h = absurd (omega arith)
or_zero_fuel (suc n) (suc w) h =
    omega (arith, or_lowest (suc w) 0, or_zero_fuel n (suc w / 2) (omega arith))

pub pow_suc : (k : ℕ) → 2 ^ suc k ≡ 2 * 2 ^ k
pow_suc k = simp unary_clauses (omega arith)

pub pow_pos : (k : ℕ) → 1 ≤ 2 ^ k
pow_pos zero = omega arith
pow_pos (suc k) = omega (arith, pow_suc k, pow_pos k)

half_pow : (k : ℕ) → 2 ^ suc k / 2 ≡ 2 ^ k
half_pow k = omega (arith, pow_suc k)

odd_pow : (k : ℕ) → 2 ^ suc k % 2 ≡ 0
odd_pow k = omega (arith, pow_suc k)

and_pow_suc : (w k : ℕ) → bit_and w (2 ^ suc k) ≡ bit_and (w / 2) (2 ^ k) * 2
and_pow_suc w k = and_lowest w (2 ^ suc k) ∙ (rw (half_pow k, odd_pow k) (omega arith))

or_pow_suc : (w k : ℕ) → bit_or w (2 ^ suc k) ≡ bit_or (w / 2) (2 ^ k) * 2 + w % 2
or_pow_suc w k = or_lowest w (2 ^ suc k) ∙ (rw (half_pow k, odd_pow k) (omega arith))

or_one : (w : ℕ) → bit_or w 1 ≡ w / 2 * 2 + 1
or_one w = or_lowest w 1 ∙ (rw (or_zero_fuel (w / 2) (w / 2) (omega arith)) (omega arith))

-- The test `w & (1 << k) == 0`.
pub bit_and_pow : (k w : ℕ) → (bit_and w (2 ^ k) == 0) ≡ not (has_bit k w)
unfolding has_bit
bit_and_pow zero w = ground (arith, and_lowest w 1, and_zero_fuel (w / 2) (w / 2) (omega arith))
bit_and_pow (suc k) w = ground (arith, and_pow_suc w k, bit_and_pow k (w / 2))

-- What `w |= 1 << k` sets.
pub has_bit-bit_or : (j k w : ℕ) → has_bit j (bit_or w (2 ^ k)) ≡ ((k == j) || has_bit j w)
unfolding has_bit
has_bit-bit_or zero zero w = ground (arith, or_one w)
has_bit-bit_or zero (suc k) w = ground (arith, or_pow_suc w k)
has_bit-bit_or (suc j) zero w =
    let half : bit_or w 1 / 2 ≡ w / 2 = omega (arith, or_one w) in rw half (ground arith)
has_bit-bit_or (suc j) (suc k) w =
    let half : bit_or w (2 ^ suc k) / 2 ≡ bit_or (w / 2) (2 ^ k) = omega (arith, or_pow_suc w k) in
    rw half (ground (arith, has_bit-bit_or j k (w / 2)))

pub has_bit-zero : (k : ℕ) → has_bit k 0 ≡ false
unfolding has_bit
has_bit-zero zero = refl
has_bit-zero (suc k) = has_bit-zero k

-- A mask of six ones.
pub bit_and_63 : (a : ℕ) → bit_and a 63 ≡ a % 64
bit_and_63 a = omega (
  arith,
  and_lowest a 63,
  and_lowest (a / 2) 31,
  and_lowest (a / 2 / 2) 15,
  and_lowest (a / 2 / 2 / 2) 7,
  and_lowest (a / 2 / 2 / 2 / 2) 3,
  and_lowest (a / 2 / 2 / 2 / 2 / 2) 1,
  and_zero_fuel (a / 2 / 2 / 2 / 2 / 2 / 2) (a / 2 / 2 / 2 / 2 / 2 / 2) (omega arith),
)
