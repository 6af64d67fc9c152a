-- ===== src/Scanner/Ntfs/Checked.antt =====
-- The reads of src/WinBlaze.Scanner/src/ntfs.rs: `le_*` panics past the end of the slice, `read_*`
-- returns an error.
use win_blaze.Base.{
  ℕ, ◌+◌, ◌-◌, ◌||◌, none, some, List, ltb, if◌then◌else◌, length, take, drop, get_elem?,
}
use win_blaze.Base.Int.{ℤ}
use win_blaze.Base.Bytes.{from_le_bytes, bits_i64}

-- A value, an `InvalidRecord` error, or a panic. `exhausted` is no result of the source: fuel ran out.
pub data Checked (A : Type 0) : Type 0 where
  value : A → Checked A
  invalid : Checked A
  panicked : Checked A
  exhausted : Checked A

abbrev pub pure : {A : Type 0} → A → Checked A
pure a = value a

infixl 1 ◌>>=◌
abbrev pub ◌>>=◌ : {A B : Type 0} → Checked A → (A → Checked B) → Checked B
value a >>= f = f a
invalid >>= f = invalid
panicked >>= f = panicked
exhausted >>= f = exhausted

le_bytes : ℕ → List ℕ → ℕ → Checked ℕ
le_bytes size bytes offset =
    if ltb (length bytes) (offset + size)
    then panicked
    else value (from_le_bytes (take size (drop offset bytes)))

unfoldable pub le_u16 : List ℕ → ℕ → Checked ℕ
unfolding le_bytes
le_u16 = le_bytes 2

unfoldable pub le_u32 : List ℕ → ℕ → Checked ℕ
unfolding le_bytes
le_u32 = le_bytes 4

unfoldable pub le_u64 : List ℕ → ℕ → Checked ℕ
unfolding le_bytes
le_u64 = le_bytes 8

i64_of : Checked ℕ → Checked ℤ
i64_of (value n) = value (bits_i64 n)
i64_of invalid = invalid
i64_of panicked = panicked
i64_of exhausted = exhausted

unfoldable pub le_i64 : List ℕ → ℕ → Checked ℤ
unfolding le_bytes i64_of
le_i64 bytes offset = i64_of (le_bytes 8 bytes offset)

-- `bytes[offset]`
unfoldable pub byte_at : List ℕ → ℕ → Checked ℕ
byte_at bytes offset = elim (get_elem? bytes offset) [ none ↦ panicked | some b ↦ value b ]

-- `bytes[from..to]`
unfoldable pub slice : List ℕ → ℕ → ℕ → Checked (List ℕ)
slice bytes from to =
    if ltb to from || ltb (length bytes) to
    then panicked
    else value (take (to - from) (drop from bytes))

read_bytes : ℕ → List ℕ → ℕ → Checked ℕ
read_bytes size bytes offset =
    if ltb (length bytes) (offset + size)
    then invalid
    else value (from_le_bytes (take size (drop offset bytes)))

unfoldable pub read_u16 : List ℕ → ℕ → Checked ℕ
unfolding read_bytes
read_u16 = read_bytes 2

unfoldable pub read_u32 : List ℕ → ℕ → Checked ℕ
unfolding read_bytes
read_u32 = read_bytes 4

unfoldable pub read_u64 : List ℕ → ℕ → Checked ℕ
unfolding read_bytes
read_u64 = read_bytes 8
