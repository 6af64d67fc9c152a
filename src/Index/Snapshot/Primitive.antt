-- ===== src/Index/Snapshot/Primitive.antt =====
-- The fields of the snapshot format in src/WinBlaze.Index/src/store.rs: words, lengths, texts and
-- options, each with its writer. A writer returns the bytes that it appends. `push_u64` and its kin
-- append to a buffer what `write_u64` and its kin write, so one function stands for both.
use win_blaze.Base.{
  ℕ, ◌*◌, Option, none, some, List, [], ◌∷◌, ◌++◌, length, ltb, ◌==◌, if◌then◌else◌,
}
use win_blaze.Base.Int.{ℤ}
use win_blaze.Base.Bytes.{to_le_bytes, from_le_bytes, i64_bits, bits_i64, is_utf8}
use win_blaze.Base.Text.{Text}
use win_blaze.Index.Snapshot.Reader.{Decoder, err, corrupt_snapshot, ◌>>=◌, pure, fail, read_exact}

abbrev pub max_snapshot_string_bytes : ℕ
max_snapshot_string_bytes = 1024 * 1024

unfoldable pub write_u8 : ℕ → List ℕ
write_u8 value = value ∷ []

unfoldable pub write_u32 : ℕ → List ℕ
write_u32 value = to_le_bytes 4 value

unfoldable pub write_u64 : ℕ → List ℕ
write_u64 value = to_le_bytes 8 value

-- `u64::try_from` of a `usize` does not fail on a 64-bit target.
unfoldable pub write_len : ℕ → List ℕ
write_len value = write_u64 value

unfoldable pub write_string : Text → List ℕ
write_string value = write_len (length value) ++ value

unfoldable pub write_option_string : Option Text → List ℕ
write_option_string none = write_u8 0
write_option_string (some value) = write_u8 1 ++ write_string value

-- `push_snapshot_path`
unfoldable pub write_snapshot_path : Text → List ℕ
write_snapshot_path [] = write_u8 0
write_snapshot_path (b ∷ value) = write_u8 1 ++ write_string (b ∷ value)

-- `push_option_i64`
unfoldable pub write_option_i64 : Option ℤ → List ℕ
write_option_i64 none = write_u8 0
write_option_i64 (some value) = write_u8 1 ++ to_le_bytes 8 (i64_bits value)

unfoldable pub write_option_u64 : Option ℕ → List ℕ
write_option_u64 none = write_u8 0
write_option_u64 (some value) = write_u8 1 ++ write_u64 value

first_byte : List ℕ → ℕ
first_byte [] = 0
first_byte (b ∷ bs) = b

unfoldable pub read_u8 : Decoder ℕ
unfolding first_byte
read_u8 = do value ← read_exact 1; pure (first_byte value)

unfoldable pub read_u32 : Decoder ℕ
read_u32 = do value ← read_exact 4; pure (from_le_bytes value)

unfoldable pub read_u64 : Decoder ℕ
read_u64 = do value ← read_exact 8; pure (from_le_bytes value)

unfoldable pub read_i64 : Decoder ℤ
read_i64 = do value ← read_exact 8; pure (bits_i64 (from_le_bytes value))

-- `usize::try_from` of a `u64` does not fail on a 64-bit target.
unfoldable pub read_len : Decoder ℕ
read_len = read_u64

unfoldable pub string_of : List ℕ → Decoder Text
string_of value = if is_utf8 value then pure value else fail "invalid utf-8 string"

unfoldable pub read_string_bytes : ℕ → Decoder Text
unfolding string_of
read_string_bytes len r =
    if ltb max_snapshot_string_bytes len
    then err (corrupt_snapshot "string length exceeds maximum")
    else if ltb r.remaining len
    then err (corrupt_snapshot "string length exceeds remaining snapshot data")
    else (read_exact len >>= string_of) r

unfoldable pub read_string : Decoder Text
read_string = do len ← read_len; read_string_bytes len

some_string : Decoder (Option Text)
some_string = do value ← read_string; pure (some value)

unfoldable pub option_string_of : ℕ → Decoder (Option Text)
unfolding some_string
option_string_of flag =
    if flag == 0
    then pure none
    else if flag == 1
    then some_string
    else fail "invalid optional string flag"

unfoldable pub read_option_string : Decoder (Option Text)
read_option_string = do flag ← read_u8; option_string_of flag

unfoldable pub snapshot_path_of : ℕ → Decoder Text
snapshot_path_of flag =
    if flag == 0
    then pure []
    else if flag == 1
    then read_string
    else fail "invalid path-present flag"

unfoldable pub read_snapshot_path : ℕ → Decoder Text
read_snapshot_path version =
    if ltb version 2 then read_string else do flag ← read_u8; snapshot_path_of flag

some_i64 : Decoder (Option ℤ)
some_i64 = do value ← read_i64; pure (some value)

unfoldable pub option_i64_of : ℕ → Decoder (Option ℤ)
unfolding some_i64
option_i64_of flag =
    if flag == 0
    then pure none
    else if flag == 1
    then some_i64
    else fail "invalid optional integer flag"

unfoldable pub read_option_i64 : Decoder (Option ℤ)
read_option_i64 = do flag ← read_u8; option_i64_of flag

some_u64 : Decoder (Option ℕ)
some_u64 = do value ← read_u64; pure (some value)

-- the parent of a directory record
unfoldable pub option_u64_of : ℕ → Decoder (Option ℕ)
unfolding some_u64
option_u64_of flag =
    if flag == 0
    then pure none
    else if flag == 1
    then some_u64
    else fail "invalid directory parent flag"

unfoldable pub read_option_u64 : Decoder (Option ℕ)
read_option_u64 = do flag ← read_u8; option_u64_of flag
