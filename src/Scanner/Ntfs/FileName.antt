-- ===== src/Scanner/Ntfs/FileName.antt =====
-- `FileNameAttribute` and `parse_file_name` of src/WinBlaze.Scanner/src/ntfs.rs, with the decoding of
-- UTF-16 that it takes from the standard library.
use win_blaze.Base.{
  ℕ, ◌+◌, ◌-◌, ◌*◌, ◌/◌, ◌%◌, ◌^◌, Bool, ◌&&◌, ◌||◌, Option, none, some, List, [], ◌∷◌, ◌++◌, ltb,
  leb, ◌==◌, if◌then◌else◌, length,
}
use win_blaze.Base.Int.{ℤ}
use win_blaze.Base.Text.{Text}
use win_blaze.Scanner.Ntfs.Checked.{Checked, value, invalid, ◌>>=◌, le_u64, le_i64, byte_at, slice}

pub record FileNameAttribute : Type 0 where
  pub parent_reference : Option ℕ
  pub created_utc : ℤ
  pub modified_utc : ℤ
  pub accessed_utc : ℤ
  pub namespace : ℕ
  pub name : Text

unfoldable pub namespace_rank : FileNameAttribute → ℕ
namespace_rank self =
    if self.namespace == 1 || self.namespace == 3 then 2 else if self.namespace == 0 then 1 else 0

is_high : ℕ → Bool
is_high unit = leb 0xD800 unit && ltb unit 0xDC00

is_low : ℕ → Bool
is_low unit = leb 0xDC00 unit && ltb unit 0xE000

-- `chunks_exact(2)` of bytes, as units
unfoldable pub units_of : List ℕ → List ℕ
units_of [] = []
units_of (a ∷ []) = []
units_of (a ∷ b ∷ bytes) = (a + 256 * b) ∷ units_of bytes

-- `String::push`: the UTF-8 bytes of a code point
unfoldable pub utf8_of : ℕ → Text
utf8_of c =
    if ltb c 0x80
    then c ∷ []
    else if ltb c 0x800
    then (0xC0 + c / 64) ∷ (0x80 + c % 64) ∷ []
    else if ltb c 0x10000
    then (0xE0 + c / 4096) ∷ (0x80 + c / 64 % 64) ∷ (0x80 + c % 64) ∷ []
    else (0xF0 + c / 262144) ∷ (0x80 + c / 4096 % 64) ∷ (0x80 + c / 64 % 64) ∷ (0x80 + c % 64) ∷ []

pushed : Text → Option Text → Option Text
pushed t none = none
pushed t (some rest) = some (t ++ rest)

-- `char::decode_utf16`, each character pushed on the name; nothing on an unpaired surrogate
unfoldable pub decode_utf16 : List ℕ → Option Text
unfolding is_high is_low utf8_of pushed
decode_utf16 [] = some []
decode_utf16 (unit ∷ []) = if is_high unit || is_low unit then none else some (utf8_of unit)
decode_utf16 (unit ∷ next ∷ units) =
    let after_pair = decode_utf16 units in
    let after_unit = decode_utf16 (next ∷ units) in
    if is_low unit
    then none
    else if is_high unit
    then if is_low next
      then pushed (utf8_of (0x10000 + 0x400 * (unit - 0xD800) + (next - 0xDC00))) after_pair
      else none
    else pushed (utf8_of unit) after_unit

unfoldable pub named : Option Text → (Text → FileNameAttribute) → Checked FileNameAttribute
named none f = invalid
named (some name) f = value (f name)

unfoldable pub decoded_name :
    Checked (List ℕ) → (Text → FileNameAttribute) → Checked FileNameAttribute
unfolding units_of decode_utf16 named
decoded_name units f = units >>= λ bytes. named (decode_utf16 (units_of bytes)) f

unfoldable pub sized_name : List ℕ → ℕ → (Text → FileNameAttribute) → Checked FileNameAttribute
unfolding slice decoded_name
sized_name bytes name_length f =
    if ltb (length bytes) (66 + name_length * 2)
    then invalid
    else decoded_name (slice bytes 66 (66 + name_length * 2)) f

unfoldable pub parse_file_name : List ℕ → Checked FileNameAttribute
unfolding le_u64 le_i64 byte_at sized_name
parse_file_name bytes = if ltb (length bytes) 66 then invalid else do
  reference ← le_u64 bytes 0
  created ← le_i64 bytes 8
  modified ← le_i64 bytes 16
  accessed ← le_i64 bytes 24
  name_length ← byte_at bytes 64
  namespace ← byte_at bytes 65
  sized_name bytes name_length (λ name. record {
    parent_reference = some (reference % 2 ^ 48);
    created_utc = created;
    modified_utc = modified;
    accessed_utc = accessed;
    namespace = namespace;
    name = name;
  })
