-- ===== src/Scanner/Ntfs/Records/Outcome.antt =====
-- How parsing a record ends, whatever its bytes.
use win_blaze.Base.{
  ℕ, ◌+◌, ◌*◌, ◌≤◌, ◌<◌, inl, inr, Bool-cases, Option, none, some, List, arith, ltb, leb, length,
  get_elem?-of_lt,
}
use win_blaze.Base.Text.{Text}
use win_blaze.Scanner.Ntfs.Checked.{
  Checked, value, invalid, panicked, exhausted, ◌>>=◌, le_u16, le_u32, le_u64, le_i64, byte_at,
  slice, read_u16, read_u32, read_u64,
}
use win_blaze.Scanner.Ntfs.FileName.{
  FileNameAttribute, parse_file_name, sized_name, decoded_name, named, decode_utf16, units_of,
}
use win_blaze.Scanner.Ntfs.Records.{
  Walk, take_attribute, take_file_name, take_name, take_value, take_resident_data, take_data,
  take_real_sizes,
}

-- A result that is a value or an error.
abbrev pub IsTotal : {A : Type 0} → Checked A → Type 0
IsTotal (value a) = Unit
IsTotal invalid = Unit
IsTotal panicked = ⊥
IsTotal exhausted = ⊥

pub bind-IsTotal :
    {A B : Type 0} (c : Checked A) (f : A → Checked B)
    → IsTotal c
    → ((a : A) → IsTotal (f a))
    → IsTotal (c >>= f)
bind-IsTotal (value a) f h g = g a
bind-IsTotal invalid f h g = tt
bind-IsTotal panicked f h g = elim h [ ]
bind-IsTotal exhausted f h g = elim h [ ]

read_u16-IsTotal : (bytes : List ℕ) (offset : ℕ) → IsTotal (read_u16 bytes offset)
unfolding read_u16
read_u16-IsTotal bytes offset = ground arith

read_u32-IsTotal : (bytes : List ℕ) (offset : ℕ) → IsTotal (read_u32 bytes offset)
unfolding read_u32
read_u32-IsTotal bytes offset = ground arith

read_u64-IsTotal : (bytes : List ℕ) (offset : ℕ) → IsTotal (read_u64 bytes offset)
unfolding read_u64
read_u64-IsTotal bytes offset = ground arith

pub le_u16-IsTotal :
    (bytes : List ℕ) (offset : ℕ) → offset + 2 ≤ length bytes → IsTotal (le_u16 bytes offset)
unfolding le_u16
le_u16-IsTotal bytes offset h = ground arith

pub le_u32-IsTotal :
    (bytes : List ℕ) (offset : ℕ) → offset + 4 ≤ length bytes → IsTotal (le_u32 bytes offset)
unfolding le_u32
le_u32-IsTotal bytes offset h = ground arith

pub le_u64-IsTotal :
    (bytes : List ℕ) (offset : ℕ) → offset + 8 ≤ length bytes → IsTotal (le_u64 bytes offset)
unfolding le_u64
le_u64-IsTotal bytes offset h = ground arith

le_i64-IsTotal :
    (bytes : List ℕ) (offset : ℕ) → offset + 8 ≤ length bytes → IsTotal (le_i64 bytes offset)
unfolding le_i64
le_i64-IsTotal bytes offset h = ground arith

pub byte_at-IsTotal :
    (bytes : List ℕ) (offset : ℕ) → offset < length bytes → IsTotal (byte_at bytes offset)
unfolding byte_at
byte_at-IsTotal bytes offset h = let (b, e) = get_elem?-of_lt bytes offset h in ground (arith, e)

-- A slice whose ends are in order and in the bytes is no panic.
pub slice-IsTotal :
    (bytes : List ℕ) (from to : ℕ) → from ≤ to → to ≤ length bytes → IsTotal (slice bytes from to)
unfolding slice
slice-IsTotal bytes from to h h' = ground (arith, h, h')

named-IsTotal : (o : Option Text) (f : Text → FileNameAttribute) → IsTotal (named o f)
unfolding named
named-IsTotal none f = tt
named-IsTotal (some name) f = tt

decoded_name-IsTotal :
    (units : Checked (List ℕ)) (f : Text → FileNameAttribute)
    → IsTotal units
    → IsTotal (decoded_name units f)
unfolding decoded_name
decoded_name-IsTotal units f h =
    bind-IsTotal units _ h λ bytes. named-IsTotal (decode_utf16 (units_of bytes)) f

sized_name-IsTotal :
    (bytes : List ℕ) (n : ℕ) (f : Text → FileNameAttribute) → IsTotal (sized_name bytes n f)
unfolding sized_name
sized_name-IsTotal bytes n f = ground (
  arith,
  slice-IsTotal bytes 66 (66 + n * 2),
  decoded_name-IsTotal (slice bytes 66 (66 + n * 2)) f,
)

-- Parsing any bytes as a file name attribute gives a value or an error, never a panic.
pub parse_file_name-IsTotal : (bytes : List ℕ) → IsTotal (parse_file_name bytes)
unfolding parse_file_name
parse_file_name-IsTotal bytes = elim (Bool-cases (ltb (length bytes) 66)) [
  | inl short ↦ rw short tt
  | inr e ↦
      let long : 66 ≤ length bytes = ground arith in
      rw e (
        bind-IsTotal _ _ (le_u64-IsTotal bytes 0 (omega (arith, long))) λ a.
          bind-IsTotal _ _ (le_i64-IsTotal bytes 8 (omega (arith, long))) λ b.
            bind-IsTotal _ _ (le_i64-IsTotal bytes 16 (omega (arith, long))) λ c.
              bind-IsTotal _ _ (le_i64-IsTotal bytes 24 (omega (arith, long))) λ d.
                bind-IsTotal _ _ (byte_at-IsTotal bytes 64 (omega (arith, long))) λ k.
                  bind-IsTotal _ _ (byte_at-IsTotal bytes 65 (omega (arith, long)))
                    λ n. sized_name-IsTotal bytes k _)
]

take_name-IsTotal :
    (walk : Walk) (c : Checked FileNameAttribute) → IsTotal c → IsTotal (take_name walk c)
unfolding take_name
take_name-IsTotal walk (value name) h = tt
take_name-IsTotal walk invalid h = tt
take_name-IsTotal walk panicked h = elim h [ ]
take_name-IsTotal walk exhausted h = elim h [ ]

take_value-IsTotal :
    (walk : Walk) (bytes : Checked (List ℕ)) → IsTotal bytes → IsTotal (take_value walk bytes)
unfolding take_value
take_value-IsTotal walk bytes h =
    take_name-IsTotal walk _ (bind-IsTotal bytes parse_file_name h parse_file_name-IsTotal)

module _ (rec : List ℕ) (cursor : ℕ) (walk : Walk) where
  take_file_name-IsTotal : IsTotal (take_file_name rec cursor walk)
  unfolding take_file_name
  take_file_name-IsTotal = bind-IsTotal _ _ (read_u16-IsTotal rec (cursor + 20)) λ o.
      bind-IsTotal _ _ (read_u32-IsTotal rec (cursor + 16)) λ l.
        elim (Bool-cases (leb (cursor + o + l) (length rec))) [
          | inr past ↦ rw past tt
          | inl inside ↦ rw inside (
              take_value-IsTotal walk _
                (slice-IsTotal rec (cursor + o) (cursor + o + l) (omega arith) (ground arith)))
        ]

  take_resident_data-IsTotal : IsTotal (take_resident_data rec cursor walk)
  unfolding take_resident_data
  take_resident_data-IsTotal = bind-IsTotal _ _ (read_u32-IsTotal rec (cursor + 16)) λ s. tt

  take_real_sizes-IsTotal : IsTotal (take_real_sizes rec cursor walk)
  unfolding take_real_sizes
  take_real_sizes-IsTotal =
      bind-IsTotal _ _ (read_u64-IsTotal rec (cursor + 40))
        λ a. bind-IsTotal _ _ (read_u64-IsTotal rec (cursor + 48)) λ b. tt

  take_data-IsTotal : IsTotal (take_data rec cursor walk)
  unfolding take_data
  take_data-IsTotal =
      bind-IsTotal _ _ (read_u64-IsTotal rec (cursor + 16))
        λ v. ground (arith, take_real_sizes-IsTotal)

  -- Reading an attribute that was found indexes nothing past the end of the record.
  pub take_attribute-IsTotal :
      (attribute_type non_resident name_length : ℕ)
      → IsTotal (take_attribute rec cursor attribute_type non_resident name_length walk)
  unfolding take_attribute
  take_attribute-IsTotal t r n =
      ground (arith, take_file_name-IsTotal, take_resident_data-IsTotal, take_data-IsTotal)
