-- ===== src/Scanner/Ntfs/Records.antt =====
-- `parse_record` of src/WinBlaze.Scanner/src/ntfs.rs, and what it builds. A read past the end of the
-- slice without a test of the length is the panic of the source.
pub mod Outcome
pub mod Ending
use Prim.Native.Nat.{bit_and}
use win_blaze.Base.{
  ℕ, zero, suc, ◌+◌, ◌-◌, ◌*◌, ◌/◌, ◌%◌, ◌^◌, ◌≤◌, Bool, true, false, not, ◌&&◌, ◌||◌, Option, none,
  some, List, [], ◌∷◌, ltb, leb, ◌==◌, if◌then◌else◌, length, take, drop,
}
use win_blaze.Base.Int.{ℤ}
use win_blaze.Base.Text.{Text, text_eq}
use win_blaze.Core.Model.{FileAttributes, directory_attribute, archive_attribute}
use win_blaze.Scanner.Ntfs.Fixups.{ntfs_record_size, file_record_signature}
use win_blaze.Scanner.Ntfs.Checked.{
  Checked, value, invalid, panicked, exhausted, pure, ◌>>=◌, le_u16, le_u32, le_u64, byte_at, slice,
  read_u16, read_u32, read_u64,
}
use win_blaze.Scanner.Ntfs.FileName.{FileNameAttribute, namespace_rank, parse_file_name}

abbrev pub attribute_list : ℕ
attribute_list = 0x20

abbrev pub attribute_file_name : ℕ
attribute_file_name = 0x30

abbrev pub attribute_data : ℕ
attribute_data = 0x80

abbrev pub file_record_flag_in_use : ℕ
file_record_flag_in_use = 1

abbrev pub file_record_flag_directory : ℕ
file_record_flag_directory = 2

pub record ParsedNtfsEntry : Type 0 where
  pub file_id : ℕ
  pub parent_directory_id : Option ℕ
  pub name : Text
  pub is_directory : Bool
  pub has_attribute_list : Bool
  pub size_bytes : ℕ
  pub allocation_bytes : ℕ
  pub attributes : FileAttributes
  pub created_utc : Option ℤ
  pub modified_utc : Option ℤ
  pub accessed_utc : Option ℤ

pub record ExtensionSizes : Type 0 where
  pub base_record : ℕ
  pub size_bytes : ℕ
  pub allocation_bytes : ℕ

pub data ParsedRecordOutcome : Type 0 where
  nothing : ParsedRecordOutcome
  entry : ParsedNtfsEntry → ParsedRecordOutcome
  extension : ExtensionSizes → ParsedRecordOutcome

-- The local variables of the walk over the attributes.
pub record Walk : Type 0 where
  pub file_name : Option FileNameAttribute
  pub size_bytes : ℕ
  pub allocation_bytes : ℕ
  pub has_list : Bool

-- After an attribute: go on, or return `Ok(None)` for a name that does not parse.
pub data Taken : Type 0 where
  going : Walk → Taken
  no_entry : Taken

-- `replace`: a name of a rank as high takes the place of an earlier one.
unfoldable pub better_name : Option FileNameAttribute → FileNameAttribute → FileNameAttribute
unfolding namespace_rank
better_name none name = name
better_name (some current) name =
    if leb (namespace_rank current) (namespace_rank name) then name else current

unfoldable pub take_name : Walk → Checked FileNameAttribute → Checked Taken
unfolding better_name
take_name walk (value name) =
    value (going (record walk { file_name = some (better_name walk.file_name name) }))
take_name walk invalid = value no_entry
take_name walk panicked = panicked
take_name walk exhausted = exhausted

-- The `match` on `parse_file_name` of the bytes of the value.
take_value : Walk → Checked (List ℕ) → Checked Taken
unfolding parse_file_name take_name
take_value walk bytes = take_name walk (bytes >>= parse_file_name)

take_file_name : List ℕ → ℕ → Walk → Checked Taken
unfolding read_u16 read_u32 slice take_value
take_file_name record' cursor walk = do
  value_offset ← read_u16 record' (cursor + 20)
  value_length ← read_u32 record' (cursor + 16)
  if leb (cursor + value_offset + value_length) (length record')
      then take_value walk
          (slice record' (cursor + value_offset) (cursor + value_offset + value_length))
      else pure (going walk)

take_resident_data : List ℕ → ℕ → Walk → Checked Taken
unfolding read_u32
take_resident_data record' cursor walk = do
  size ← read_u32 record' (cursor + 16)
  pure (going (record walk { size_bytes = size; allocation_bytes = size }))

take_real_sizes : List ℕ → ℕ → Walk → Checked Taken
unfolding read_u64
take_real_sizes record' cursor walk = do
  allocated ← read_u64 record' (cursor + 40)
  real ← read_u64 record' (cursor + 48)
  pure (going (record walk { size_bytes = real; allocation_bytes = allocated }))

take_data : List ℕ → ℕ → Walk → Checked Taken
unfolding take_real_sizes read_u64
take_data record' cursor walk = do
  starting_vcn ← read_u64 record' (cursor + 16)
  if starting_vcn == 0 then take_real_sizes record' cursor walk else pure (going walk)

-- The `match` on the type of an attribute.
unfoldable pub take_attribute : List ℕ → ℕ → ℕ → ℕ → ℕ → Walk → Checked Taken
unfolding take_file_name take_resident_data take_data
take_attribute record' cursor attribute_type non_resident name_length walk =
    if attribute_type == attribute_list
    then pure (going (record walk { has_list = true }))
    else if attribute_type == attribute_file_name && non_resident == 0
    then take_file_name record' cursor walk
    else if attribute_type == attribute_data && (non_resident == 0 && name_length == 0)
    then take_resident_data record' cursor walk
    else if attribute_type == attribute_data && (not (non_resident == 0) && name_length == 0)
    then take_data record' cursor walk
    else pure (going walk)

has_long_name : Option FileNameAttribute → Bool
unfolding namespace_rank
has_long_name none = false
has_long_name (some name) = namespace_rank name == 2

-- The early end of the walk.
unfoldable pub is_complete : ℕ → Bool → Walk → Bool
unfolding has_long_name
is_complete base_record is_directory walk =
    base_record == 0
    && (has_long_name walk.file_name
        && (is_directory || (not (walk.size_bytes == 0) || not (walk.allocation_bytes == 0))))

-- What stands at the cursor: the end of the walk, or an attribute's type, length, form and the
-- length of its name.
pub data Attribute : Type 0 where
  end_of_walk : Attribute
  attribute : ℕ → ℕ → ℕ → ℕ → Attribute

attribute_form : List ℕ → ℕ → ℕ → ℕ → Checked Attribute
unfolding byte_at
attribute_form record' cursor attribute_type attribute_length =
    if attribute_length == 0 || ltb (length record') (cursor + attribute_length)
    then value end_of_walk
    else do
      non_resident ← byte_at record' (cursor + 8)
      attribute_name_length ← byte_at record' (cursor + 9)
      pure (attribute attribute_type attribute_length non_resident attribute_name_length)

attribute_typed : List ℕ → ℕ → ℕ → Checked Attribute
unfolding le_u32 attribute_form
attribute_typed record' cursor attribute_type =
    if attribute_type == 2 ^ 32 - 1 then value end_of_walk else do
      attribute_length ← le_u32 record' (cursor + 4)
      attribute_form record' cursor attribute_type attribute_length

attribute_type_at : List ℕ → ℕ → Checked Attribute
unfolding le_u32 attribute_typed
attribute_type_at record' cursor = do
  attribute_type ← le_u32 record' cursor
  attribute_typed record' cursor attribute_type

unfoldable pub attribute_at : List ℕ → ℕ → Checked Attribute
unfolding attribute_type_at
attribute_at record' cursor =
    if ltb (length record') (cursor + 8)
    then value end_of_walk
    else attribute_type_at record' cursor

-- What the walk has after an attribute: nothing more to read, or something.
pub data Onward : Type 0 where
  over : Option Walk → Onward
  more : ℕ → Walk → Onward

module _ (record' : List ℕ) (base_record : ℕ) (is_directory : Bool) where
  onward : ℕ → Checked Taken → Checked Onward
  unfolding is_complete
  onward cursor (value (going walk)) =
      if is_complete base_record is_directory walk
      then value (over (some walk))
      else value (more cursor walk)
  onward cursor (value no_entry) = value (over none)
  onward cursor invalid = invalid
  onward cursor panicked = panicked
  onward cursor exhausted = exhausted

  -- One round of the loop.
  unfoldable pub step_walk : ℕ → Walk → Checked Onward
  unfolding onward attribute_at take_attribute
  step_walk cursor walk = do
    found ← attribute_at record' cursor
    elim found [
      | end_of_walk ↦ value (over (some walk))
      | attribute attribute_type attribute_length non_resident name_length ↦
          onward (cursor + attribute_length)
            (take_attribute record' cursor attribute_type non_resident name_length walk)
    ]

  -- The loop; nothing for the early return of `Ok(None)`.
  unfoldable pub walk_attributes : ℕ → ℕ → Walk → Checked (Option Walk)
  unfolding step_walk
  walk_attributes zero cursor walk = exhausted
  walk_attributes (suc fuel) cursor walk = elim (step_walk cursor walk) [
    | value (over result) ↦ value result
    | value (more next_cursor next_walk) ↦ walk_attributes fuel next_cursor next_walk
    | invalid ↦ invalid
    | panicked ↦ panicked
    | exhausted ↦ exhausted
  ]

entry_of : ℕ → Bool → Walk → Option FileNameAttribute → ParsedRecordOutcome
entry_of file_index is_directory walk none = nothing
entry_of file_index is_directory walk (some file_name) = entry record {
  file_id = file_index;
  parent_directory_id = file_name.parent_reference;
  name = file_name.name;
  is_directory = is_directory;
  has_attribute_list = walk.has_list;
  size_bytes = walk.size_bytes;
  allocation_bytes = walk.allocation_bytes;
  attributes = if is_directory then directory_attribute else archive_attribute;
  created_utc = some file_name.created_utc;
  modified_utc = some file_name.modified_utc;
  accessed_utc = some file_name.accessed_utc;
}

-- What stands behind the loop.
unfoldable pub outcome_of : ℕ → ℕ → Bool → Option Walk → ParsedRecordOutcome
unfolding entry_of
outcome_of file_index base_record is_directory none = nothing
outcome_of file_index base_record is_directory (some walk) =
    if not (base_record == 0)
    then if not (walk.size_bytes == 0) || not (walk.allocation_bytes == 0)
      then extension record {
        base_record = base_record;
        size_bytes = walk.size_bytes;
        allocation_bytes = walk.allocation_bytes;
      }
      else nothing
    else entry_of file_index is_directory walk walk.file_name

abbrev pub new_walk : Walk
new_walk = record { file_name = none; size_bytes = 0; allocation_bytes = 0; has_list = false }

-- The record behind its signature and its flags. An attribute is a byte long at least, so that as
-- many rounds as there are bytes, and one, are enough.
unfoldable pub parse_in_use : List ℕ → ℕ → ℕ → Checked ParsedRecordOutcome
unfolding le_u16 le_u64 walk_attributes outcome_of
parse_in_use record' file_index flags = do
  base ← le_u64 record' 0x20
  first_attr_offset ← le_u16 record' 0x14
  walk ←
      walk_attributes record' (base % 2 ^ 48) (not (bit_and flags file_record_flag_directory == 0))
        (length record' + 1) first_attr_offset new_walk
  pure (
      outcome_of file_index (base % 2 ^ 48) (not (bit_and flags file_record_flag_directory == 0))
        walk)

unfoldable pub parse_signed : List ℕ → Checked ParsedRecordOutcome
unfolding le_u32 le_u16 parse_in_use
parse_signed record' = do
  file_index ← le_u32 record' 0x2C
  flags ← le_u16 record' 0x16
  if bit_and flags file_record_flag_in_use == 0
      then pure nothing
      else parse_in_use record' file_index flags

unfoldable pub parse_record : List ℕ → Checked ParsedRecordOutcome
unfolding parse_signed
parse_record record' =
    if ltb (length record') ntfs_record_size || not (text_eq (take 4 record') file_record_signature)
    then value nothing
    else parse_signed record'
