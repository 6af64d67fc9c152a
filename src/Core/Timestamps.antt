-- ===== src/Core/Timestamps.antt =====
-- `FileTimestamps` of src/WinBlaze.Core/src/model.rs: three optional `i64` values behind one byte of
-- presence bits.
use Prim.Native.Nat.{bit_and, bit_or}
use win_blaze.Base.{
  ℕ, ◌^◌, ◌≡◌, refl, Option, none, some, List, [], ◌∷◌, ◌==◌, if◌then◌else◌, get_elem?, set,
}
use win_blaze.Base.Int.{ℤ, pos}

-- `values: [i64; 3]` is a list of three.
pub record FileTimestamps : Type 0 where
  pub values : List ℤ
  pub present : ℕ

-- `if let Some(value) = stamp { result.values[index] = value; result.present |= bit; }`
set_stamp : FileTimestamps → ℕ → ℕ → Option ℤ → FileTimestamps
set_stamp result index bit none = result
set_stamp result index bit (some value) = record {
  values = set result.values index value;
  present = bit_or result.present bit;
}

unfoldable pub new_timestamps : Option ℤ → Option ℤ → Option ℤ → FileTimestamps
unfolding set_stamp
new_timestamps created modified accessed =
    let blank : FileTimestamps = record { values = pos 0 ∷ pos 0 ∷ pos 0 ∷ []; present = 0 } in
    set_stamp (set_stamp (set_stamp blank 0 1 created) 1 2 modified) 2 4 accessed

-- An index past the array is a panic in the source; it is only called with 0, 1 and 2.
stamp_value : FileTimestamps → ℕ → Option ℤ
stamp_value self index =
    if bit_and self.present (2 ^ index) == 0 then none else get_elem? self.values index

unfoldable pub created : FileTimestamps → Option ℤ
unfolding stamp_value
created self = stamp_value self 0

unfoldable pub modified : FileTimestamps → Option ℤ
unfolding stamp_value
modified self = stamp_value self 1

unfoldable pub accessed : FileTimestamps → Option ℤ
unfolding stamp_value
accessed self = stamp_value self 2

-- The three stamps that a value was made of are read back, absent or present, whatever their
-- values.
pub stamps-new_timestamps :
    (c m a : Option ℤ)
    → (created (new_timestamps c m a) ≡ c)
      × (modified (new_timestamps c m a) ≡ m)
      × (accessed (new_timestamps c m a) ≡ a)
unfolding new_timestamps created modified accessed
stamps-new_timestamps none none none = (refl, refl, refl)
stamps-new_timestamps none none (some a) = (refl, refl, refl)
stamps-new_timestamps none (some m) none = (refl, refl, refl)
stamps-new_timestamps none (some m) (some a) = (refl, refl, refl)
stamps-new_timestamps (some c) none none = (refl, refl, refl)
stamps-new_timestamps (some c) none (some a) = (refl, refl, refl)
stamps-new_timestamps (some c) (some m) none = (refl, refl, refl)
stamps-new_timestamps (some c) (some m) (some a) = (refl, refl, refl)
