-- ===== src/Scanner/Ntfs/Records/Ending.antt =====
-- The walk over the attributes ends, and where it can panic.
use win_blaze.Base.{ℕ, ◌+◌, ◌≤◌, ◌<◌, List, length}
use win_blaze.Scanner.Ntfs.Checked.{Checked, value, invalid, panicked, exhausted}
use win_blaze.Scanner.Ntfs.Records.{
  Attribute, end_of_walk, attribute, attribute_typed, attribute_typed, Onward, over, more,
}

-- An attribute that starts eight or nine bytes before the end of the record.
pub record IsShort (rec : List ℕ) : Type 0 where
  pub cursor : ℕ
  pub has_length : cursor + 8 ≤ length rec
  pub has_no_form : length rec < cursor + 10

-- A value with a property, an error, or a panic on such an attribute.
abbrev pub Ends : {A : Type 0} → List ℕ → (A → Type 0) → Checked A → Type 0
Ends rec P (value a) = P a
Ends rec P invalid = Unit
Ends rec P panicked = IsShort rec
Ends rec P exhausted = ⊥

abbrev pub Any : {A : Type 0} → A → Type 0
Any a = Unit

-- An attribute that is found is a byte long at least and in the record.
Moves : List ℕ → ℕ → Attribute → Type 0
Moves rec cursor end_of_walk = Unit
Moves rec cursor (attribute t l r n) = (0 < l) × (cursor + l ≤ length rec)

-- The walk goes on further on, and in the record.
Further : List ℕ → ℕ → Onward → Type 0
Further rec cursor (over result) = Unit
Further rec cursor (more next walk) = (cursor < next) × (next ≤ length rec)
