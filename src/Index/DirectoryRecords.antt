-- ===== src/Index/DirectoryRecords.antt =====
-- src/WinBlaze.Index/src/directory_records.rs: an arena of directory records in order of first
-- insertion, with a map from ids to places. Reserved capacity is not modelled.
pub mod Arena
pub mod Loading
use win_blaze.Base.{
  ℕ, ◌+◌, ◌≡◌, Option, none, some, List, [], ◌∷◌, ◌++◌, length, get_elem?, set, Bool, true, false,
  ◌&&◌, ◌==◌,
}
use win_blaze.Base.IdMap
use win_blaze.Base.IdMap.{IdMap}
use win_blaze.Core.Model.{DirectoryRecord}

pub record DirectoryRecords : Type 0 where
  pub positions : IdMap ℕ
  pub records : List DirectoryRecord

abbrev pub empty : DirectoryRecords
empty = record { positions = []; records = [] }

insert_at : DirectoryRecords → ℕ → DirectoryRecord → Option ℕ → DirectoryRecords
insert_at self id new (some index) = record self { records = set self.records index new }
insert_at self id new none = record {
  positions = IdMap.insert self.positions id (length self.records);
  records = self.records ++ new ∷ [];
}

unfoldable pub insert : DirectoryRecords → ℕ → DirectoryRecord → DirectoryRecords
unfolding insert_at
insert self id new = insert_at self id new (IdMap.get self.positions id)

record_at : List DirectoryRecord → Option ℕ → Option DirectoryRecord
record_at records none = none
record_at records (some index) = get_elem? records index

-- An index past the arena is a panic in the source; Arena.antt shows that there is none.
unfoldable pub get : DirectoryRecords → ℕ → Option DirectoryRecord
unfolding record_at
get self id = record_at self.records (IdMap.get self.positions id)

unfoldable pub into_records : DirectoryRecords → List DirectoryRecord
into_records self = self.records
