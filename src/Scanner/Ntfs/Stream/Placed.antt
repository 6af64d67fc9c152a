-- ===== src/Scanner/Ntfs/Stream/Placed.antt =====
-- The paths of the directories that are emitted.
use win_blaze.Base.{
  ℕ, ◌≡◌, refl, ◌⊎◌, inl, inr, Option-cases, Option, none, some, List, [], ◌∷◌, arith, ◌==◌,
  if◌then◌else◌,
}
use win_blaze.Base.Text.{Text}
use win_blaze.Base.IdMap
use win_blaze.Base.IdMap.{get-insert, get-nil}
use win_blaze.Core.Model.{DirectoryRecord}
use win_blaze.Core.Scan.{ScanEvent, directory_found}
use win_blaze.Scanner.Ntfs.Records.{ParsedNtfsEntry}
use win_blaze.Scanner.Ntfs.Stream.{
  NtfsStreamState, ntfs_root_record, parent_under, normalized_parent, join_path, unwrap_or,
  emit_directory, release, drain_one, path_under,
}
use win_blaze.Scanner.Ntfs.Stream.Ingest.{waiting, drain_cascade}
use win_blaze.Scanner.Ntfs.Stream.Drained.{drain_loop-keeps, release-none, release-some}

-- The path with which a directory was emitted last.
abbrev pub path_of : ℕ → List ScanEvent → Option Text
path_of id [] = none
path_of id (directory_found d ∷ events) = if d.id == id then some d.full_path else path_of id events
path_of id (_ ∷ events) = path_of id events

abbrev pub parent_path : DirectoryRecord → List ScanEvent → Option Text
parent_path d events = path_of (parent_under d.id d.parent_directory_id) events

-- The root itself, or the path of the parent, which is that of the root when it was not emitted
-- before, joined with the name.
abbrev pub IsPlaced : Text → List ScanEvent → Type 0
IsPlaced root [] = Unit
IsPlaced root (directory_found d ∷ events) =
    (((d.id ≡ ntfs_root_record) × (d.full_path ≡ root))
      ⊎ (d.full_path ≡ join_path (unwrap_or (parent_path d events) root) d.name))
    × IsPlaced root events
IsPlaced root (_ ∷ events) = IsPlaced root events

-- What the state remembers of the paths is what was emitted.
pub record IsFaithful (root : Text) (self : NtfsStreamState) : Type 0 where
  pub root_text : self.root_text ≡ root
  pub paths : (id : ℕ) → IdMap.get self.resolved_paths id ≡ path_of id self.emitted
  pub placed : IsPlaced root self.emitted

module _ (root : Text) (self : NtfsStreamState) (f : IsFaithful root self) where
  pub emit_directory-IsFaithful :
      (entry : ParsedNtfsEntry) (rest : List ParsedNtfsEntry)
      → IsFaithful root (emit_directory self entry rest)
  unfolding emit_directory
  emit_directory-IsFaithful entry rest = record {
    root_text = f.root_text;
    paths = λ id. ground (
      arith,
      get-insert self.resolved_paths entry.file_id (path_under self entry) id,
      f.paths id,
    );
    placed = (inr (rw (f.paths (normalized_parent entry), f.root_text) refl), f.placed);
  }

  pub release-IsFaithful : (parent : ℕ) → IsFaithful root (release self parent)
  release-IsFaithful parent = elim (Option-cases (IdMap.get self.orphan_dirs parent)) [
    | inl e ↦ rw (release-none self parent e) f
    | inr (children, e) ↦
        rw (release-some self parent children e)
          record { root_text = f.root_text; paths = f.paths; placed = f.placed }
  ]

pub drain_one-IsFaithful :
    (root : Text) (self : NtfsStreamState) (entry : ParsedNtfsEntry) (rest : List ParsedNtfsEntry)
    → IsFaithful root self
    → IsFaithful root (drain_one self entry rest)
unfolding drain_one
drain_one-IsFaithful root self entry rest f =
    release-IsFaithful root (emit_directory self entry rest)
      (emit_directory-IsFaithful root self f entry rest) entry.file_id

pub drain_cascade-IsFaithful :
    (root : Text) (self : NtfsStreamState)
    → IsFaithful root self
    → IsFaithful root (drain_cascade self)
unfolding drain_cascade
drain_cascade-IsFaithful root self f =
    drain_loop-keeps (IsFaithful root) (λ s entry rest e. drain_one-IsFaithful root s entry rest)
      (waiting self) self f
