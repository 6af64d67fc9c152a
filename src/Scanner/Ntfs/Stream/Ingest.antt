-- ===== src/Scanner/Ntfs/Stream/Ingest.antt =====
-- `drain_cascade`, `ingest_entry` and `ingest_extension` of `NtfsStreamState`. The loop of
-- `drain_cascade` runs on fuel: one round for each directory that waits.
use win_blaze.Base.{
  ℕ, zero, suc, ◌+◌, ◌-◌, ◌&&◌, Option, none, some, List, [], ◌∷◌, ◌++◌, ◌==◌, if◌then◌else◌,
  length, max,
}
use win_blaze.Base.Words.{saturating_add}
use win_blaze.Base.IdMap
use win_blaze.Base.IdMap.{IdMap}
use win_blaze.Base.IdMap.Totals.{total}
use win_blaze.Core.Timestamps.{new_timestamps}
use win_blaze.Core.Scan.{file_found}
use win_blaze.Scanner.Ntfs.Records.{ParsedNtfsEntry, ExtensionSizes}
use win_blaze.Scanner.Ntfs.Stream.{
  NtfsStreamState, ntfs_root_record, normalized_parent, parent_under, unwrap_or, is_some, emit_file,
  file_of, drain_one,
}

-- The directories that wait: those of the worklist and the orphans.
abbrev pub waiting : NtfsStreamState → ℕ
waiting self = length self.cascade + total length self.orphan_dirs

unfoldable pub drain_loop : ℕ → NtfsStreamState → NtfsStreamState
unfolding drain_one
drain_loop zero self = self
drain_loop (suc fuel) self = elim self.cascade [
  | [] ↦ self
  | entry ∷ rest ↦ drain_loop fuel (drain_one self entry rest)
]

unfoldable pub drain_cascade : NtfsStreamState → NtfsStreamState
unfolding drain_loop
drain_cascade self = drain_loop (waiting self) self

-- The sizes that came before the entry are taken from `pending_extensions`.
unfoldable pub merge_pending : Option ExtensionSizes → ParsedNtfsEntry → ParsedNtfsEntry
merge_pending none entry = entry
merge_pending (some sizes) entry = record entry {
  size_bytes = max entry.size_bytes sizes.size_bytes;
  allocation_bytes = max entry.allocation_bytes sizes.allocation_bytes;
}

-- `orphan_dirs.entry(parent).or_default().push(entry)`
unfoldable pub push_orphan :
    IdMap (List ParsedNtfsEntry) → ℕ → ParsedNtfsEntry → IdMap (List ParsedNtfsEntry)
unfolding IdMap.insert IdMap.get
push_orphan orphans parent entry =
    IdMap.insert orphans parent (unwrap_or (IdMap.get orphans parent) [] ++ entry ∷ [])

unfoldable pub ingest_directory : NtfsStreamState → ParsedNtfsEntry → NtfsStreamState
unfolding IdMap.get parent_under drain_cascade push_orphan
ingest_directory self entry =
    if is_some (IdMap.get self.resolved_paths (normalized_parent entry))
    then drain_cascade (record self { cascade = entry ∷ self.cascade })
    else record self { orphan_dirs = push_orphan self.orphan_dirs (normalized_parent entry) entry }

-- The test for an empty map only saves the look up.
unfoldable pub ingest_entry : NtfsStreamState → ParsedNtfsEntry → NtfsStreamState
unfolding IdMap.get IdMap.remove merge_pending ingest_directory emit_file
ingest_entry self parsed =
    let file_id = parsed.file_id in
    let entry = merge_pending (IdMap.get self.pending_extensions file_id) parsed in
    let taken : NtfsStreamState = record self {
      pending_extensions = IdMap.remove self.pending_extensions file_id;
    } in
    if entry.is_directory
    then if file_id == ntfs_root_record then taken else ingest_directory taken entry
    else emit_file taken entry

-- An extension of a file that is already emitted, and kept: emit it again with the sizes it has now.
unfoldable pub correct_sizes : NtfsStreamState → ExtensionSizes → ParsedNtfsEntry → NtfsStreamState
unfolding IdMap.insert new_timestamps
correct_sizes self extension entry =
    let size = max entry.size_bytes extension.size_bytes in
    let allocation = max entry.allocation_bytes extension.allocation_bytes in
    let corrected : ParsedNtfsEntry = record entry {
      size_bytes = size;
      allocation_bytes = allocation;
    } in
    if size == entry.size_bytes && allocation == entry.allocation_bytes then self else record self {
      total_size_bytes = saturating_add self.total_size_bytes (size - entry.size_bytes);
      total_allocation_bytes =
          saturating_add self.total_allocation_bytes (allocation - entry.allocation_bytes);
      retained_files = IdMap.insert self.retained_files extension.base_record corrected;
      emitted = file_found (file_of corrected) ∷ self.emitted;
    }

-- `pending_extensions.entry(…).and_modify(…).or_insert(extension)`
unfoldable pub larger_sizes : Option ExtensionSizes → ExtensionSizes → ExtensionSizes
larger_sizes none extension = extension
larger_sizes (some sizes) extension = record sizes {
  size_bytes = max sizes.size_bytes extension.size_bytes;
  allocation_bytes = max sizes.allocation_bytes extension.allocation_bytes;
}

unfoldable pub park_sizes : NtfsStreamState → ExtensionSizes → NtfsStreamState
unfolding IdMap.get IdMap.insert larger_sizes
park_sizes self extension =
    if is_some (IdMap.get self.resolved_paths extension.base_record) then self else record self {
      pending_extensions =
          IdMap.insert self.pending_extensions extension.base_record
            (larger_sizes (IdMap.get self.pending_extensions extension.base_record) extension);
    }

unfoldable pub ingest_extension : NtfsStreamState → ExtensionSizes → NtfsStreamState
unfolding IdMap.get correct_sizes park_sizes
ingest_extension self extension = elim (IdMap.get self.retained_files extension.base_record) [
  | none ↦ park_sizes self extension
  | some entry ↦ correct_sizes self extension entry
]
