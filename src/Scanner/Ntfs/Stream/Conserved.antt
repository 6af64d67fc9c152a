-- ===== src/Scanner/Ntfs/Stream/Conserved.antt =====
-- Each directory that is parsed is emitted, exactly as often as it is parsed.
use win_blaze.Base.{
  ℕ, ◌+◌, ◌≡◌, refl, ap, ◌∙◌, inl, inr, Bool-cases, Option-cases, Bool, true, false, not, ◌&&◌,
  Option, none, some, List, [], ◌∷◌, ◌++◌, arith, ◌==◌, if◌then◌else◌,
}
use win_blaze.Base.IdMap
use win_blaze.Base.IdMap.Totals.{total-insert, insert-HasDistinctKeys}
use win_blaze.Scanner.Ntfs.Records.{ParsedNtfsEntry, ExtensionSizes}
use win_blaze.Scanner.Ntfs.Stream.{
  NtfsStreamState, ntfs_root_record, normalized_parent, emit_file, is_some, unwrap_or,
}
use win_blaze.Scanner.Ntfs.Stream.Ingest.{
  drain_cascade, merge_pending, push_orphan, ingest_directory, ingest_entry, correct_sizes,
  park_sizes, ingest_extension,
}
use win_blaze.Scanner.Ntfs.Stream.Drained.{count, count_found, count_all, count-append}
use win_blaze.Scanner.Ntfs.Stream.Emptied.{IsSettled}
use win_blaze.Scanner.Ntfs.Stream.Finished.{drain_cascade-IsSettled, drain_cascade-count}

-- The directories that a parsed entry stands for: itself, unless it is a file or the root.
abbrev pub count_entry : ℕ → ParsedNtfsEntry → ℕ
count_entry id entry =
    if entry.is_directory && not (entry.file_id == ntfs_root_record)
    then (if entry.file_id == id then 1 else 0)
    else 0

-- A settled state, and the directories of a settled state before with `n` more.
pub record Adds (id n : ℕ) (self after : NtfsStreamState) : Type 0 where
  pub settled : IsSettled after
  pub counts : count_all id after ≡ n + count_all id self

module _ (id : ℕ) (self : NtfsStreamState) (s : IsSettled self) where
  cascaded-Adds :
      (entry : ParsedNtfsEntry)
      → Adds id
          (if entry.file_id == id then 1 else 0)
          self
          (drain_cascade (record self { cascade = entry ∷ self.cascade }))
  cascaded-Adds entry =
      let pushed : NtfsStreamState = record self { cascade = entry ∷ self.cascade } in
      record {
        settled = drain_cascade-IsSettled pushed s.keys;
        counts = drain_cascade-count id pushed s.keys ∙ omega arith;
      }

  orphaned-Adds :
      (parent : ℕ) (entry : ParsedNtfsEntry)
      → Adds id
          (if entry.file_id == id then 1 else 0)
          self
          (record self { orphan_dirs = push_orphan self.orphan_dirs parent entry })
  unfolding push_orphan
  orphaned-Adds parent entry =
      let bucket : List ParsedNtfsEntry =
        unwrap_or (IdMap.get self.orphan_dirs parent) [] ++ entry ∷ [] in
      record {
        settled = record {
          keys = insert-HasDistinctKeys self.orphan_dirs parent bucket s.keys;
          empty = s.empty;
        };
        counts = ground (
          arith,
          count-append id (unwrap_or (IdMap.get self.orphan_dirs parent) []) (entry ∷ []),
          total-insert (count id) self.orphan_dirs parent bucket s.keys,
        );
      }

  ingest_directory-Adds :
      (entry : ParsedNtfsEntry)
      → Adds id (if entry.file_id == id then 1 else 0) self (ingest_directory self entry)
  unfolding ingest_directory
  ingest_directory-Adds entry =
      elim (Bool-cases (is_some (IdMap.get self.resolved_paths (normalized_parent entry)))) [
        | inl e ↦ rw e (cascaded-Adds entry)
        | inr e ↦ rw e (orphaned-Adds (normalized_parent entry) entry)
      ]

  -- A state whose worklist, orphans and events of directories are those of `self`.
  pub unmoved-Adds :
      (after : NtfsStreamState)
      → after.cascade ≡ self.cascade
      → after.orphan_dirs ≡ self.orphan_dirs
      → count_found id after.emitted ≡ count_found id self.emitted
      → Adds id 0 self after
  unmoved-Adds after c o e = record {
    settled = record { keys = rw o s.keys; empty = c ∙ s.empty };
    counts = ground (arith, c, o, e);
  }

  emit_file-Adds : (entry : ParsedNtfsEntry) → Adds id 0 self (emit_file self entry)
  unfolding emit_file
  emit_file-Adds entry = unmoved-Adds _ refl refl refl

  correct_sizes-Adds :
      (extension : ExtensionSizes) (entry : ParsedNtfsEntry)
      → Adds id 0 self (correct_sizes self extension entry)
  unfolding correct_sizes
  correct_sizes-Adds extension entry =
      unmoved-Adds (correct_sizes self extension entry) (ground arith) (ground arith) (ground arith)

  park_sizes-Adds : (extension : ExtensionSizes) → Adds id 0 self (park_sizes self extension)
  unfolding park_sizes
  park_sizes-Adds extension =
      unmoved-Adds (park_sizes self extension) (ground arith) (ground arith) (ground arith)

  pub ingest_extension-Adds :
      (extension : ExtensionSizes) → Adds id 0 self (ingest_extension self extension)
  unfolding ingest_extension
  ingest_extension-Adds extension =
      elim (Option-cases (IdMap.get self.retained_files extension.base_record)) [
        | inl e ↦ rw (e, ingest_extension) (park_sizes-Adds extension)
        | inr (entry, e) ↦ rw (e, ingest_extension) (correct_sizes-Adds extension entry)
      ]

pub Adds-trans :
    {id m n : ℕ} {a b c : NtfsStreamState} → Adds id m a b → Adds id n b c → Adds id (m + n) a c
Adds-trans p q = record { settled = q.settled; counts = omega (arith, p.counts, q.counts) }

-- The two steps of `ingest_entry`.
abbrev pub taken : NtfsStreamState → ParsedNtfsEntry → NtfsStreamState
taken self entry = record self {
  pending_extensions = IdMap.remove self.pending_extensions entry.file_id;
}

abbrev pub merged : NtfsStreamState → ParsedNtfsEntry → ParsedNtfsEntry
merged self entry = merge_pending (IdMap.get self.pending_extensions entry.file_id) entry

unfoldable pub ingest_merged : NtfsStreamState → ParsedNtfsEntry → NtfsStreamState
ingest_merged self entry =
    if entry.is_directory
    then if entry.file_id == ntfs_root_record then self else ingest_directory self entry
    else emit_file self entry

merge_pending-file_id :
    (o : Option ExtensionSizes) (entry : ParsedNtfsEntry)
    → (merge_pending o entry).file_id ≡ entry.file_id
unfolding merge_pending
merge_pending-file_id none entry = refl
merge_pending-file_id (some sizes) entry = refl

merge_pending-count_entry :
    (id : ℕ) (o : Option ExtensionSizes) (entry : ParsedNtfsEntry)
    → count_entry id (merge_pending o entry) ≡ count_entry id entry
unfolding merge_pending
merge_pending-count_entry id none entry = refl
merge_pending-count_entry id (some sizes) entry = refl

-- The three ways of an entry: the root, another directory, a file.
branches-Adds :
    {id n : ℕ} {self directory file : NtfsStreamState} (is_directory is_root : Bool)
    → Adds id 0 self self
    → Adds id n self directory
    → Adds id 0 self file
    → Adds id
        (if is_directory && not is_root then n else 0)
        self
        (if is_directory then if is_root then self else directory else file)
branches-Adds true true root directory file = root
branches-Adds true false root directory file = directory
branches-Adds false true root directory file = file
branches-Adds false false root directory file = file

module _ (id : ℕ) (self : NtfsStreamState) (s : IsSettled self) where
  ingest_merged-Adds :
      (entry : ParsedNtfsEntry) → Adds id (count_entry id entry) self (ingest_merged self entry)
  unfolding ingest_merged
  ingest_merged-Adds entry =
      branches-Adds entry.is_directory (entry.file_id == ntfs_root_record)
        (unmoved-Adds id self s self refl refl refl) (ingest_directory-Adds id self s entry)
        (emit_file-Adds id self s entry)

pub ingest_entry-merged :
    (self : NtfsStreamState) (entry : ParsedNtfsEntry)
    → ingest_entry self entry ≡ ingest_merged (taken self entry) (merged self entry)
unfolding ingest_entry ingest_merged
ingest_entry-merged self entry =
    rw (merge_pending-file_id (IdMap.get self.pending_extensions entry.file_id) entry) refl

pub ingest_entry-Adds :
    (id : ℕ) (self : NtfsStreamState)
    → IsSettled self
    → (entry : ParsedNtfsEntry) → Adds id (count_entry id entry) self (ingest_entry self entry)
ingest_entry-Adds id self s entry = rw (ingest_entry-merged self entry) (
    let settled : IsSettled (taken self entry) = record { keys = s.keys; empty = s.empty } in
    let o = IdMap.get self.pending_extensions entry.file_id in
    let added = ingest_merged-Adds id (taken self entry) settled (merged self entry) in
    record {
      settled = added.settled;
      counts =
          added.counts ∙ ap (λ n. n + count_all id self) (merge_pending-count_entry id o entry);
    })
