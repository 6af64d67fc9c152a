-- ===== src/Scanner/Ntfs/Stream/Paths.antt =====
-- The paths of a whole scan, the last pass included.
use win_blaze.Base.{
  ℕ, zero, suc, ◌≡◌, refl, ◌∙◌, inl, inr, Bool-cases, List-cases, Option-cases, Bool, true, false,
  List, [], ◌∷◌, arith, ◌==◌, if◌then◌else◌, length,
}
use win_blaze.Base.Text.{Text}
use mathlib.Core.Path.{sym}
use win_blaze.Base.IdMap
use win_blaze.Base.IdMap.{get-insert}
use win_blaze.Core.Scan.{ScanEvent}
use win_blaze.Scanner.Ntfs.Records.{ParsedNtfsEntry, ExtensionSizes}
use win_blaze.Scanner.Ntfs.Stream.{
  NtfsStreamState, ntfs_root_record, normalized_parent, is_some, emit_root, release, emit_file,
}
use win_blaze.Scanner.Ntfs.Stream.Ingest.{
  ingest_directory, ingest_entry, correct_sizes, park_sizes, ingest_extension,
}
use win_blaze.Scanner.Ntfs.Stream.Finish.{
  Batch, Message, batch, error, Consumer, ingest_entries, ingest_extensions, report_progress,
  consume, consume_all, stream_records, Streamed, streamed, aborted, finish, finish_loop,
  finish_round, drain_stuck,
}
use win_blaze.Scanner.Ntfs.Stream.Finished.{
  drain_stuck-none, drain_stuck-some, finish_loop-nil, finish_loop-cons, unstuck,
}
use win_blaze.Scanner.Ntfs.Stream.Conserved.{taken, merged, ingest_merged, ingest_entry-merged}
use win_blaze.Scanner.Ntfs.Stream.Placed.{
  IsPlaced, IsFaithful, path_of, release-IsFaithful, drain_cascade-IsFaithful,
}

module _ (root : Text) where
  drain_stuck-IsFaithful :
      (self : NtfsStreamState) (stuck : List ℕ)
      → IsFaithful root self
      → IsFaithful root (drain_stuck self stuck)
  unfolding drain_stuck
  drain_stuck-IsFaithful self [] f = f
  drain_stuck-IsFaithful self (parent ∷ stuck) f =
      elim (Option-cases (IdMap.get self.orphan_dirs parent)) [
        | inl e ↦ rw (drain_stuck-none self parent stuck e) (drain_stuck-IsFaithful self stuck f)
        | inr (children, e) ↦ rw (drain_stuck-some self parent stuck children e) (
            drain_stuck-IsFaithful (unstuck self parent) stuck (
              drain_cascade-IsFaithful root (release self parent)
                (release-IsFaithful root self f parent)))
      ]

  finish_loop-IsFaithful :
      (fuel : ℕ) (self : NtfsStreamState)
      → IsFaithful root self
      → IsFaithful root (finish_loop fuel self)
  unfolding finish_loop finish_round
  finish_loop-IsFaithful zero self f = f
  finish_loop-IsFaithful (suc fuel) self f = elim (List-cases self.orphan_dirs) [
    | inl e ↦ rw (finish_loop-nil fuel self e) f
    | inr (bucket, (rest, e)) ↦
        rw (finish_loop-cons fuel self bucket rest e)
          (finish_loop-IsFaithful fuel (finish_round self) (drain_stuck-IsFaithful self _ f))
  ]

  -- A state with the same resolved paths and the same events of directories.
  same-IsFaithful :
      {self : NtfsStreamState} (after : NtfsStreamState)
      → IsFaithful root self
      → after.root_text ≡ self.root_text
      → after.resolved_paths ≡ self.resolved_paths
      → ((id : ℕ) → path_of id after.emitted ≡ path_of id self.emitted)
      → (IsPlaced root self.emitted → IsPlaced root after.emitted)
      → IsFaithful root after
  same-IsFaithful after f r p e h = record {
    root_text = r ∙ f.root_text;
    paths = λ id. rw p (f.paths id ∙ sym (e id));
    placed = h f.placed;
  }

  choose-IsFaithful :
      {self directory file : NtfsStreamState} (is_directory is_root : Bool)
      → IsFaithful root self
      → IsFaithful root directory
      → IsFaithful root file
      → IsFaithful root (if is_directory then if is_root then self else directory else file)
  choose-IsFaithful true true f g h = f
  choose-IsFaithful true false f g h = g
  choose-IsFaithful false is_root f g h = h

  module _ (self : NtfsStreamState) (f : IsFaithful root self) where
    ingest_directory-IsFaithful :
        (entry : ParsedNtfsEntry) → IsFaithful root (ingest_directory self entry)
    unfolding ingest_directory
    ingest_directory-IsFaithful entry =
        elim (Bool-cases (is_some (IdMap.get self.resolved_paths (normalized_parent entry)))) [
          | inl e ↦ rw e (
              drain_cascade-IsFaithful root (record self { cascade = entry ∷ self.cascade })
                (same-IsFaithful _ f refl refl (λ id. refl) (λ h. h)))
          | inr e ↦ rw e (same-IsFaithful _ f refl refl (λ id. refl) (λ h. h))
        ]

    ingest_merged-IsFaithful :
        (entry : ParsedNtfsEntry) → IsFaithful root (ingest_merged self entry)
    unfolding ingest_merged emit_file
    ingest_merged-IsFaithful entry =
        choose-IsFaithful entry.is_directory (entry.file_id == ntfs_root_record) f
          (ingest_directory-IsFaithful entry)
          (same-IsFaithful (emit_file self entry) f refl refl (λ id. refl) (λ h. h))

    correct_sizes-IsFaithful :
        (extension : ExtensionSizes) (entry : ParsedNtfsEntry)
        → IsFaithful root (correct_sizes self extension entry)
    unfolding correct_sizes
    correct_sizes-IsFaithful extension entry =
        same-IsFaithful (correct_sizes self extension entry) f (ground arith) (ground arith)
          (λ id. ground arith) (ground arith)

    park_sizes-IsFaithful :
        (extension : ExtensionSizes) → IsFaithful root (park_sizes self extension)
    unfolding park_sizes
    park_sizes-IsFaithful extension =
        same-IsFaithful (park_sizes self extension) f (ground arith) (ground arith)
          (λ id. ground arith) (ground arith)

    ingest_extension-IsFaithful :
        (extension : ExtensionSizes) → IsFaithful root (ingest_extension self extension)
    unfolding ingest_extension
    ingest_extension-IsFaithful extension =
        elim (Option-cases (IdMap.get self.retained_files extension.base_record)) [
          | inl e ↦ rw (e, ingest_extension) (park_sizes-IsFaithful extension)
          | inr (entry, e) ↦ rw (e, ingest_extension) (correct_sizes-IsFaithful extension entry)
        ]

    report_progress-IsFaithful :
        (last total_records processed_records : ℕ)
        → IsFaithful root
            (report_progress total_records processed_records
              (record { state = self; last_progress_records = last })).state
    unfolding report_progress
    report_progress-IsFaithful last total_records processed_records =
        same-IsFaithful
          (report_progress total_records processed_records
            (record { state = self; last_progress_records = last })).state
          f (ground arith) (ground arith) (λ id. ground arith) (ground arith)

  ingest_entry-IsFaithful :
      (self : NtfsStreamState) (entry : ParsedNtfsEntry)
      → IsFaithful root self
      → IsFaithful root (ingest_entry self entry)
  ingest_entry-IsFaithful self entry f = rw (ingest_entry-merged self entry) (
      ingest_merged-IsFaithful (taken self entry)
        (same-IsFaithful (taken self entry) f refl refl (λ id. refl) (λ h. h)) (merged self entry))

  ingest_entries-IsFaithful :
      (entries : List ParsedNtfsEntry) (self : NtfsStreamState)
      → IsFaithful root self
      → IsFaithful root (ingest_entries self entries)
  unfolding ingest_entries
  ingest_entries-IsFaithful [] self f = f
  ingest_entries-IsFaithful (entry ∷ entries) self f =
      ingest_entries-IsFaithful entries (ingest_entry self entry)
        (ingest_entry-IsFaithful self entry f)

  ingest_extensions-IsFaithful :
      (extensions : List ExtensionSizes) (self : NtfsStreamState)
      → IsFaithful root self
      → IsFaithful root (ingest_extensions self extensions)
  unfolding ingest_extensions
  ingest_extensions-IsFaithful [] self f = f
  ingest_extensions-IsFaithful (sizes ∷ extensions) self f =
      ingest_extensions-IsFaithful extensions (ingest_extension self sizes)
        (ingest_extension-IsFaithful self f sizes)

  consume-IsFaithful :
      (total_records : ℕ) (self : Consumer) (message : Batch)
      → IsFaithful root self.state
      → IsFaithful root (consume total_records self message).state
  unfolding consume
  consume-IsFaithful total_records self message f =
      report_progress-IsFaithful
        (ingest_extensions (ingest_entries self.state message.parsed) message.extensions)
        (ingest_extensions-IsFaithful message.extensions (ingest_entries self.state message.parsed)
          (ingest_entries-IsFaithful message.parsed self.state f))
        self.last_progress_records total_records message.processed_records

-- The events of a scan, ended or not.
abbrev pub events_of : Streamed → List ScanEvent
events_of (streamed self) = self.emitted
events_of (aborted self) = self.emitted

consume_all-IsPlaced :
    (root : Text) (total_records : ℕ) (self : Consumer) (messages : List Message)
    → IsFaithful root self.state
    → IsPlaced root (events_of (consume_all total_records self messages))
unfolding consume_all finish
consume_all-IsPlaced root total_records self [] f =
    (finish_loop-IsFaithful root (length self.state.orphan_dirs) self.state f).placed
consume_all-IsPlaced root total_records self (batch message ∷ messages) f =
    consume_all-IsPlaced root total_records (consume total_records self message) messages
      (consume-IsFaithful root total_records self message f)
consume_all-IsPlaced root total_records self (error ∷ messages) f = f.placed

-- Whatever the parser sends, errors included, each directory that the scan emits is the root
-- under its own path, or has a path joined of its name and that of its parent: the path that
-- the parent was last emitted with before, or the root's if it was not.
pub stream_records-IsPlaced :
    (root : Text) (total_records : ℕ) (messages : List Message)
    → IsPlaced root (events_of (stream_records root total_records messages))
unfolding stream_records emit_root IdMap.get IdMap.insert IdMap.remove
stream_records-IsPlaced root total_records messages =
    consume_all-IsPlaced root total_records _ messages
      record { root_text = refl; paths = λ id. ground arith; placed = (inl (refl, refl), tt) }
