-- ===== src/Scanner/Ntfs/Stream/Sizes.antt =====
-- The sizes of an extension record count the same before the file's own record and after it.
use win_blaze.Base.{
  ℕ, ◌-◌, ◌≡◌, refl, ap, ◌∙◌, inl, inr, Bool-cases, Bool, true, false, ◌&&◌, Option, none, some,
  List, [], ◌∷◌, arith, ◌==◌, if◌then◌else◌, max,
}
use win_blaze.Base.Words.{saturating_add}
use win_blaze.Base.IdMap
use win_blaze.Base.IdMap.{IdMap, get-insert}
use win_blaze.Core.Model.{FileRecord}
use win_blaze.Core.Scan.{ScanEvent, file_found}
use win_blaze.Scanner.Ntfs.Records.{ParsedNtfsEntry, ExtensionSizes}
use win_blaze.Scanner.Ntfs.Stream.{NtfsStreamState, emit_file, file_of}
use win_blaze.Scanner.Ntfs.Stream.Ingest.{
  merge_pending, larger_sizes, ingest_entry, correct_sizes, park_sizes, ingest_extension,
}
use win_blaze.Scanner.Ntfs.Stream.Finish.{into_summary}

-- The record that the last event of a file has.
abbrev pub latest_file : ℕ → List ScanEvent → Option FileRecord
latest_file id [] = none
latest_file id (file_found file ∷ events) =
    if file.id == id then some file else latest_file id events
latest_file id (_ ∷ events) = latest_file id events

larger_sizes-merge :
    (o : Option ExtensionSizes) (sizes : ExtensionSizes) (entry : ParsedNtfsEntry)
    → merge_pending (some (larger_sizes o sizes)) entry
      ≡ merge_pending (some sizes) (merge_pending o entry)
unfolding merge_pending larger_sizes
larger_sizes-merge none sizes entry = refl
larger_sizes-merge (some pending) sizes entry =
    let size : max entry.size_bytes (max pending.size_bytes sizes.size_bytes)
        ≡ max (max entry.size_bytes pending.size_bytes) sizes.size_bytes =
      omega arith in
    let allocation : max entry.allocation_bytes
          (max pending.allocation_bytes sizes.allocation_bytes)
        ≡ max (max entry.allocation_bytes pending.allocation_bytes) sizes.allocation_bytes =
      omega arith in
    λ i. record entry { size_bytes = size i; allocation_bytes = allocation i }

abbrev pub of_file : ParsedNtfsEntry → ℕ → ℕ → ExtensionSizes
of_file entry size allocation = record {
  base_record = entry.file_id;
  size_bytes = size;
  allocation_bytes = allocation;
}

module _ (self : NtfsStreamState) (entry : ParsedNtfsEntry) (size allocation : ℕ)
    (file : entry.is_directory ≡ false) where
  pending : Option ExtensionSizes
  pending = IdMap.get self.pending_extensions entry.file_id

  parked : NtfsStreamState
  parked = record self {
    pending_extensions =
        IdMap.insert self.pending_extensions entry.file_id
          (larger_sizes pending (of_file entry size allocation));
  }

  parked_eq :
      IdMap.get self.retained_files entry.file_id ≡ none
      → IdMap.get self.resolved_paths entry.file_id ≡ none
      → ingest_extension self (of_file entry size allocation) ≡ parked
  unfolding ingest_extension park_sizes parked pending
  parked_eq r d = simp (r, d, ingest_extension, park_sizes)

  -- The state in which `ingest_entry` emits the file, of a state with these pending sizes.
  emitted_eq :
      (s : NtfsStreamState) (o : Option ExtensionSizes)
      → IdMap.get s.pending_extensions entry.file_id ≡ o
      → ingest_entry s entry
        ≡ emit_file
            (record s { pending_extensions = IdMap.remove s.pending_extensions entry.file_id })
            (merge_pending o entry)
  unfolding ingest_entry merge_pending
  emitted_eq s none e = simp (e, ingest_entry, merge_pending, file)
  emitted_eq s (some sizes) e = simp (e, ingest_entry, merge_pending, file)

merge_pending-keeps :
    (o : Option ExtensionSizes) (entry : ParsedNtfsEntry)
    → ((merge_pending o entry).file_id ≡ entry.file_id)
      × ((merge_pending o entry).has_attribute_list ≡ entry.has_attribute_list)
unfolding merge_pending
merge_pending-keeps none entry = (refl, refl)
merge_pending-keeps (some sizes) entry = (refl, refl)

kept_eq :
    (s : NtfsStreamState) (m : ParsedNtfsEntry) (id size allocation : ℕ)
    → m.file_id ≡ id
    → m.has_attribute_list ≡ true
    → ingest_extension
        (emit_file s m)
        (record { base_record = id; size_bytes = size; allocation_bytes = allocation })
      ≡ correct_sizes
          (emit_file s m)
          (record { base_record = id; size_bytes = size; allocation_bytes = allocation })
          m
unfolding ingest_extension emit_file
kept_eq s m id size allocation same list =
    let kept : IdMap.get (emit_file s m).retained_files id ≡ some m =
      ground (arith, get-insert s.retained_files m.file_id m id) in
    simp (kept, ingest_extension)

merge_pending-same :
    (sizes : ExtensionSizes) (m : ParsedNtfsEntry)
    → max m.size_bytes sizes.size_bytes ≡ m.size_bytes
    → max m.allocation_bytes sizes.allocation_bytes ≡ m.allocation_bytes
    → merge_pending (some sizes) m ≡ m
unfolding merge_pending
merge_pending-same sizes m a b = λ i. record m { size_bytes = a i; allocation_bytes = b i }

saturating_add-max :
    (total a b : ℕ)
    → saturating_add total (max a b) ≡ saturating_add (saturating_add total a) (max a b - a)
saturating_add-max total a b = omega arith

-- Emitted once with the larger sizes, or emitted and corrected.
module _ (s : NtfsStreamState) (pending : IdMap ExtensionSizes) (m : ParsedNtfsEntry)
    (sizes : ExtensionSizes) where
  once : NtfsStreamState
  once = emit_file s (merge_pending (some sizes) m)

  corrected : NtfsStreamState
  corrected = correct_sizes (emit_file (record s { pending_extensions = pending }) m) sizes m

  same_sizes : Bool
  same_sizes =
      max m.size_bytes sizes.size_bytes == m.size_bytes
      && max m.allocation_bytes sizes.allocation_bytes == m.allocation_bytes

  once-corrected-summary : into_summary once ≡ into_summary corrected
  unfolding into_summary emit_file correct_sizes merge_pending once corrected same_sizes
  once-corrected-summary = elim (Bool-cases same_sizes) [
    | inl e ↦
        simp (e, correct_sizes)
          (let a : max m.size_bytes sizes.size_bytes ≡ m.size_bytes = ground (arith, e) in
            let b : max m.allocation_bytes sizes.allocation_bytes ≡ m.allocation_bytes =
              ground (arith, e) in
            rw (a, b) refl)
    | inr e ↦
        simp (e, correct_sizes)
          (let a = saturating_add-max s.total_size_bytes m.size_bytes sizes.size_bytes in
            let b =
              saturating_add-max s.total_allocation_bytes m.allocation_bytes
                sizes.allocation_bytes in
            λ i. record (into_summary once) {
              total_size_bytes = a i;
              total_allocation_bytes = b i;
            })
  ]

  once-corrected-latest :
      (id : ℕ) → m.file_id ≡ id → latest_file id once.emitted ≡ latest_file id corrected.emitted
  unfolding emit_file correct_sizes merge_pending once corrected same_sizes
  once-corrected-latest id same = elim (Bool-cases same_sizes) [
    | inl e ↦
        simp (e, correct_sizes)
          (let a : max m.size_bytes sizes.size_bytes ≡ m.size_bytes = ground (arith, e) in
            let b : max m.allocation_bytes sizes.allocation_bytes ≡ m.allocation_bytes =
              ground (arith, e) in
            let found = λ (entry : ParsedNtfsEntry).
              latest_file id (file_found (file_of entry) ∷ s.emitted) in
            ap found (merge_pending-same sizes m a b))
    | inr e ↦ simp (e, correct_sizes) (ground (arith, same))
  ]

-- For a file with an attribute list that was not seen yet, and whose identifier is no
-- directory's: the sizes of an extension record before its entry give the same summary, and the
-- same latest record of the file, as after it.
pub ingest_entry-ingest_extension_swap :
    (self : NtfsStreamState) (entry : ParsedNtfsEntry) (size allocation : ℕ)
    → entry.is_directory ≡ false
    → entry.has_attribute_list ≡ true
    → IdMap.get self.retained_files entry.file_id ≡ none
    → IdMap.get self.resolved_paths entry.file_id ≡ none
    → (into_summary (ingest_entry (ingest_extension self (of_file entry size allocation)) entry)
        ≡ into_summary (ingest_extension (ingest_entry self entry) (of_file entry size allocation)))
      × (latest_file entry.file_id
            (ingest_entry (ingest_extension self (of_file entry size allocation)) entry).emitted
          ≡ latest_file entry.file_id
              (ingest_extension (ingest_entry self entry) (of_file entry size allocation)).emitted)
unfolding parked pending once corrected
ingest_entry-ingest_extension_swap self entry size allocation file list retained resolved =
    let sizes = of_file entry size allocation in
    let o = pending self entry size allocation file in
    let s = parked self entry size allocation file in
    let m = merge_pending o entry in
    let (same, lists) = merge_pending-keeps o entry in
    let got : IdMap.get s.pending_extensions entry.file_id ≡ some (larger_sizes o sizes) = ground (
      arith,
      get-insert self.pending_extensions entry.file_id (larger_sizes o sizes) entry.file_id,
    ) in
    let first = emitted_eq self entry size allocation file s (some (larger_sizes o sizes)) got in
    let later = emitted_eq self entry size allocation file self o refl in
    let taken : NtfsStreamState = record self {
      pending_extensions = IdMap.remove self.pending_extensions entry.file_id;
    } in
    let kept = kept_eq taken m entry.file_id size allocation same (lists ∙ list) in
    rw
      (
        parked_eq self entry size allocation file retained resolved,
        first,
        later,
        kept,
        larger_sizes-merge o sizes entry,
      )
      (
        once-corrected-summary _ taken.pending_extensions m sizes,
        once-corrected-latest _ taken.pending_extensions m sizes entry.file_id same,
      )
