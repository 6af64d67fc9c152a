-- ===== src/Scanner/StreamTests.antt =====
-- The theorems about the stream of src/WinBlaze.Scanner/src/ntfs.rs at concrete inputs.
use win_blaze.Base.{
  ℕ, ◌+◌, ◌≡◌, refl, true, false, none, some, List, [], ◌∷◌, ◌==◌, if◌then◌else◌, map,
}
use win_blaze.Base.Text.{Text}
use win_blaze.Base.IdMap
use win_blaze.Core.Model.{directory_attribute, archive_attribute}
use win_blaze.Scanner.Ntfs.Records.{ParsedNtfsEntry}
use win_blaze.Scanner.Ntfs.Stream.{NtfsStreamState, ntfs_root_record, new_stream, emit_root}
use win_blaze.Scanner.Ntfs.Stream.Ingest.{ingest_entry, ingest_extension}
use win_blaze.Scanner.Ntfs.Stream.Finish.{Batch, batch, stream_records, streamed, into_summary}
use win_blaze.Scanner.Ntfs.Stream.Drained.{count_found}
use win_blaze.Scanner.Ntfs.Stream.Whole.{count_parsed, stream_records_complete}
use win_blaze.Scanner.Ntfs.Stream.Placed.{IsPlaced}
use win_blaze.Scanner.Ntfs.Stream.Paths.{events_of, stream_records-IsPlaced}
use win_blaze.Scanner.Ntfs.Stream.Sizes.{latest_file, of_file, ingest_entry-ingest_extension_swap}

-- "C:"
abbrev drive : Text
drive = b'C' ∷ b':' ∷ []

abbrev directory : ℕ → ℕ → ParsedNtfsEntry
directory id parent = record {
  file_id = id;
  parent_directory_id = some parent;
  name = b'd' ∷ [];
  is_directory = true;
  has_attribute_list = false;
  size_bytes = 0;
  allocation_bytes = 0;
  attributes = directory_attribute;
  created_utc = none;
  modified_utc = none;
  accessed_utc = none;
}

abbrev large_file : ParsedNtfsEntry
large_file = record (directory 40 30) {
  is_directory = false;
  has_attribute_list = true;
  size_bytes = 10;
  allocation_bytes = 4096;
  attributes = archive_attribute;
}

-- A child before its parent, an orphan, a cycle of two, and a file with a larger extension.
abbrev batches : List Batch
batches =
    record {
      parsed = directory 31 30 ∷ directory 30 5 ∷ directory 50 99 ∷ [];
      extensions = of_file large_file 7000 8192 ∷ [];
      processed_records = 10;
    }
    ∷ record {
      parsed = directory 60 61 ∷ directory 61 60 ∷ large_file ∷ [];
      extensions = [];
      processed_records = 20;
    }
    ∷ []

stream_records_complete_example :
    (after : NtfsStreamState) × ((stream_records drive 20 (map batch batches) ≡ streamed after)
      × ((after.orphan_dirs ≡ [])
          × ((id : ℕ)
              → count_found id after.emitted
                ≡ (if ntfs_root_record == id then 1 else 0) + count_parsed id batches)))
stream_records_complete_example = stream_records_complete drive 20 batches

stream_records-IsPlaced_example :
    IsPlaced drive (events_of (stream_records drive 20 (map batch batches)))
stream_records-IsPlaced_example = stream_records-IsPlaced drive 20 (map batch batches)

abbrev started : NtfsStreamState
started = emit_root (new_stream drive)

ingest_entry-ingest_extension_swap_example :
    (into_summary
        (ingest_entry (ingest_extension started (of_file large_file 7000 8192)) large_file)
      ≡ into_summary
          (ingest_extension (ingest_entry started large_file) (of_file large_file 7000 8192)))
    × (latest_file 40
          (ingest_entry
            (ingest_extension started (of_file large_file 7000 8192))
            large_file).emitted
        ≡ latest_file 40
            (ingest_extension
              (ingest_entry started large_file)
              (of_file large_file 7000 8192)).emitted)
unfolding emit_root IdMap.get IdMap.insert IdMap.remove
ingest_entry-ingest_extension_swap_example =
    ingest_entry-ingest_extension_swap started large_file 7000 8192 refl refl refl refl
