-- ===== src/Scanner/Ntfs/Stream/Finish.antt =====
-- `finish` and `into_summary` of `NtfsStreamState`, and the loop of
-- `stream_ntfs_entries` over what the parser sends. The loop of `finish` runs on fuel: one round for each bucket of orphans.
use win_blaze.Base.{
  ℕ, zero, suc, Bool, false, ◌||◌, none, some, List, [], ◌∷◌, ◌-◌, ◌==◌, leb, if◌then◌else◌, length,
  min,
}
use win_blaze.Base.Text.{Text}
use win_blaze.Base.IdMap
use win_blaze.Base.IdMap.{IdMap}
use win_blaze.Base.Ascending.{sort_by_key}
use win_blaze.Base.Words.{saturating_mul}
use win_blaze.Core.Model.{ScanSummary, ScanProgress}
use win_blaze.Core.Scan.{progress}
use win_blaze.Scanner.Ntfs.Fixups.{ntfs_record_size}
use win_blaze.Scanner.Ntfs.Records.{ParsedNtfsEntry, ExtensionSizes}
use win_blaze.Scanner.Ntfs.Stream.{NtfsStreamState, new_stream, emit_root, release}
use win_blaze.Scanner.Ntfs.Stream.Ingest.{drain_cascade, ingest_entry, ingest_extension}

unfoldable pub is_among : ℕ → List ParsedNtfsEntry → Bool
is_among key [] = false
is_among key (child ∷ children) = child.file_id == key || is_among key children

-- `waiting.contains(key)`
unfoldable pub is_waiting : ℕ → IdMap (List ParsedNtfsEntry) → Bool
unfolding is_among
is_waiting key [] = false
is_waiting key ((parent, children) ∷ buckets) = is_among key children || is_waiting key buckets

-- The keys of the buckets that wait in no bucket of `orphans`.
unfoldable pub stuck_keys : IdMap (List ParsedNtfsEntry) → IdMap (List ParsedNtfsEntry) → List ℕ
unfolding is_waiting
stuck_keys orphans [] = []
stuck_keys orphans ((key, children) ∷ buckets) =
    if is_waiting key orphans then stuck_keys orphans buckets else key ∷ stuck_keys orphans buckets

unfoldable pub min_key : ℕ → IdMap (List ParsedNtfsEntry) → ℕ
min_key key [] = key
min_key key ((other, children) ∷ buckets) = min_key (min key other) buckets

unfoldable pub stuck_or_min : List ℕ → IdMap (List ParsedNtfsEntry) → List ℕ
unfolding min_key
stuck_or_min (key ∷ keys) orphans = key ∷ keys
stuck_or_min [] [] = []
stuck_or_min [] ((key, children) ∷ buckets) = min_key key buckets ∷ []

-- A key that is not there any more releases nothing, and nothing is to be drained.
unfoldable pub drain_stuck : NtfsStreamState → List ℕ → NtfsStreamState
unfolding IdMap.get release drain_cascade
drain_stuck self [] = self
drain_stuck self (parent ∷ stuck) = elim (IdMap.get self.orphan_dirs parent) [
  | none ↦ drain_stuck self stuck
  | some children ↦ drain_stuck (drain_cascade (release self parent)) stuck
]

unfoldable pub finish_round : NtfsStreamState → NtfsStreamState
unfolding stuck_keys stuck_or_min drain_stuck sort_by_key
finish_round self = drain_stuck self (
    sort_by_key (λ key. key)
      (stuck_or_min (stuck_keys self.orphan_dirs self.orphan_dirs) self.orphan_dirs))

unfoldable pub finish_loop : ℕ → NtfsStreamState → NtfsStreamState
unfolding finish_round
finish_loop zero self = self
finish_loop (suc fuel) self = elim self.orphan_dirs [
  | [] ↦ self
  | bucket ∷ buckets ↦ finish_loop fuel (finish_round self)
]

unfoldable pub finish : NtfsStreamState → NtfsStreamState
unfolding finish_loop
finish self = finish_loop (length self.orphan_dirs) self

unfoldable pub into_summary : NtfsStreamState → ScanSummary
into_summary self = record {
  files_seen = self.files_seen;
  directories_seen = self.directories_seen;
  total_size_bytes = self.total_size_bytes;
  total_allocation_bytes = self.total_allocation_bytes;
}

abbrev pub mft_progress_record_delta : ℕ
mft_progress_record_delta = 262144

-- What the parser sends for one read: a batch, or an error.
pub record Batch : Type 0 where
  pub parsed : List ParsedNtfsEntry
  pub extensions : List ExtensionSizes
  pub processed_records : ℕ

pub data Message : Type 0 where
  batch : Batch → Message
  error : Message

unfoldable pub ingest_entries : NtfsStreamState → List ParsedNtfsEntry → NtfsStreamState
unfolding ingest_entry
ingest_entries self [] = self
ingest_entries self (entry ∷ entries) = ingest_entries (ingest_entry self entry) entries

unfoldable pub ingest_extensions : NtfsStreamState → List ExtensionSizes → NtfsStreamState
unfolding ingest_extension
ingest_extensions self [] = self
ingest_extensions self (sizes ∷ extensions) =
    ingest_extensions (ingest_extension self sizes) extensions

-- The state of the consumer's loop: also the records that the last progress event counts.
pub record Consumer : Type 0 where
  pub state : NtfsStreamState
  pub last_progress_records : ℕ

abbrev progress_of : ℕ → ℕ → ScanProgress
progress_of total_records processed_records = record {
  completed_items = processed_records;
  total_items = total_records;
  completed_bytes = saturating_mul processed_records ntfs_record_size;
  total_bytes = saturating_mul total_records ntfs_record_size;
}

unfoldable pub report_progress : ℕ → ℕ → Consumer → Consumer
report_progress total_records processed_records self =
    if leb total_records processed_records
      || leb mft_progress_record_delta (processed_records - self.last_progress_records)
    then record {
      last_progress_records = processed_records;
      state = record self.state {
        emitted = progress (progress_of total_records processed_records) ∷ self.state.emitted;
      };
    }
    else self

unfoldable pub consume : ℕ → Consumer → Batch → Consumer
unfolding ingest_entries ingest_extensions report_progress
consume total_records self message =
    report_progress total_records message.processed_records (record self {
      state = ingest_extensions (ingest_entries self.state message.parsed) message.extensions;
    })

-- A scan that ends on an error has emitted events, but gives no summary.
pub data Streamed : Type 0 where
  streamed : NtfsStreamState → Streamed
  aborted : NtfsStreamState → Streamed

unfoldable pub consume_all : ℕ → Consumer → List Message → Streamed
unfolding consume finish
consume_all total_records self [] = streamed (finish self.state)
consume_all total_records self (batch message ∷ messages) =
    consume_all total_records (consume total_records self message) messages
consume_all total_records self (error ∷ messages) = aborted self.state

unfoldable pub stream_records : Text → ℕ → List Message → Streamed
unfolding emit_root consume_all
stream_records root_text total_records messages =
    consume_all total_records
      (record { state = emit_root (new_stream root_text); last_progress_records = 0 }) messages
