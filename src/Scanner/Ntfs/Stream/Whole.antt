-- ===== src/Scanner/Ntfs/Stream/Whole.antt =====
-- The scan of a whole volume: each directory that was parsed is emitted.
use win_blaze.Base.{ℕ, ◌+◌, ◌≡◌, refl, List, [], ◌∷◌, arith, ◌==◌, if◌then◌else◌, map}
use win_blaze.Base.Text.{Text}
use win_blaze.Base.IdMap.Totals.{HasDistinctKeys}
use win_blaze.Scanner.Ntfs.Records.{ParsedNtfsEntry, ExtensionSizes}
use win_blaze.Scanner.Ntfs.Stream.{NtfsStreamState, ntfs_root_record, new_stream, emit_root}
use win_blaze.Scanner.Ntfs.Stream.Ingest.{ingest_entry, ingest_extension}
use win_blaze.Scanner.Ntfs.Stream.Finish.{
  Batch, batch, Consumer, ingest_entries, ingest_extensions, report_progress, consume, consume_all,
  stream_records, streamed, finish,
}
use win_blaze.Scanner.Ntfs.Stream.Drained.{count_found, count_all}
use win_blaze.Scanner.Ntfs.Stream.Emptied.{IsSettled}
use win_blaze.Scanner.Ntfs.Stream.Finished.{finish-empty, finish-count}
use win_blaze.Scanner.Ntfs.Stream.Conserved.{
  count_entry, Adds, Adds-trans, unmoved-Adds, ingest_entry-Adds, ingest_extension-Adds,
}

abbrev pub count_entries : ℕ → List ParsedNtfsEntry → ℕ
count_entries id [] = 0
count_entries id (entry ∷ entries) = count_entry id entry + count_entries id entries

-- How often the batches have the directory.
abbrev pub count_parsed : ℕ → List Batch → ℕ
count_parsed id [] = 0
count_parsed id (message ∷ messages) = count_entries id message.parsed + count_parsed id messages

Adds-nil : (id : ℕ) (self : NtfsStreamState) → IsSettled self → Adds id 0 self self
Adds-nil id self s = unmoved-Adds id self s self refl refl refl

ingest_entries-Adds :
    (id : ℕ) (entries : List ParsedNtfsEntry) (self : NtfsStreamState)
    → IsSettled self
    → Adds id (count_entries id entries) self (ingest_entries self entries)
unfolding ingest_entries
ingest_entries-Adds id [] self s = Adds-nil id self s
ingest_entries-Adds id (entry ∷ entries) self s =
    let added = ingest_entry-Adds id self s entry in
    Adds-trans added (ingest_entries-Adds id entries (ingest_entry self entry) added.settled)

ingest_extensions-Adds :
    (id : ℕ) (extensions : List ExtensionSizes) (self : NtfsStreamState)
    → IsSettled self
    → Adds id 0 self (ingest_extensions self extensions)
unfolding ingest_extensions
ingest_extensions-Adds id [] self s = Adds-nil id self s
ingest_extensions-Adds id (sizes ∷ extensions) self s =
    let added = ingest_extension-Adds id self s sizes in
    let rest = ingest_extensions-Adds id extensions (ingest_extension self sizes) added.settled in
    record { settled = rest.settled; counts = omega (arith, rest.counts, added.counts) }

report_progress-Adds :
    (id total_records processed_records : ℕ) (self : Consumer)
    → IsSettled self.state
    → Adds id 0 self.state (report_progress total_records processed_records self).state
unfolding report_progress
report_progress-Adds id total_records processed_records self s =
    unmoved-Adds id self.state s (report_progress total_records processed_records self).state
      (ground arith) (ground arith) (ground arith)

consume-Adds :
    (id total_records : ℕ) (self : Consumer) (message : Batch)
    → IsSettled self.state
    → Adds id
        (count_entries id message.parsed)
        self.state
        (consume total_records self message).state
unfolding consume
consume-Adds id total_records self message s =
    let a = ingest_entries-Adds id message.parsed self.state s in
    let b =
      ingest_extensions-Adds id message.extensions (ingest_entries self.state message.parsed)
        a.settled in
    let ingested : Consumer = record self {
      state = ingest_extensions (ingest_entries self.state message.parsed) message.extensions;
    } in
    let c = report_progress-Adds id total_records message.processed_records ingested b.settled in
    record { settled = c.settled; counts = omega (arith, c.counts, b.counts, a.counts) }

consumed : ℕ → Consumer → List Batch → Consumer
consumed total_records self [] = self
consumed total_records self (message ∷ messages) =
    consumed total_records (consume total_records self message) messages

consume_all-batches :
    (total_records : ℕ) (self : Consumer) (batches : List Batch)
    → consume_all total_records self (map batch batches)
      ≡ streamed (finish (consumed total_records self batches).state)
unfolding consume_all consumed
consume_all-batches total_records self [] = refl
consume_all-batches total_records self (message ∷ messages) =
    consume_all-batches total_records (consume total_records self message) messages

consumed-Adds :
    (id total_records : ℕ) (self : Consumer) (batches : List Batch)
    → IsSettled self.state
    → Adds id (count_parsed id batches) self.state (consumed total_records self batches).state
unfolding consumed
consumed-Adds id total_records self [] s = Adds-nil id self.state s
consumed-Adds id total_records self (message ∷ messages) s =
    let added = consume-Adds id total_records self message s in
    Adds-trans added
      (consumed-Adds id total_records (consume total_records self message) messages added.settled)

module _ (root_text : Text) (total_records : ℕ) (batches : List Batch) where
  start : Consumer
  start = record { state = emit_root (new_stream root_text); last_progress_records = 0 }

  start-IsSettled : IsSettled start.state
  unfolding start emit_root HasDistinctKeys
  start-IsSettled = record { keys = tt; empty = refl }

  -- The state at the end of the scan.
  pub streamed_state : NtfsStreamState
  streamed_state = finish (consumed total_records start batches).state

  pub stream_records-ends :
      stream_records root_text total_records (map batch batches) ≡ streamed streamed_state
  unfolding stream_records streamed_state start
  stream_records-ends = consume_all-batches total_records start batches

  pub streamed_state-empty : (streamed_state.cascade ≡ []) × (streamed_state.orphan_dirs ≡ [])
  unfolding streamed_state
  streamed_state-empty =
      finish-empty (consumed total_records start batches).state
        (consumed-Adds 0 total_records start batches start-IsSettled).settled

  pub streamed_state-count :
      (id : ℕ)
      → count_found id streamed_state.emitted
        ≡ (if ntfs_root_record == id then 1 else 0) + count_parsed id batches
  unfolding streamed_state start emit_root
  streamed_state-count id =
      let added = consumed-Adds id total_records start batches start-IsSettled in
      let after = (consumed total_records start batches).state in
      let before : count_all id start.state ≡ (if ntfs_root_record == id then 1 else 0) =
        omega arith in
      omega (arith, finish-count after id added.settled, added.counts, before)

  -- When the parser sends batches and no error, the scan ends with the last pass; then no
  -- directory waits among the orphans, and each identifier was emitted as a directory exactly
  -- as often as a directory record with it was parsed, the root's identifier once instead,
  -- whatever order the records come in and whatever their parents are.
  pub stream_records_complete :
      (after : NtfsStreamState) × ((stream_records root_text total_records (map batch batches)
          ≡ streamed after)
        × ((after.orphan_dirs ≡ [])
            × ((id : ℕ)
                → count_found id after.emitted
                  ≡ (if ntfs_root_record == id then 1 else 0) + count_parsed id batches)))
  stream_records_complete =
      (streamed_state, (stream_records-ends, (streamed_state-empty.1, streamed_state-count)))
