-- ===== src/StorageEngine/Flushed/Answers.antt =====
-- `get` of src/storage_engine.cpp after a flush.
use chronostore.Common.{
  ◌≡◌, ◌⊎◌, inl, inr, refl, ap, ◌∙◌, arith, Bool, true, false, Option, none, some, List, [], ◌∷◌,
  ◌++◌, Outcome, ok, ◌>>◌, throw_if,
}
use chronostore.OrderedMap.{find}
use chronostore.Errors.{Exception, runtime_error}
use chronostore.Model.{SeriesKey, Timestamp, Sample}
use chronostore.MemTable
use chronostore.MemTable.Valid
use chronostore.WalFile.Outcomes.{sync_outcome}
use chronostore.SegmentFile.Lookup.File.{get-reader_of}
use chronostore.SegmentFile.Reader
use chronostore.SegmentFile.Reader.{SegmentReader}
use chronostore.SegmentFile.RoundTrip.{reader_of, open_segment-segment_bytes}
use chronostore.SegmentFile.Write.File.{write_segment_file-eq-ok}
use chronostore.StorageEngine.{StorageEngine, Answers, ensure_usable, reversed}
use chronostore.StorageEngine.Flush.{flush}
use chronostore.StorageEngine.Flushed.{blocks_from_snapshots-get}
use chronostore.StorageEngine.Flushed.Constructed.{
  IsConstructed, blocks_from_snapshots-snapshot-IsBlock,
}
use chronostore.StorageEngine.Flushed.Returns.{IsFlushed, after_flush, flush_samples-eq-ok}
use chronostore.StorageEngine.Query
use chronostore.StorageEngine.Query.{get_in_reversed}

-- A flush that returns has flushed, or has found nothing to flush.
pub flush-eq-ok :
    (answers : Answers) (e next : StorageEngine)
    → flush answers e ≡ (next, ok tt)
    → (next ≡ e) ⊎ IsFlushed e next
unfolding flush ensure_usable
flush-eq-ok answers e next h = by_content (MemTable.empty e.memtable) refl
  where
    by_content : (empty : Bool) → MemTable.empty e.memtable ≡ empty → (next ≡ e) ⊎ IsFlushed e next
    by_content true m = elim (sync_outcome answers.wal_calls e.wal_writer) [
      | inl synced ↦ inl (ground arith)
      | inr (x, file, thrown) ↦ absurd (ground (arith, thrown))
    ]
    by_content false m = inr (flush_samples-eq-ok answers e next (ground arith))

reversed-append :
    (segments : List SegmentReader) (segment : SegmentReader)
    → reversed (segments ++ (segment ∷ [])) ≡ segment ∷ reversed segments
reversed-append [] segment = refl
reversed-append (s ∷ segments) segment = ap (λ t. t ++ (s ∷ [])) (reversed-append segments segment)

-- The reader of the new segment answers what the table in memory answered.
pub get-new_segment :
    (e next : StorageEngine) (s : SeriesKey) (at : Timestamp)
    → (f : IsFlushed e next) → Valid.IsValid e.memtable
    → IsConstructed e.memtable
    → Reader.get f.segment.reader s at ≡ ok (MemTable.get e.memtable s at)
get-new_segment e next s at f v c =
    let (blocks, cut, found) = blocks_from_snapshots-get e.memtable v in
    let valid = blocks_from_snapshots-snapshot-IsBlock e.memtable blocks v c cut in
    let same : f.prepared.cut_blocks ≡ blocks = cc (cut, f.prepared.blocks_cut) in
    let (file, layout, _) =
      write_segment_file-eq-ok blocks f.bytes f.prepared.metadata valid
        (rw same at f.prepared.file_written) in
    let reopened = open_segment-segment_bytes blocks file in
    let reader : f.segment.reader ≡ reader_of blocks = cc (f.opened, layout, reopened) in
    rw reader (get-reader_of blocks s at file) ∙ ap ok (found s at)

-- The newer answer, or the older where there is none.
abbrev newer : Option Sample → Outcome Exception (Option Sample) → Outcome Exception (Option Sample)
newer (some sample) older = ok (some sample)
newer none older = older

get-newer :
    (e : StorageEngine) (s : SeriesKey) (at : Timestamp)
    → Query.get e s at ≡ (
        throw_if e.failed runtime_error
        >> newer (MemTable.get e.memtable s at) (get_in_reversed (reversed e.segments) s at))
unfolding Query.get ensure_usable
get-newer e s at = ground arith

get_in_reversed-newer :
    (segment : SegmentReader) (segments : List SegmentReader) (s : SeriesKey) (at : Timestamp)
    (found : Option Sample)
    → Reader.get segment s at ≡ ok found
    → get_in_reversed (segment ∷ segments) s at ≡ newer found (get_in_reversed segments s at)
unfolding get_in_reversed
get_in_reversed-newer segment segments s at none h = rw h refl
get_in_reversed-newer segment segments s at (some x) h = rw h refl

nothing_in_memory :
    (t : MemTable.MemTable) (s : SeriesKey) (at : Timestamp)
    → MemTable.get (MemTable.clear t) s at ≡ none
unfolding MemTable.get MemTable.clear find
nothing_in_memory t s at = refl

get-flushed :
    (e next : StorageEngine) (s : SeriesKey) (at : Timestamp)
    → (f : IsFlushed e next) → Valid.IsValid e.memtable
    → IsConstructed e.memtable
    → Query.get next s at ≡ Query.get e s at
get-flushed e next s at f v c =
    let found = get-new_segment e next s at f v c in
    let split =
      get_in_reversed-newer f.segment.reader (reversed e.segments) s at
        (MemTable.get e.memtable s at) found in
    ap (λ t. Query.get t s at) f.result
    ∙ rw (
      get-newer (after_flush e f.segment f.bytes f.encoded) s at,
      get-newer e s at,
      nothing_in_memory e.memtable s at,
      reversed-append e.segments f.segment.reader,
      split,
    )

-- Where a flush returns, every `get` answers what it answered before, also at the samples that have
-- moved from memory to the new segment; the table in memory is valid and its keys and samples were
-- constructed.
pub get-flush :
    (answers : Answers) (e next : StorageEngine) (s : SeriesKey) (at : Timestamp)
    → Valid.IsValid e.memtable
    → IsConstructed e.memtable
    → flush answers e ≡ (next, ok tt)
    → Query.get next s at ≡ Query.get e s at
get-flush answers e next s at v c h = elim (flush-eq-ok answers e next h) [
  | inl same ↦ ap (λ t. Query.get t s at) same
  | inr f ↦ get-flushed e next s at f v c
]
