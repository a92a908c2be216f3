-- ===== src/StorageEngine/Compact.antt =====
-- src/storage_engine.cpp: `compact`, which merges the segments to one.
use chronostore.Common.{
  ℕ, suc, ◌+◌, ◌%◌, ◌^◌, true, false, List, [], ◌∷◌, length, leb, ◌!=◌, Outcome, ok, throw,
  throw_if, ◌>>=◌, ◌>>◌,
}
use mathlib.Core.List.{map}
use chronostore.Order.{int_ord, list_ord, nat_ord}
use chronostore.OrderedMap.{Map, assign}
use chronostore.OrderedMap.Nested.{inner}
use chronostore.Errors.{Exception, segment_format_error}
use chronostore.Model.{Bytes, SeriesKey, series_ord, Sample}
use chronostore.MemTable.{MemTableSeriesSnapshot, SamplesByTimestamp, sample_of}
use chronostore.Manifest.{ManifestState}
use chronostore.SegmentBlock.{SegmentBlock}
use chronostore.SegmentFile.Reader
use chronostore.SegmentFile.Reader.{SegmentReader, open_segment}
use chronostore.StorageEngine.{
  Directory, remove_file, Answers, StorageEngine, ensure_usable, fail, blocks_from_snapshots,
}
use chronostore.StorageEngine.Flush.{NewSegment, add_segment, store_manifest}

-- The three loops that merge the segments: a later sample replaces an earlier one.
unfoldable pub merge_samples : SamplesByTimestamp → List Sample → SamplesByTimestamp
merge_samples merged [] = merged
merge_samples merged (sample ∷ samples) =
    merge_samples (assign sample.timestamp sample.value merged) samples

unfoldable pub merge_blocks :
    Map SeriesKey SamplesByTimestamp → List SegmentBlock → Map SeriesKey SamplesByTimestamp
unfolding merge_samples
merge_blocks merged [] = merged
merge_blocks merged (block ∷ blocks) =
    merge_blocks
      (assign block.series (merge_samples (inner block.series merged) block.samples) merged) blocks

unfoldable pub merge_segments :
    Map SeriesKey SamplesByTimestamp
    → List SegmentReader
    → Outcome Exception (Map SeriesKey SamplesByTimestamp)
unfolding merge_blocks
merge_segments merged [] = ok merged
merge_segments merged (segment ∷ segments) = do
  blocks ← Reader.blocks segment
  merge_segments (merge_blocks merged blocks) segments

-- The loop over the merged samples: the snapshots, and the count of their samples.
abbrev pub snapshots_of : Map SeriesKey SamplesByTimestamp → List MemTableSeriesSnapshot
snapshots_of merged =
    map (λ entry. record { series = entry.0; samples = map sample_of entry.1 }) merged

unfoldable pub count_merged : ℕ → Map SeriesKey SamplesByTimestamp → ℕ
count_merged count [] = count
count_merged count ((series, samples) ∷ merged) =
    count_merged ((count + length samples) % 2 ^ 64) merged

unfoldable pub compacted_blocks : StorageEngine → Outcome Exception (List SegmentBlock)
unfolding merge_segments count_merged
compacted_blocks e = do
  merged ← merge_segments [] e.segments
  throw_if (count_merged 0 merged != e.manifest.logical_sample_count) segment_format_error
  blocks_from_snapshots (snapshots_of merged)

-- `std::filesystem::remove` of the obsolete segments, whose failures are ignored.
unfoldable pub remove_files : List Bytes → Map Bytes Bytes → Map Bytes Bytes
unfolding remove_file
remove_files [] files = files
remove_files (filename ∷ filenames) files = remove_files filenames (remove_file filename files)

unfoldable pub compact_manifest : StorageEngine → Bytes → ManifestState
compact_manifest e filename = record {
  generation = suc e.manifest.generation % 2 ^ 64;
  logical_sample_count = e.manifest.logical_sample_count;
  segment_files = filename ∷ [];
}

abbrev compacted : StorageEngine → Directory → ManifestState → NewSegment → StorageEngine
compacted e directory next segment = record {
  memtable = e.memtable;
  manifest = next;
  segments = segment.reader ∷ [];
  wal_writer = e.wal_writer;
  logical_sample_count = e.logical_sample_count;
  failed = e.failed;
  directory = record {
    files = remove_files e.manifest.segment_files directory.files;
    manifest_file = directory.manifest_file;
    temporaries = directory.temporaries;
  };
}

-- `compact` where there are two segments or more.
unfoldable pub compact_segments :
    Answers → StorageEngine → StorageEngine × Outcome Exception (Unit {0})
unfolding compacted_blocks add_segment store_manifest compact_manifest remove_files
compact_segments answers e =
    let (directory, answer) =
      add_segment answers.segment_write e.directory e.manifest (compacted_blocks e) in
    elim answer [
      | throw exception ↦ fail e e.wal_writer directory exception
      | ok segment ↦
          let next = compact_manifest e segment.filename in
          let (directory, answer) = store_manifest answers.manifest_write directory next in
          elim answer [
            | throw exception ↦ fail e e.wal_writer directory exception
            | ok _ ↦ (compacted e directory next segment, ok tt)
          ]
    ]

unfoldable pub compact : Answers → StorageEngine → StorageEngine × Outcome Exception (Unit {0})
unfolding compact_segments
compact answers e = elim (ensure_usable e) [
  | throw exception ↦ (e, throw exception)
  | ok _ ↦ elim (leb (length e.segments) 1) [
    | true ↦ (e, ok tt)
    | false ↦ compact_segments answers e
  ]
]
