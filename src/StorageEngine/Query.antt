-- ===== src/StorageEngine/Query.antt =====
-- src/storage_engine.cpp: the queries, which join the segments, from the oldest to the newest, and
-- the table in memory.
use chronostore.Common.{
  ℕ, ◌-◌, ◌^◌, Bool, Option, none, some, List, [], ◌∷◌, length, ltb, ◌==◌, if◌then◌else◌, Outcome,
  ok, throw_if, ◌>>=◌, ◌>>◌,
}
use mathlib.Core.List.{map}
use chronostore.Order.{int_ord, is_lt, is_le}
use chronostore.OrderedMap.{Map, assign}
use chronostore.Errors.{Exception, invalid_argument, overflow_error}
use chronostore.Model.{SeriesKey, series_ord, Timestamp, Sample}
use chronostore.MemTable
use chronostore.MemTable.{SamplesByTimestamp, sample_of}
use chronostore.SegmentFile.{SegmentIndexEntry}
use chronostore.SegmentFile.Reader
use chronostore.SegmentFile.Reader.{SegmentReader}
use chronostore.StorageEngine.{StorageEngine, ensure_usable, reversed}
use chronostore.StorageEngine.Compact.{merge_samples}

-- A candidate replaces a result that is not later.
unfoldable pub later : Option Sample → Option Sample → Option Sample
later result none = result
later none (some candidate) = some candidate
later (some result) (some candidate) =
    if is_le result.timestamp candidate.timestamp then some candidate else some result

-- The loop of `latest` over the segments.
unfoldable pub latest_in_segments :
    Option Sample → List SegmentReader → SeriesKey → Outcome Exception (Option Sample)
unfolding later
latest_in_segments result [] series = ok result
latest_in_segments result (segment ∷ segments) series = do
  candidate ← Reader.latest segment series
  latest_in_segments (later result candidate) segments series

unfoldable pub latest : StorageEngine → SeriesKey → Outcome Exception (Option Sample)
unfolding latest_in_segments
latest e series = do
  ensure_usable e
  result ← latest_in_segments none e.segments series
  ok (later result (MemTable.latest e.memtable series))

-- The loop of `get` over the segments, from the newest to the oldest.
unfoldable pub get_in_reversed :
    List SegmentReader → SeriesKey → Timestamp → Outcome Exception (Option Sample)
get_in_reversed [] series timestamp = ok none
get_in_reversed (segment ∷ segments) series timestamp =
    Reader.get segment series timestamp >>= λ found. elim found [
      | some sample ↦ ok (some sample)
      | none ↦ get_in_reversed segments series timestamp
    ]

unfoldable pub get : StorageEngine → SeriesKey → Timestamp → Outcome Exception (Option Sample)
unfolding get_in_reversed
get e series timestamp = ensure_usable e >> elim (MemTable.get e.memtable series timestamp) [
  | some sample ↦ ok (some sample)
  | none ↦ get_in_reversed (reversed e.segments) series timestamp
]

-- The loop of `range` over the segments.
unfoldable pub range_in_segments :
    SamplesByTimestamp
    → List SegmentReader
    → SeriesKey
    → Timestamp
    → Timestamp
    → Outcome Exception SamplesByTimestamp
range_in_segments merged [] series start end = ok merged
range_in_segments merged (segment ∷ segments) series start end = do
  samples ← Reader.range segment series start end
  range_in_segments (merge_samples merged samples) segments series start end

unfoldable pub range :
    StorageEngine → SeriesKey → Timestamp → Timestamp → Outcome Exception (List Sample)
unfolding range_in_segments
range e series start end = do
  ensure_usable e
  throw_if (is_lt end start) invalid_argument
  merged ← range_in_segments [] e.segments series start end
  samples ← MemTable.range e.memtable series start end
  ok (map sample_of (merge_samples merged samples))

-- `std::set<SeriesKey>` is a map to nothing.
unfoldable pub insert_entries :
    Map SeriesKey (Unit {0}) → List SegmentIndexEntry → Map SeriesKey (Unit {0})
insert_entries unique_series [] = unique_series
insert_entries unique_series (entry ∷ entries) =
    insert_entries (assign entry.series tt unique_series) entries

unfoldable pub insert_segments :
    Map SeriesKey (Unit {0}) → List SegmentReader → Map SeriesKey (Unit {0})
unfolding insert_entries
insert_segments unique_series [] = unique_series
insert_segments unique_series (segment ∷ segments) =
    insert_segments (insert_entries unique_series segment.index) segments

unfoldable pub insert_series : Map SeriesKey (Unit {0}) → List SeriesKey → Map SeriesKey (Unit {0})
insert_series unique_series [] = unique_series
insert_series unique_series (series ∷ rest) = insert_series (assign series tt unique_series) rest

-- `series()`
unfoldable pub known_series : StorageEngine → Outcome Exception (List SeriesKey)
unfolding insert_segments insert_series
known_series e =
    ensure_usable e
    >> ok (
        map (λ entry. entry.0)
          (insert_series (insert_segments [] e.segments) (MemTable.known_series e.memtable)))

-- `std::size_t` has 64 bits, so no count exceeds it.
unfoldable pub sample_count : StorageEngine → Outcome Exception ℕ
sample_count e =
    ensure_usable e
    >> throw_if (ltb (2 ^ 64 - 1) e.logical_sample_count) overflow_error
    >> ok e.logical_sample_count

unfoldable pub memtable_sample_count : StorageEngine → Outcome Exception ℕ
memtable_sample_count e = ensure_usable e >> ok e.memtable.sample_count

unfoldable pub empty : StorageEngine → Outcome Exception Bool
empty e = ensure_usable e >> ok (e.logical_sample_count == 0)

unfoldable pub segment_count : StorageEngine → Outcome Exception ℕ
segment_count e = ensure_usable e >> ok (length e.segments)

unfoldable pub wal_size_bytes : StorageEngine → Outcome Exception ℕ
wal_size_bytes e = ensure_usable e >> ok e.wal_writer.size_bytes

pub record StorageEngineStats : Type 0 where
  pub sample_count : ℕ
  pub memtable_sample_count : ℕ
  pub segment_count : ℕ
  pub wal_size_bytes : ℕ

unfoldable pub stats : StorageEngine → Outcome Exception StorageEngineStats
stats e =
    ensure_usable e
    >> throw_if (ltb (2 ^ 64 - 1) e.logical_sample_count) overflow_error
    >> ok (record {
      sample_count = e.logical_sample_count;
      memtable_sample_count = e.memtable.sample_count;
      segment_count = length e.segments;
      wal_size_bytes = e.wal_writer.size_bytes;
    })
