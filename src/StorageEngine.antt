-- ===== src/StorageEngine.antt =====
-- src/storage_engine.cpp: the engine that joins the write-ahead log, the table in memory, the
-- segments and the manifest. This file has the state and the operations that change it; the queries
-- and the recovery are the children's. One operation holds the lock at a time, so an operation is a
-- function on the state. What the operating system answers is a parameter of each.
pub mod Query
pub mod Recover
pub mod ReadYourWrites
pub mod Failure
pub mod Blocks
pub mod Flush
pub mod Compact
pub mod Durable
pub mod Flushed
pub mod Sound
use chronostore.Common.{
  ℕ, zero, suc, ◌+◌, ◌-◌, ◌*◌, ◌/◌, ◌%◌, ◌^◌, Bool, true, false, not, ◌||◌, Option, none, some,
  List, [], ◌∷◌, ◌++◌, length, take, drop, ltb, leb, ◌==◌, ◌!=◌, if◌then◌else◌, Outcome, ok, throw,
  throw_if, ◌>>=◌, ◌>>◌,
}
use mathlib.Core.List.{map}
use chronostore.Order.{int_ord, is_eq, list_ord, nat_ord}
use chronostore.OrderedMap.{Map, find, assign}
use chronostore.OrderedMap.Nested.{inner}
use chronostore.Errors.{
  Exception, overflow_error, runtime_error, system_error, segment_format_error,
}
use chronostore.Model.{Bytes, SeriesKey, series_ord, Timestamp, Sample}
use chronostore.MemTable
use chronostore.MemTable.{MemTable, MemTableSeriesSnapshot, SamplesByTimestamp, sample_of}
use chronostore.WalRecord.{WalPutRecord}
use chronostore.WalFile
use chronostore.WalFile.{WalWriter, SystemCalls}
use chronostore.Manifest.{ManifestState, encode_manifest, segment_extension}
use chronostore.SegmentBlock.{SegmentBlock, make_segment_block, max_samples_per_segment_block}
use chronostore.SegmentFile.Write.{write_segment_file}
use chronostore.SegmentFile.Reader
use chronostore.SegmentFile.Reader.{SegmentReader, open_segment}

-- The files of the database's directory, less the write-ahead log. The temporary files of the atomic
-- writes stand under the names that they are to get: to each name here ".tmp" is to be appended.
pub record Directory : Type 0 where
  pub files : Map Bytes Bytes
  pub manifest_file : Option Bytes
  pub temporaries : Map Bytes Bytes

-- How `atomic_write_file` ends: with the new file, or by an exception, thrown before the rename,
-- with what the temporary file then holds, if there is one, or by the synchronization of the
-- directory after the rename.
pub data AtomicWrite : Type 0 where
  written : AtomicWrite
  failed_before_rename : Exception → Option Bytes → AtomicWrite
  failed_after_rename : Exception → AtomicWrite

-- `std::filesystem::remove`, with an error ignored.
unfoldable pub remove_file : Bytes → Map Bytes Bytes → Map Bytes Bytes
remove_file filename [] = []
remove_file filename ((name, bytes) ∷ files) = elim (is_eq filename name) [
  | true ↦ files
  | false ↦ (name, bytes) ∷ remove_file filename files
]

-- The directory with another temporary file for a name, or none.
abbrev pub with_temporary : Directory → Bytes → Option Bytes → Directory
with_temporary directory filename none = record {
  files = directory.files;
  manifest_file = directory.manifest_file;
  temporaries = remove_file filename directory.temporaries;
}
with_temporary directory filename (some bytes) = record {
  files = directory.files;
  manifest_file = directory.manifest_file;
  temporaries = assign filename bytes directory.temporaries;
}

-- The answers of the system during one operation of the engine.
pub record Answers : Type 0 where
  pub wal_calls : SystemCalls
  pub segment_write : AtomicWrite
  pub manifest_write : AtomicWrite

pub record StorageEngine : Type 0 where
  pub memtable : MemTable
  pub manifest : ManifestState
  pub segments : List SegmentReader
  pub wal_writer : WalWriter
  pub logical_sample_count : ℕ
  pub failed : Bool
  pub directory : Directory

unfoldable pub ensure_usable : StorageEngine → Outcome Exception (Unit {0})
ensure_usable e = throw_if e.failed runtime_error

-- The loop over the segments, from the newest to the oldest.
unfoldable pub contains_in_reversed :
    List SegmentReader → SeriesKey → Timestamp → Outcome Exception Bool
contains_in_reversed [] series timestamp = ok false
contains_in_reversed (segment ∷ segments) series timestamp =
    Reader.get segment series timestamp >>= λ found. elim found [
      | some _ ↦ ok true
      | none ↦ contains_in_reversed segments series timestamp
    ]

abbrev pub reversed {ℓ} : {A : Type ℓ} → List A → List A
reversed [] = []
reversed (x ∷ xs) = reversed xs ++ (x ∷ [])

unfoldable pub contains_in_segments :
    List SegmentReader → SeriesKey → Timestamp → Outcome Exception Bool
unfolding contains_in_reversed
contains_in_segments segments series timestamp =
    contains_in_reversed (reversed segments) series timestamp

-- `memtable.get(...).has_value() || contains_in_segments(...)`
unfoldable pub contains_in :
    MemTable → List SegmentReader → SeriesKey → Timestamp → Outcome Exception Bool
unfolding contains_in_segments
contains_in memtable segments series timestamp = elim (MemTable.get memtable series timestamp) [
  | some _ ↦ ok true
  | none ↦ contains_in_segments segments series timestamp
]

unfoldable pub contains : StorageEngine → SeriesKey → Timestamp → Outcome Exception Bool
unfolding contains_in
contains e series timestamp = contains_in e.memtable e.segments series timestamp

-- `catch (...) { failed_ = true; throw; }`, with what has changed before the exception.
abbrev pub fail :
    StorageEngine → WalWriter → Directory → Exception → StorageEngine × Outcome Exception (Unit {0})
fail e wal_writer directory exception = (
  record {
    memtable = e.memtable;
    manifest = e.manifest;
    segments = e.segments;
    wal_writer = wal_writer;
    logical_sample_count = e.logical_sample_count;
    failed = true;
    directory = directory;
  },
  throw exception,
)

-- The statements of `put` after the append.
unfoldable pub put_in_memory : StorageEngine → WalWriter → Bool → SeriesKey → Sample → StorageEngine
put_in_memory e wal_writer already_exists series sample = record {
  memtable = MemTable.put e.memtable series sample;
  manifest = e.manifest;
  segments = e.segments;
  wal_writer = wal_writer;
  logical_sample_count =
      if already_exists then e.logical_sample_count else suc e.logical_sample_count % 2 ^ 64;
  failed = e.failed;
  directory = e.directory;
}

-- `contains` is called before the `try`.
unfoldable pub put :
    Answers → StorageEngine → SeriesKey → Sample → StorageEngine × Outcome Exception (Unit {0})
unfolding ensure_usable contains put_in_memory
put answers e series sample = elim (ensure_usable e >> contains e series sample.timestamp) [
  | throw exception ↦ (e, throw exception)
  | ok already_exists ↦
      let (wal_writer, answer) =
        WalFile.append answers.wal_calls e.wal_writer
          (record { series = series; sample = sample }) in
      elim answer [
        | throw exception ↦ fail e wal_writer e.directory exception
        | ok _ ↦ (put_in_memory e wal_writer already_exists series sample, ok tt)
      ]
]

abbrev pub with_wal : StorageEngine → WalWriter → StorageEngine
with_wal e wal_writer = record {
  memtable = e.memtable;
  manifest = e.manifest;
  segments = e.segments;
  wal_writer = wal_writer;
  logical_sample_count = e.logical_sample_count;
  failed = e.failed;
  directory = e.directory;
}

unfoldable pub sync : Answers → StorageEngine → StorageEngine × Outcome Exception (Unit {0})
unfolding ensure_usable
sync answers e = elim (ensure_usable e) [
  | throw exception ↦ (e, throw exception)
  | ok _ ↦
      let (wal_writer, answer) = WalFile.sync answers.wal_calls e.wal_writer in
      elim answer [
        | throw exception ↦ fail e wal_writer e.directory exception
        | ok _ ↦ (with_wal e wal_writer, ok tt)
      ]
]

-- The loop over the samples of a snapshot, on fuel: a round takes a block of at most 256 samples.
-- The count of the samples is enough, and more is not used.
unfoldable pub blocks_of_samples :
    ℕ → SeriesKey → List Sample → Outcome Exception (List SegmentBlock)
blocks_of_samples fuel series [] = ok []
blocks_of_samples zero series (sample ∷ samples) = ok []
blocks_of_samples (suc fuel) series (sample ∷ samples) = do
  block ← make_segment_block series (take max_samples_per_segment_block (sample ∷ samples))
  blocks ← blocks_of_samples fuel series (drop max_samples_per_segment_block (sample ∷ samples))
  ok (block ∷ blocks)

unfoldable pub blocks_from_snapshots :
    List MemTableSeriesSnapshot → Outcome Exception (List SegmentBlock)
unfolding blocks_of_samples
blocks_from_snapshots [] = ok []
blocks_from_snapshots (snapshot ∷ snapshots) = do
  blocks ← blocks_of_samples (length snapshot.samples) snapshot.series snapshot.samples
  rest ← blocks_from_snapshots snapshots
  ok (blocks ++ rest)
