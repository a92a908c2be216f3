-- ===== src/StorageEngine/Failure.antt =====
-- `put` and `flush` of src/storage_engine.cpp where they throw.
use chronostore.Common.{◌≡◌, ◌⊎◌, refl, arith, Bool, true, [], ◌∷◌, ◌++◌, Outcome, ok, throw}
use chronostore.Errors.{Exception}
use chronostore.Model.{SeriesKey, Sample}
use chronostore.MemTable
use chronostore.WalFile
use chronostore.StorageEngine.{StorageEngine, Answers, ensure_usable, contains, put}
use chronostore.StorageEngine.Flush.{NewSegment, flush_manifest}

-- A `put` that throws leaves the table in memory and the count of samples as they were, and either
-- the whole engine as it was or an engine in the failed state.
pub put_throws :
    (answers : Answers) (e next : StorageEngine) (series : SeriesKey) (sample : Sample)
    (exception : Exception)
    → put answers e series sample ≡ (next, throw exception)
    → (next.memtable ≡ e.memtable)
      × (next.logical_sample_count ≡ e.logical_sample_count)
      × (next.segments ≡ e.segments)
      × ((next ≡ e) ⊎ (next.failed ≡ true))
unfolding put ensure_usable
put_throws answers e next series sample exception h =
    by_presence (contains e series sample.timestamp) refl
  where
    by_presence :
        (presence : Outcome Exception Bool)
        → contains e series sample.timestamp ≡ presence
        → (next.memtable ≡ e.memtable)
          × (next.logical_sample_count ≡ e.logical_sample_count)
          × (next.segments ≡ e.segments)
          × ((next ≡ e) ⊎ (next.failed ≡ true))
    by_presence (throw x) p = ground arith
    by_presence (ok already_exists) p = ground arith

-- The log and the segments are as they were, or there is a segment more, in the manifest too.
abbrev pub IsStored : StorageEngine → StorageEngine → Type 0
IsStored e next =
    (next.wal_writer.file ≡ e.wal_writer.file)
      × (next.segments ≡ e.segments)
      × (next.manifest ≡ e.manifest)
    ⊎ (segment : NewSegment) × (next.segments ≡ e.segments ++ (segment.reader ∷ []))
      × (next.manifest ≡ flush_manifest e segment.filename)

-- What is kept where a flush throws.
abbrev IsKept : StorageEngine → StorageEngine → Type 0
IsKept e next =
    (next.memtable ≡ e.memtable)
    × (next.logical_sample_count ≡ e.logical_sample_count)
    × ((next ≡ e) ⊎ (next.failed ≡ true))
    × IsStored e next
