-- ===== src/StorageEngine/Sound/Reach.antt =====
-- The states that an engine of src/storage_engine.cpp goes through, and a restart in any of them.
use chronostore.Common.{
  ◌+◌, ◌^◌, ◌<◌, ◌≡◌, refl, arith, false, none, some, [], ◌++◌, length, ok, throw,
}
use mathlib.Core.Path.{subst}
use chronostore.StorageEngine.Durable.Reopened.{reopened-IsDurable}
use chronostore.Errors.{WalDecodeError}
use chronostore.Model.{Bytes, SeriesKey, Timestamp, Sample, IsSeries, IsSample}
use chronostore.MemTable
use chronostore.MemTable.Valid.{new-IsValid}
use chronostore.WalRecord.{decode_frame}
use chronostore.WalFile.{WalDurability, opened_wal}
use chronostore.StorageEngine.{StorageEngine, Answers, put, sync, ensure_usable}
use chronostore.StorageEngine.Durable.{
  IsDurable, stored_of, counted_of, reopened, open_engine-IsDurable,
}
use chronostore.StorageEngine.Flush.{flush}
use chronostore.StorageEngine.Query
use chronostore.StorageEngine.Recover.{open_engine, no_errors, recover_segments, open_segments}
use chronostore.Manifest.{load_manifest}
use chronostore.StorageEngine.Sound.{IsSound, physical}
use chronostore.StorageEngine.Sound.Put.{put-IsSound, sync-IsSound}
use chronostore.StorageEngine.Sound.Flush.{flush-IsSound}

-- One operation that returns, or a restart, with an incomplete record behind the log or nothing, in
-- which no call of the system fails.
pub data Step : StorageEngine → StorageEngine → Type 0 where
  put_returns :
      {e next : StorageEngine} (answers : Answers) (series : SeriesKey) (sample : Sample)
      → IsSeries series
      → IsSample sample
      → put answers e series sample ≡ (next, ok tt)
      → Step e next
  sync_returns :
      {e next : StorageEngine} (answers : Answers) → sync answers e ≡ (next, ok tt) → Step e next
  flush_returns :
      {e next : StorageEngine} (answers : Answers)
      → physical e.segments + e.memtable.sample_count < 2 ^ 64
      → flush answers e ≡ (next, ok tt)
      → Step e next
  restart_returns :
      {e next : StorageEngine} (durability : WalDurability) (tail : Bytes)
      → decode_frame tail ≡ throw WalDecodeError.incomplete_record
      → e.wal_writer.size_bytes + length tail < 2 ^ 64
      → open_engine no_errors e.directory (some (e.wal_writer.file ++ tail)) durability
        ≡ some (ok next)
      → Step e next

-- Any number of operations, one after the other.
pub data Reach (first : StorageEngine) : StorageEngine → Type 0 where
  start : Reach first first
  later : {e next : StorageEngine} → Reach first e → Step e next → Reach first next

-- The engine of a new directory.
abbrev pub new_engine : WalDurability → StorageEngine
new_engine durability = record {
  memtable = MemTable.new;
  manifest = record { generation = 0; logical_sample_count = 0; segment_files = [] };
  segments = [];
  wal_writer = opened_wal [] durability;
  logical_sample_count = 0;
  failed = false;
  directory = record { files = []; manifest_file = none; temporaries = [] };
}

pub new_engine-IsSound : (durability : WalDurability) → IsSound (new_engine durability)
unfolding recover_segments load_manifest open_segments
new_engine-IsSound durability = record {
  durable = record {
    records = [];
    records_written = tt;
    log_frames = refl;
    log_size = refl;
    log_fits = omega arith;
    log_replayed = refl;
    directory_recovers = refl;
  };
  memory_valid = new-IsValid;
  memory_constructed = record { entries = tt };
  count_fits = omega arith;
  name_bytes = tt;
  covered = omega arith;
}

reopened-IsSound :
    (e : StorageEngine) (durability : WalDurability) (v : IsSound e)
    → IsSound (reopened e.directory durability (stored_of e) (counted_of e) v.durable.records)
reopened-IsSound e durability v = record {
  durable = reopened-IsDurable e durability v.durable;
  memory_valid = v.memory_valid;
  memory_constructed = v.memory_constructed;
  count_fits = v.count_fits;
  name_bytes = v.name_bytes;
  covered = v.covered;
}

-- Every operation that returns keeps the invariant, and so does a restart.
pub Step-IsSound : {e next : StorageEngine} → Step e next → IsSound e → IsSound next
Step-IsSound {e} {next} (put_returns answers series sample s x h) v =
    put-IsSound answers e next series sample v s x h
Step-IsSound {e} {next} (sync_returns answers h) v = sync-IsSound answers e next v h
Step-IsSound {e} {next} (flush_returns answers fits h) v = flush-IsSound answers e next v fits h
Step-IsSound {e} {next} (restart_returns durability tail torn fits h) v =
    let opened = open_engine-IsDurable e durability tail v.durable torn fits in
    subst IsSound (cc (opened, h)) (reopened-IsSound e durability v)

-- Every engine that the steps have led to from one with the invariant has it: puts of constructed
-- keys and samples, syncs, and flushes with fewer than 2^64 samples stored, all of which return, and
-- restarts without a failing call of the system.
pub Reach-IsSound : {first e : StorageEngine} → Reach first e → IsSound first → IsSound e
Reach-IsSound start v = v
Reach-IsSound (later reached step) v = Step-IsSound step (Reach-IsSound reached v)

-- Two engines give the same answer to every query.
pub record IsSameAnswers (e again : StorageEngine) : Type 0 where
  pub same_get : (s : SeriesKey) (at : Timestamp) → Query.get again s at ≡ Query.get e s at
  pub same_latest : (s : SeriesKey) → Query.latest again s ≡ Query.latest e s
  pub same_range :
      (s : SeriesKey) (start end : Timestamp)
      → Query.range again s start end ≡ Query.range e s start end
  pub same_series : Query.known_series again ≡ Query.known_series e
  pub same_count : Query.sample_count again ≡ Query.sample_count e
  pub same_memtable_count : Query.memtable_sample_count again ≡ Query.memtable_sample_count e
  pub same_empty : Query.empty again ≡ Query.empty e
  pub same_segment_count : Query.segment_count again ≡ Query.segment_count e
  pub same_wal_size : Query.wal_size_bytes again ≡ Query.wal_size_bytes e
  pub same_stats : Query.stats again ≡ Query.stats e

reopened-IsSameAnswers :
    (e : StorageEngine) (durability : WalDurability) (d : IsDurable e)
    → e.failed ≡ false
    → IsSameAnswers e (reopened e.directory durability (stored_of e) (counted_of e) d.records)
unfolding Query.get Query.latest Query.range Query.known_series Query.sample_count
    Query.memtable_sample_count Query.empty Query.segment_count Query.wal_size_bytes Query.stats
    ensure_usable
reopened-IsSameAnswers e durability d usable = record {
  same_get = λ s at. rw usable refl;
  same_latest = λ s. rw usable refl;
  same_range = λ s start end. rw usable refl;
  same_series = rw usable refl;
  same_count = rw usable refl;
  same_memtable_count = rw usable refl;
  same_empty = rw usable refl;
  same_segment_count = rw usable refl;
  same_wal_size = rw (usable, d.log_size) refl;
  same_stats = rw (usable, d.log_size) refl;
}

-- A usable engine to which puts of constructed keys and samples, syncs and flushes that return, and
-- restarts, have led from that of a new directory, each flush with fewer than 2^64 samples stored,
-- and whose files are opened again, with or without an incomplete record at the end of the log and
-- without a failing call of the system: the constructor returns an engine that answers every query
-- as before, the statistics included.
pub restart :
    (e : StorageEngine) (first again : WalDurability) (tail : Bytes)
    → Reach (new_engine first) e
    → e.failed ≡ false
    → decode_frame tail ≡ throw WalDecodeError.incomplete_record
    → e.wal_writer.size_bytes + length tail < 2 ^ 64
    → (opened : StorageEngine) × (open_engine no_errors e.directory
          (some (e.wal_writer.file ++ tail))
          again
        ≡ some (ok opened))
      × IsSameAnswers e opened
restart e first again tail reached usable torn fits =
    let d = (Reach-IsSound reached (new_engine-IsSound first)).durable in
    (
      reopened e.directory again (stored_of e) (counted_of e) d.records,
      open_engine-IsDurable e again tail d torn fits,
      reopened-IsSameAnswers e again d usable,
    )
