-- ===== src/StorageEngine/Durable.antt =====
-- The files of an engine of src/storage_engine.cpp, and the constructor on them.
pub mod Put
pub mod Atomic
pub mod Kept
pub mod Leftovers
pub mod Reopened
use chronostore.Common.{
  ℕ, ◌+◌, ◌-◌, ◌^◌, ◌<◌, ◌≤◌, ◌≡◌, refl, ap, sym, ◌∙◌, arith, true, false, Option, none, some, List,
  [], ◌∷◌, ◌++◌, append-nil, append_assoc, length, All, Outcome, ok, throw, !=_self, ◌>>=◌,
}
use chronostore.Errors.{Exception, WalDecodeError}
use chronostore.Model.{Bytes}
use chronostore.MemTable
use chronostore.WalRecord.{WalPutRecord, decode_frame}
use chronostore.WalRecovery.{WalReplayResult, replay_wal, repair_wal_tail}
use chronostore.WalRecovery.Written.{
  IsWritten, frames, replay_all, replay_wal-frames, repair_wal_tail-frames,
}
use chronostore.WalFile.{WalDurability, open_wal, opened_wal}
use chronostore.StorageEngine.{Directory, StorageEngine}
use chronostore.StorageEngine.Recover.{
  RecoveryState, Counted, replay_put, recover_segments, remove_leftovers, remove_temporaries,
  repaired, recover, construct, open_engine, no_errors,
}

abbrev pub counted_of : StorageEngine → Counted
counted_of e = record { memtable = e.memtable; logical_sample_count = e.logical_sample_count }

-- What the directory alone gives: nothing in memory, and the count of the manifest.
abbrev pub stored_of : StorageEngine → RecoveryState
stored_of e = record {
  memtable = MemTable.new;
  manifest = e.manifest;
  segments = e.segments;
  logical_sample_count = e.manifest.logical_sample_count;
  wal_size = 0;
}

-- Where the replay of the log begins.
abbrev pub replay_base : StorageEngine → Counted
replay_base e = record {
  memtable = MemTable.new;
  logical_sample_count = e.manifest.logical_sample_count;
}

-- The directory holds the manifest and the segments, the log holds complete records, and their
-- replay gives the table in memory and the count.
pub record IsDurable (e : StorageEngine) : Type 0 where
  pub records : List WalPutRecord
  pub records_written : All IsWritten records
  pub log_frames : e.wal_writer.file ≡ frames records
  pub log_size : e.wal_writer.size_bytes ≡ length (frames records)
  pub log_fits : length (frames records) < 2 ^ 64
  pub log_replayed : replay_all (replay_put e.segments) (replay_base e) records ≡ ok (counted_of e)
  pub directory_recovers : recover_segments true e.directory ≡ ok (stored_of e)

-- The engine that the constructor makes.
abbrev pub reopened :
    Directory → WalDurability → RecoveryState → Counted → List WalPutRecord → StorageEngine
reopened directory durability stored counted records = record {
  memtable = counted.memtable;
  manifest = stored.manifest;
  segments = stored.segments;
  wal_writer = opened_wal (frames records) durability;
  logical_sample_count = counted.logical_sample_count;
  failed = false;
  directory = record {
    files = remove_leftovers stored.manifest.segment_files directory.files;
    manifest_file = directory.manifest_file;
    temporaries = remove_temporaries stored.manifest.segment_files directory.temporaries;
  };
}

-- A directory that can be recovered, with a log of complete records and an incomplete one behind
-- them, or nothing, is opened, where the replay of the records returns and no call of the system
-- fails.
pub open_engine-frames :
    (directory : Directory) (durability : WalDurability) (stored : RecoveryState)
    (counted : Counted) (records : List WalPutRecord) (tail : Bytes)
    → recover_segments true directory ≡ ok stored
    → All IsWritten records
    → decode_frame tail ≡ throw WalDecodeError.incomplete_record
    → length (frames records) + length tail < 2 ^ 64
    → replay_all
        (replay_put stored.segments)
        (record { memtable = stored.memtable; logical_sample_count = stored.logical_sample_count })
        records
      ≡ ok counted
    → open_engine no_errors directory (some (frames records ++ tail)) durability
      ≡ some (ok (reopened directory durability stored counted records))
unfolding open_engine recover repaired construct open_wal
open_engine-frames directory durability stored counted records tail d w i fits r = rw (
  open_engine,
  recover,
  d,
  replay_wal-frames (replay_put stored.segments) _ records tail w i (omega arith),
  r,
  repair_wal_tail-frames records tail fits,
  !=_self (length (frames records)),
)

pub nothing_left : decode_frame [] ≡ throw WalDecodeError.incomplete_record
unfolding decode_frame
nothing_left = refl

-- The files of a durable engine, with or without an incomplete record at the end of the log, are
-- opened, where no call of the system fails, to an engine that has the same samples in memory, the
-- same segments, manifest and count.
pub open_engine-IsDurable :
    (e : StorageEngine) (durability : WalDurability) (tail : Bytes)
    → (d : IsDurable e) → decode_frame tail ≡ throw WalDecodeError.incomplete_record
    → e.wal_writer.size_bytes + length tail < 2 ^ 64
    → open_engine no_errors e.directory (some (e.wal_writer.file ++ tail)) durability
      ≡ some (ok (reopened e.directory durability (stored_of e) (counted_of e) d.records))
open_engine-IsDurable e durability tail d i fits = rw d.log_frames (
    open_engine-frames e.directory durability (stored_of e) (counted_of e) d.records tail
      d.directory_recovers d.records_written i (rw d.log_size at fits) d.log_replayed)
