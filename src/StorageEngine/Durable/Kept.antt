-- ===== src/StorageEngine/Durable/Kept.antt =====
-- `put` and `sync` of src/storage_engine.cpp and the files of the engine.
use chronostore.Common.{
  ◌+◌, ◌^◌, ◌<◌, ◌≡◌, ◌⊎◌, inl, inr, refl, ap, arith, Bool, length, All-append, Outcome, ok, throw,
  ◌>>◌,
}
use mathlib.Core.Path.{subst}
use chronostore.Errors.{Exception}
use chronostore.Model.{Bytes, SeriesKey, Sample, IsSeries, IsSample}
use chronostore.WalRecord.{encode_wal_record}
use chronostore.WalRecord.Layout.{record_bytes}
use chronostore.WalRecovery.Written.{IsWritten}
use chronostore.WalFile
use chronostore.WalFile.Outcomes.{
  IsRefused, IsPartial, IsAppended, with_file, append_outcome, sync_outcome,
}
use chronostore.StorageEngine.{
  StorageEngine, Answers, ensure_usable, contains, put, put_in_memory, sync,
}
use chronostore.StorageEngine.Durable.{IsDurable}
use chronostore.StorageEngine.Durable.Put.{longer, longer-frames, length-longer, longer_replayed}
use chronostore.StorageEngine.Durable.Atomic.{IsWritten-of}

module _ (e : StorageEngine) (series : SeriesKey) (sample : Sample) where
  advanced-IsDurable :
      (already_exists : Bool) (encoded : Bytes)
      → IsDurable e
      → contains e series sample.timestamp ≡ ok already_exists
      → encoded ≡ record_bytes (record { series = series; sample = sample })
      → IsWritten (record { series = series; sample = sample })
      → e.wal_writer.size_bytes + length encoded < 2 ^ 64
      → IsDurable (put_in_memory e (with_file e.wal_writer encoded) already_exists series sample)
  unfolding put_in_memory
  advanced-IsDurable already_exists encoded d there layout w fits =
      let size = length-longer e series sample already_exists d in
      record {
        records = longer e series sample already_exists d;
        records_written = All-append IsWritten d.records _ d.records_written (w, tt);
        log_frames = rw layout (longer-frames e series sample already_exists d);
        log_size = rw (size, layout);
        log_fits = omega (arith, size, ap length layout, fits);
        log_replayed = longer_replayed e series sample already_exists d there;
        directory_recovers = d.directory_recovers;
      }

  put_by_append :
      (answers : Answers) (next : StorageEngine)
      → IsDurable e
      → IsSeries series
      → IsSample sample
      → put answers e series sample ≡ (next, ok tt)
      → (presence : Outcome Exception Bool)
      → (ensure_usable e >> contains e series sample.timestamp) ≡ presence
      → IsRefused e.wal_writer (
          WalFile.append answers.wal_calls e.wal_writer
            (record { series = series; sample = sample }))
        ⊎ (encoded : Bytes) × (encode_wal_record (record { series = series; sample = sample })
            ≡ ok encoded)
          × (e.wal_writer.size_bytes + length encoded < 2 ^ 64)
          × (IsPartial e.wal_writer encoded (
                WalFile.append answers.wal_calls e.wal_writer
                  (record { series = series; sample = sample }))
              ⊎ IsAppended e.wal_writer encoded (
                  WalFile.append answers.wal_calls e.wal_writer
                    (record { series = series; sample = sample })))
      → IsDurable next
  unfolding put ensure_usable
  put_by_append answers next d v s returned (throw x) h outcome = absurd (ground arith)
  put_by_append answers next d v s returned (ok b) h (inl (x, refused)) = absurd (ground arith)
  put_by_append answers next d v s returned (ok b) h
        (inr (encoded, f, fits, inl (n, x, file, thrown))) =
      absurd (ground (arith, thrown))
  put_by_append answers next d v s returned (ok b) h (inr (encoded, f, fits, inr appended)) =
      let (layout, w) = IsWritten-of series sample encoded v s f in
      let there : contains e series sample.timestamp ≡ ok b = ground arith in
      let same : put_in_memory e (with_file e.wal_writer encoded) b series sample ≡ next =
        ground arith in
      subst IsDurable same (advanced-IsDurable b encoded d there layout w fits)

-- Where a `put` of a constructed series key and sample returns, the engine is durable again.
pub put-IsDurable :
    (answers : Answers) (e next : StorageEngine) (series : SeriesKey) (sample : Sample)
    → IsDurable e
    → IsSeries series
    → IsSample sample
    → put answers e series sample ≡ (next, ok tt)
    → IsDurable next
put-IsDurable answers e next series sample d v s returned =
    put_by_append e series sample answers next d v s returned _ refl (
      append_outcome answers.wal_calls e.wal_writer (record { series = series; sample = sample })
        (omega (arith, d.log_size, d.log_fits)))

-- A `sync` that returns leaves the engine as it was.
pub sync_returns :
    (answers : Answers) (e next : StorageEngine) → sync answers e ≡ (next, ok tt) → next ≡ e
unfolding sync ensure_usable
sync_returns answers e next returned = elim (sync_outcome answers.wal_calls e.wal_writer) [
  | inl synced ↦ ground arith
  | inr (x, file, thrown) ↦ absurd (ground (arith, thrown))
]
