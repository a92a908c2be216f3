-- ===== src/StorageEngine/Durable/Atomic.antt =====
-- The files that a `put` of src/storage_engine.cpp leaves, and the constructor on them.
use chronostore.Common.{
  ℕ, ◌+◌, ◌^◌, ◌<◌, ◌≡◌, ◌⊎◌, inl, inr, refl, sym, ap, ◌∙◌, arith, Bool, [], ◌++◌, append-nil,
  length, length-take, length-drop, take, drop, take-append-drop, take_beyond, ltb, ltb→lt, ltb→le,
  Bool-cases, Outcome, ok, throw, ◌>>◌,
}
use chronostore.Errors.{Exception}
use chronostore.Model.{Bytes, SeriesKey, Sample, IsSeries, IsSample}
use chronostore.WalRecord.{WalPutRecord, encode_wal_record}
use chronostore.WalRecord.Layout.{record_bytes, encode_wal_record-eq-ok}
use chronostore.WalRecord.Prefix.{decode_frame_prefix}
use chronostore.WalRecovery.Written.{IsWritten}
use chronostore.WalFile
use chronostore.WalFile.{WalDurability}
use chronostore.WalFile.Outcomes.{IsRefused, IsPartial, IsAppended, append_outcome}
use chronostore.StorageEngine.{StorageEngine, Answers, ensure_usable, contains, put, put_in_memory}
use chronostore.StorageEngine.Durable.{IsDurable, counted_of, nothing_left}
use chronostore.StorageEngine.Durable.Put.{
  IsRecovered, advanced, IsRecovered-before, IsRecovered-after,
}

-- The files of the engine after a `put` are opened as an engine without the sample, or with it.
abbrev pub IsAtomic : StorageEngine → StorageEngine → SeriesKey → Sample → WalDurability → Type 0
IsAtomic next e series sample durability =
    IsRecovered next e durability (counted_of e)
    ⊎ (already_exists : Bool) × (contains e series sample.timestamp ≡ ok already_exists)
      × IsRecovered next e durability (advanced e already_exists series sample)

module _ (e next : StorageEngine) (series : SeriesKey) (sample : Sample)
    (durability : WalDurability) (d : IsDurable e) (directory : next.directory ≡ e.directory) where
  unchanged_log :
      next.wal_writer.file ≡ e.wal_writer.file → IsAtomic next e series sample durability
  unchanged_log file = inl (
      IsRecovered-before e next durability [] d directory
        (file ∙ sym (append-nil e.wal_writer.file)) nothing_left
        (omega (arith, d.log_size, d.log_fits)))

  abbrev record_of : WalPutRecord
  record_of = record { series = series; sample = sample }

  -- A part of the frame is an incomplete record, and the whole is the record.
  partial_log :
      (already_exists : Bool) (n : ℕ)
      → contains e series sample.timestamp ≡ ok already_exists
      → IsWritten record_of
      → e.wal_writer.size_bytes + length (record_bytes record_of) < 2 ^ 64
      → next.wal_writer.file ≡ e.wal_writer.file ++ take n (record_bytes record_of)
      → IsAtomic next e series sample durability
  partial_log already_exists n there w fits file =
      let frame = record_bytes record_of in
      elim (Bool-cases (ltb n (length frame))) [
        | inl short ↦
            let shorter = ltb→lt n (length frame) short in
            let incomplete =
              decode_frame_prefix record_of (take n frame) (drop n frame) w.series_canonical
                w.sample_valid w.payload_fits (take-append-drop n frame)
                (omega (arith, length-drop n frame)) in
            inl (
              IsRecovered-before e next durability (take n frame) d directory file incomplete
                (omega (arith, length-take n frame, fits)))
        | inr whole ↦
            let all = take_beyond n frame (ltb→le n (length frame) whole) in
            inr (
              already_exists,
              there,
              IsRecovered-after e next durability series sample already_exists d directory
                  (file ∙ ap (λ t. e.wal_writer.file ++ t) all) w fits there,
            )
      ]

pub IsWritten-of :
    (series : SeriesKey) (sample : Sample) (encoded : Bytes)
    → IsSeries series
    → IsSample sample
    → encode_wal_record (record { series = series; sample = sample }) ≡ ok encoded
    → (encoded ≡ record_bytes (record { series = series; sample = sample }))
      × IsWritten (record { series = series; sample = sample })
IsWritten-of series sample encoded v s h =
    let (layout, fits) = encode_wal_record-eq-ok _ encoded v h in
    (layout, record { series_canonical = v; sample_valid = s; payload_fits = fits })

module _ (answers : Answers) (e : StorageEngine) (series : SeriesKey) (sample : Sample)
    (durability : WalDurability) where
  abbrev put_record : WalPutRecord
  put_record = record { series = series; sample = sample }

  abbrev next : StorageEngine
  next = (put answers e series sample).0

  abbrev appending : WalFile.WalWriter × Outcome Exception (Unit {0})
  appending = WalFile.append answers.wal_calls e.wal_writer put_record

  put_by_presence :
      IsDurable e
      → IsSeries series
      → IsSample sample
      → (presence : Outcome Exception Bool)
      → (ensure_usable e >> contains e series sample.timestamp) ≡ presence
      → IsRefused e.wal_writer appending
        ⊎ (encoded : Bytes) × (encode_wal_record put_record ≡ ok encoded)
          × (e.wal_writer.size_bytes + length encoded < 2 ^ 64)
          × (IsPartial e.wal_writer encoded appending ⊎ IsAppended e.wal_writer encoded appending)
      → IsAtomic next e series sample durability
  unfolding put put_in_memory ensure_usable
  put_by_presence d v s (throw x) h outcome =
      unchanged_log e next series sample durability d (ground arith) (ground arith)
  put_by_presence d v s (ok b) h (inl (x, refused)) =
      unchanged_log e next series sample durability d (ground arith) (ground arith)
  put_by_presence d v s (ok b) h (inr (encoded, f, fits, ended)) =
      let (layout, w) = IsWritten-of series sample encoded v s f in
      let there : contains e series sample.timestamp ≡ ok b = ground arith in
      elim ended [
        | inl (n, x, file, thrown) ↦
            partial_log e next series sample durability d (ground arith) b n there w
              (omega (arith, ap length layout)) (ground (arith, file, layout, thrown))
        | inr appended ↦ inr (
          b,
          there,
          IsRecovered-after e next durability series sample b d (ground arith)
              (ground (arith, layout)) w (omega (arith, ap length layout)) there,
        )
      ]

-- Whatever the system answers to a `put` of a constructed series key and sample on a durable engine,
-- and whether the `put` returns or throws, its files are opened, where no call of the system fails
-- then, as the engine before the `put` or with the sample added: nothing else is lost, and no part
-- of a sample appears.
pub put-IsAtomic :
    (answers : Answers) (e : StorageEngine) (series : SeriesKey) (sample : Sample)
    (durability : WalDurability)
    → IsDurable e
    → IsSeries series
    → IsSample sample
    → IsAtomic (put answers e series sample).0 e series sample durability
put-IsAtomic answers e series sample durability d v s =
    put_by_presence answers e series sample durability d v s _ refl (
      append_outcome answers.wal_calls e.wal_writer (record { series = series; sample = sample })
        (omega (arith, d.log_size, d.log_fits)))
