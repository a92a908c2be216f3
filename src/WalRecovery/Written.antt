-- ===== src/WalRecovery/Written.antt =====
-- `replay_wal` and `repair_wal_tail` of src/wal_recovery.cpp on a log of written records.
use chronostore.Common.{
  ◌+◌, ◌*◌, ◌^◌, ◌<◌, ◌≤◌, ◌≡◌, refl, ap, ◌∙◌, arith, some, List, [], ◌∷◌, ◌++◌, append-nil, length,
  length-append, take-append, All, Outcome, ok, throw, ◌>>=◌,
}
use chronostore.Errors.{Exception, WalDecodeError}
use chronostore.Model.{Bytes}
use chronostore.WalRecord.{WalPutRecord, decode_frame}
use chronostore.WalRecord.Layout.{record_bytes, length-record_bytes}
use chronostore.WalRecovery.{
  replay_wal, replay_start, had_incomplete_tail, repair_fine, repair_wal_tail,
}
use chronostore.WalFile
use chronostore.WalFile.{open_wal}
use chronostore.WalRecovery.Slices.{zero_plus}
pub use chronostore.WalRecovery.Records.{IsWritten, frames, replay_all}
use chronostore.WalRecovery.Records.{written_loop}

length-frames : (records : List WalPutRecord) → length records ≤ length (frames records)
length-frames [] = omega arith
length-frames (r ∷ records) = omega (
  arith,
  length-frames records,
  length-append (record_bytes r) (frames records),
  length-record_bytes r,
)

-- The replay of a file of written records with an incomplete one behind them, or nothing, ends. It
-- answers the callback's state after each record in turn, the count of the records, the size of
-- their frames and the size of what is behind; an exception of the callback is passed on.
pub replay_wal-frames :
    {S : Type 0} (replay : S → WalPutRecord → Outcome Exception S) (caller : S)
    (records : List WalPutRecord) (tail : Bytes)
    → All IsWritten records
    → decode_frame tail ≡ throw WalDecodeError.incomplete_record
    → length (frames records) < 2 ^ 64
    → replay_wal replay (frames records ++ tail) caller
      ≡ some (
          replay_all replay caller records >>= λ state. ok (
            record {
              records_replayed = length records;
              valid_bytes = length (frames records);
              incomplete_tail_bytes = length tail;
            },
            state,
          ))
unfolding replay_wal
replay_wal-frames replay caller records tail w i fits =
    written_loop replay (2 * length (frames records ++ tail) + 2)
      (replay_start replay (frames records ++ tail) caller) records tail
      (record { consumed_within = omega arith; end_empties = λ h. cc (h); no_tail_yet = refl }) refl
      w i
      (record {
        bytes_fit = omega (arith, fits);
        records_fit = omega (arith, fits, length-frames records);
      })
      (omega arith)
    ∙ rw (zero_plus (length records), zero_plus (length (frames records))) refl

-- The repair after such a replay, where the calls of the system succeed, leaves exactly the frames of
-- the records.
pub repair_wal_tail-frames :
    (records : List WalPutRecord) (tail : Bytes)
    → length (frames records) + length tail < 2 ^ 64
    → repair_wal_tail repair_fine (frames records ++ tail) (record {
      records_replayed = length records;
      valid_bytes = length (frames records);
      incomplete_tail_bytes = length tail;
    })
      ≡ ok (frames records)
unfolding repair_wal_tail had_incomplete_tail open_wal WalFile.sync WalFile.ensure_usable
repair_wal_tail-frames records [] h = ap ok (append-nil (frames records))
repair_wal_tail-frames records (byte ∷ tail) h = ground (
  arith,
  take-append (frames records) (byte ∷ tail),
  length-append (frames records) (byte ∷ tail),
)
