-- ===== src/StorageEngine/Durable/Put.antt =====
-- One record more in the log of the engine of src/storage_engine.cpp.
use chronostore.Common.{
  suc, ◌+◌, ◌%◌, ◌^◌, ◌<◌, ◌≡◌, refl, sym, ap, ◌∙◌, arith, Bool, some, List, [], ◌∷◌, ◌++◌,
  append-nil, append_assoc, length, length-append, if◌then◌else◌, All-append, Outcome, ok, throw,
  >>=-eq-ok,
}
use chronostore.Errors.{Exception, WalDecodeError}
use chronostore.Model.{Bytes, SeriesKey, Sample}
use chronostore.MemTable
use chronostore.WalRecord.{WalPutRecord, decode_frame}
use chronostore.WalRecord.Layout.{record_bytes}
use chronostore.WalRecovery.Written.{IsWritten, frames, replay_all}
use chronostore.WalFile.{WalDurability}
use chronostore.StorageEngine.{StorageEngine, contains}
use chronostore.StorageEngine.Recover.{Counted, replay_put, open_engine, no_errors}
use chronostore.StorageEngine.Durable.{
  IsDurable, counted_of, stored_of, replay_base, reopened, open_engine-IsDurable,
  open_engine-frames, nothing_left,
}

frames-append : (rs qs : List WalPutRecord) → frames (rs ++ qs) ≡ frames rs ++ frames qs
frames-append [] qs = refl
frames-append (r ∷ rs) qs =
    ap (λ t. record_bytes r ++ t) (frames-append rs qs)
    ∙ sym (append_assoc (record_bytes r) (frames rs) (frames qs))

module _ {S : Type 0} (replay : S → WalPutRecord → Outcome Exception S) where
  replay_all-append :
      (caller middle last : S) (rs : List WalPutRecord) (r : WalPutRecord)
      → replay_all replay caller rs ≡ ok middle
      → replay middle r ≡ ok last
      → replay_all replay caller (rs ++ (r ∷ [])) ≡ ok last
  replay_all-append caller middle last [] r h k = ground (arith, k)
  replay_all-append caller middle last (q ∷ rs) r h k =
      let (next, h', e) = >>=-eq-ok _ (replay caller q) h in
      rw e (replay_all-append next middle last rs r h' k)

-- The engine once a record is in the log and in memory.
abbrev pub advanced : StorageEngine → Bool → SeriesKey → Sample → Counted
advanced e already_exists series sample = record {
  memtable = MemTable.put e.memtable series sample;
  logical_sample_count =
      if already_exists then e.logical_sample_count else suc e.logical_sample_count % 2 ^ 64;
}

replay_put-contains :
    (e : StorageEngine) (already_exists : Bool) (series : SeriesKey) (sample : Sample)
    → contains e series sample.timestamp ≡ ok already_exists
    → replay_put e.segments (counted_of e) (record { series = series; sample = sample })
      ≡ ok (advanced e already_exists series sample)
unfolding replay_put contains
replay_put-contains e already_exists series sample h = rw h refl

-- A log with one record more.
module _ (e : StorageEngine) (series : SeriesKey) (sample : Sample) (already_exists : Bool) where
  abbrev put_record : WalPutRecord
  put_record = record { series = series; sample = sample }

  abbrev pub longer : IsDurable e → List WalPutRecord
  longer d = d.records ++ (put_record ∷ [])

  pub longer-frames :
      (d : IsDurable e) → e.wal_writer.file ++ record_bytes put_record ≡ frames (longer d)
  longer-frames d = rw (d.log_frames, frames-append d.records (put_record ∷ []), append-nil)

  pub length-longer :
      (d : IsDurable e)
      → length (frames (longer d)) ≡ e.wal_writer.size_bytes + length (record_bytes put_record)
  length-longer d = omega (
    arith,
    ap length (longer-frames d),
    length-append e.wal_writer.file (record_bytes put_record),
    ap length d.log_frames,
    d.log_size,
  )

  pub longer_replayed :
      (d : IsDurable e)
      → contains e series sample.timestamp ≡ ok already_exists
      → replay_all (replay_put e.segments) (replay_base e) (longer d)
        ≡ ok (advanced e already_exists series sample)
  longer_replayed d there =
      replay_all-append (replay_put e.segments) (replay_base e) (counted_of e) _ d.records
        put_record d.log_replayed (replay_put-contains e already_exists series sample there)

-- How the files of `next` are opened: as the engine `e` with another table in memory and count.
abbrev pub IsRecovered : StorageEngine → StorageEngine → WalDurability → Counted → Type 0
IsRecovered next e durability counted =
    (records : List WalPutRecord) × (open_engine no_errors next.directory
        (some next.wal_writer.file) durability
      ≡ some (ok (reopened e.directory durability (stored_of e) counted records)))

pub IsRecovered-before :
    (e next : StorageEngine) (durability : WalDurability) (tail : Bytes)
    → IsDurable e
    → next.directory ≡ e.directory
    → next.wal_writer.file ≡ e.wal_writer.file ++ tail
    → decode_frame tail ≡ throw WalDecodeError.incomplete_record
    → e.wal_writer.size_bytes + length tail < 2 ^ 64
    → IsRecovered next e durability (counted_of e)
IsRecovered-before e next durability tail d directory file i fits =
    (d.records, rw (directory, file) (open_engine-IsDurable e durability tail d i fits))

pub IsRecovered-after :
    (e next : StorageEngine) (durability : WalDurability) (series : SeriesKey) (sample : Sample)
    (already_exists : Bool)
    → IsDurable e
    → next.directory ≡ e.directory
    → next.wal_writer.file
      ≡ e.wal_writer.file ++ record_bytes (record { series = series; sample = sample })
    → IsWritten (record { series = series; sample = sample })
    → e.wal_writer.size_bytes + length (record_bytes (record { series = series; sample = sample }))
      < 2 ^ 64
    → contains e series sample.timestamp ≡ ok already_exists
    → IsRecovered next e durability (advanced e already_exists series sample)
IsRecovered-after e next durability series sample already_exists d directory file w fits there =
    let records = longer e series sample already_exists d in
    let size = length-longer e series sample already_exists d in
    let opened =
      open_engine-frames e.directory durability (stored_of e)
        (advanced e already_exists series sample) records [] d.directory_recovers
        (All-append IsWritten d.records _ d.records_written (w, tt)) nothing_left
        (omega (arith, size, fits)) (longer_replayed e series sample already_exists d there) in
    (
      records,
      rw (directory, file, longer-frames e series sample already_exists d)
          (rw append-nil at opened),
    )
