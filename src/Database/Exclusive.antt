-- ===== src/Database/Exclusive.antt =====
-- The constructor of src/database.cpp with regard to the lock of the directory.
use chronostore.Common.{
  ◌≡◌, ◌⊎◌, inl, inr, refl, arith, Bool, true, false, Option, none, some, sym, Bool-cases, Outcome,
  ok, throw,
}
use chronostore.Errors.{Exception, system_error}
use chronostore.Model.{Bytes}
use chronostore.WalFile.{WalDurability}
use chronostore.WalRecovery.{WalReplayResult, replay_wal}
use chronostore.WalRecovery.Terminates.{replay_wal_ends}
use chronostore.StorageEngine.{Directory, StorageEngine}
use chronostore.StorageEngine.Recover.{
  OpenAnswers, create_log, RecoveryState, Counted, recover, recover_segments, open_engine,
  construct, replay_put, repaired,
}
use chronostore.Database.{Impl, to_internal_durability, translate_corruption, translate_exception}
use chronostore.Database.Open.{
  PathAnswers, LockAnswers, DatabaseOptions, Disk, prepare_database_directory, lock, make_impl,
  open_database,
}

abbrev Recovered : Type 0
Recovered = Outcome Exception (RecoveryState × Bytes)

-- The state from which the callback counts.
abbrev counted_from : RecoveryState → Counted
counted_from recovered = record {
  memtable = recovered.memtable;
  logical_sample_count = recovered.logical_sample_count;
}

recover_ends :
    (answers : OpenAnswers) (directory : Directory) (wal : Option Bytes)
    → (recovered : Recovered) × (recover answers directory wal ≡ some recovered)
unfolding recover
recover_ends answers directory log = by_segments (recover_segments answers.lists directory) log refl
  where
    Ends : Option Bytes → Type 0
    Ends wal = (recovered : Recovered) × (recover answers directory wal ≡ some recovered)

    by_replay :
        (segments : RecoveryState) (wal : Bytes)
        (replayed : Option (Outcome Exception (WalReplayResult × Counted)))
        → recover_segments answers.lists directory ≡ ok segments
        → answers.inspects ≡ true
        → replay_wal (replay_put segments.segments) wal (counted_from segments) ≡ replayed
        → Ends (some wal)
    by_replay segments wal none h i e =
        absurd (replay_wal_ends (replay_put segments.segments) wal (counted_from segments) e)
    by_replay segments wal (some (throw x)) h i e = (throw x, rw (recover, h, i, e) refl)
    by_replay segments wal (some (ok (result, counted))) h i e =
        (repaired answers.repair wal segments result counted, rw (recover, h, i, e) refl)

    by_inspection :
        (segments : RecoveryState) (wal : Option Bytes)
        → recover_segments answers.lists directory ≡ ok segments
        → (answers.inspects ≡ true) ⊎ (answers.inspects ≡ false)
        → Ends wal
    by_inspection segments wal h (inr i) = (throw system_error, rw (recover, h, i) refl)
    by_inspection segments none h (inl i) = (create_log answers segments, rw (recover, h, i) refl)
    by_inspection segments (some wal) h (inl i) = by_replay segments wal _ h i refl

    by_segments :
        (segments : Outcome Exception RecoveryState) (wal : Option Bytes)
        → recover_segments answers.lists directory ≡ segments
        → Ends wal
    by_segments (throw x) wal h = (throw x, rw (recover, h) refl)
    by_segments (ok segments) wal h = by_inspection segments wal h (Bool-cases answers.inspects)

open_engine_ends :
    (answers : OpenAnswers) (directory : Directory) (wal : Option Bytes)
    (durability : WalDurability)
    → (opened : Outcome Exception StorageEngine) × (open_engine answers directory wal durability
        ≡ some opened)
unfolding open_engine
open_engine_ends answers directory wal durability =
    let (recovered, h) = recover_ends answers directory wal in by_answer recovered h
  where
    by_answer :
        (recovered : Recovered)
        → recover answers directory wal ≡ some recovered
        → (opened : Outcome Exception StorageEngine) × (open_engine answers directory wal durability
            ≡ some opened)
    by_answer (throw x) h = (throw x, rw (open_engine, h) refl)
    by_answer (ok recovered) h =
        (construct answers.writer directory durability recovered, rw (open_engine, h) refl)

abbrev Opened : Type 0
Opened = Bool × Outcome Exception Impl

-- The lock was free and is held now, or the constructor throws and leaves the lock as it was.
abbrev pub IsExclusive : Bool → Opened → Type 0
IsExclusive held opened =
    ((held ≡ false) × (opened.0 ≡ true) × (impl : Impl) × (opened.1 ≡ ok impl))
    ⊎ (opened.0 ≡ held) × (x : Exception) × (opened.1 ≡ throw x)

lock-free : (answers : LockAnswers) (held : Bool) → lock answers held ≡ ok tt → held ≡ false
unfolding lock
lock-free answers false h = refl
lock-free answers true h = elim (Bool-cases answers.opens) [
  | inl opened ↦ elim (Bool-cases answers.lock_fails) [
    | inl failing ↦ absurd (ground arith)
    | inr locked ↦ absurd (ground arith)
  ]
  | inr unopened ↦ absurd (ground arith)
]

abbrev IsExclusivelyOpened : Option Opened → Bool → Type 0
IsExclusivelyOpened result held =
    (opened : Opened) × (result ≡ some opened) × IsExclusive held opened

make_impl-IsExclusive :
    (answers : LockAnswers) (opens : OpenAnswers) (disk : Disk) (options : DatabaseOptions)
    → IsExclusivelyOpened (make_impl answers opens disk options) disk.held
unfolding make_impl
make_impl-IsExclusive answers opens disk options = by_lock (lock answers disk.held) refl
  where
    by_engine :
        (opened : Outcome Exception StorageEngine)
        → lock answers disk.held ≡ ok tt
        → open_engine opens disk.directory disk.wal (to_internal_durability options.durability)
          ≡ some opened
        → IsExclusivelyOpened (make_impl answers opens disk options) disk.held
    by_engine (throw x) h e =
        let free = lock-free answers disk.held h in
        ((false, throw x), rw (make_impl, h, e) refl, inr (sym free, x, refl))
    by_engine (ok engine) h e = (
      (
        true,
        ok (record {
          engine = engine;
          flush_threshold_samples = options.memtable_flush_threshold_samples;
        }),
      ),
      rw (make_impl, h, e) refl,
      inl (lock-free answers disk.held h, refl, _, refl),
    )

    by_lock :
        (locked : Outcome Exception (Unit {0}))
        → lock answers disk.held ≡ locked
        → IsExclusivelyOpened (make_impl answers opens disk options) disk.held
    by_lock (throw x) h = ((disk.held, throw x), rw (make_impl, h) refl, inr (refl, x, refl))
    by_lock (ok u) h =
        let (opened, e) =
          open_engine_ends opens disk.directory disk.wal
            (to_internal_durability options.durability) in
        by_engine opened h e

-- The translation of the answer keeps what is said of the lock.
translated-IsExclusive :
    (held : Bool) (after : Bool) (answer : Outcome Exception Impl)
    → IsExclusive held (after, answer)
    → IsExclusive held (after, translate_corruption answer)
unfolding translate_corruption
translated-IsExclusive held after (ok impl) v = v
translated-IsExclusive held after (throw x) (inl (free, locked, impl, h)) = absurd (cc (h))
translated-IsExclusive held after (throw x) (inr (same, y, h)) =
    inr (same, translate_exception x, refl)

-- The constructor ends, whatever the files of the directory hold and the system answers: it returns where no database held
-- the lock, and holds it; or it throws and leaves the lock as it was. A directory whose lock is held
-- is not opened.
pub open_database-IsExclusive :
    (paths : PathAnswers) (locks : LockAnswers) (opens : OpenAnswers) (disk : Disk)
    (directory : Bytes) (options : DatabaseOptions)
    → (opened : Bool × Outcome Exception Impl) × (open_database paths locks opens disk directory
          options
        ≡ some opened)
      × IsExclusive disk.held opened
unfolding open_database
open_database-IsExclusive paths locks opens disk directory options =
    by_path (prepare_database_directory paths directory) refl
  where
    by_path :
        (prepared : Outcome Exception (Unit {0}))
        → prepare_database_directory paths directory ≡ prepared
        → IsExclusivelyOpened (open_database paths locks opens disk directory options) disk.held
    by_path (throw x) h = ((disk.held, throw x), rw (open_database, h) refl, inr (refl, x, refl))
    by_path (ok u) h =
        let ((after, answer), e, v) = make_impl-IsExclusive locks opens disk options in
        (
          (after, translate_corruption answer),
          rw (open_database, h, e) refl,
          translated-IsExclusive disk.held after answer v,
        )
