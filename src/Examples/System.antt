-- ===== src/Examples/System.antt =====
-- Calls of the operating system, and the public class, on concrete inputs.
use chronostore.Common.{
  ◌≡◌, refl, arith, true, false, Bool, none, some, List, [], ◌∷◌, Option, Outcome,
}
use chronostore.Errors.{Exception}
use chronostore.Model.{Bytes}
use chronostore.Order.{pos}
use chronostore.FileAccess.{
  succeeds, interrupted, fails, SyncCalls, WriteCalls, Target, atomic_write_file,
}
use chronostore.FileAccess.Atomic.{is_answered, IsEnd, atomic_write_file-IsAtomic}
use chronostore.WalFile.Loops.{WriteAnswer, wrote, interrupted_write, failed_write, write_all}
use chronostore.WalFile.WriteAll.{completed, IsWrittenTo, write_all_ends}
use chronostore.StorageEngine.{AtomicWrite}
use chronostore.StorageEngine.Recover.{no_errors}
use chronostore.Database
use chronostore.Database.{Impl, buffered}
use chronostore.Database.Open.{PathAnswers, LockAnswers, Disk, DatabaseOptions, open_database}
use chronostore.Database.Exclusive.{IsExclusive, open_database-IsExclusive}
use chronostore.Database.Corruption.{throws_format_error, no_format_error}
use chronostore.Examples.{cpu, sample_one}
use chronostore.Examples.Engine.{good}
use chronostore.Examples.Recovery.{filled}

abbrev quiet : SyncCalls
quiet = record { opens = succeeds ∷ []; syncs = interrupted ∷ succeeds ∷ []; closes = succeeds }

-- The synchronization of the directory fails after the rename.
abbrev failing : WriteCalls
failing = record {
  temporary_opens = true;
  written_before_failure = none;
  temporary_sync = quiet;
  rename_succeeds = true;
  parent_sync = record { opens = succeeds ∷ []; syncs = fails ∷ []; closes = succeeds };
}

abbrev old_file : Target
old_file = record { final = some (1 ∷ []); temporary = none }

atomic_write_file-IsAtomic_example :
    (ended : Target × Outcome Exception (Unit {0})) × (atomic_write_file failing old_file
        (2 ∷ 3 ∷ [])
      ≡ some ended)
    × (end : AtomicWrite) × IsEnd end (some (1 ∷ [])) (2 ∷ 3 ∷ []) ended
unfolding is_answered
atomic_write_file-IsAtomic_example =
    atomic_write_file-IsAtomic failing old_file (2 ∷ 3 ∷ [])
      (record { opens_answered = refl; syncs_answered = refl })
      (record { opens_answered = refl; syncs_answered = refl })

abbrev write_answers : List WriteAnswer
write_answers = interrupted_write ∷ wrote 2 ∷ interrupted_write ∷ wrote 1 ∷ failed_write ∷ []

write_all_ends_example :
    (ended : Bytes × Outcome Exception (Unit {0})) × (write_all write_answers
        (9 ∷ [])
        (4 ∷ 5 ∷ 6 ∷ [])
      ≡ some ended)
    × IsWrittenTo (9 ∷ []) (4 ∷ 5 ∷ 6 ∷ []) ended
unfolding completed
write_all_ends_example = write_all_ends write_answers (9 ∷ []) (4 ∷ 5 ∷ 6 ∷ []) (omega arith)

abbrev open_database_of : Option Impl
open_database_of = some (record { engine = filled; flush_threshold_samples = 1 })

no_format_error_example :
    (throws_format_error (Database.put good good open_database_of cpu sample_one).1 ≡ false)
    × (throws_format_error (Database.flush good open_database_of).1 ≡ false)
    × (throws_format_error (Database.compact good open_database_of).1 ≡ false)
    × (throws_format_error (Database.get open_database_of cpu (pos 10)) ≡ false)
    × (throws_format_error (Database.latest open_database_of cpu) ≡ false)
    × (throws_format_error (Database.range open_database_of cpu (pos 0) (pos 20)) ≡ false)
no_format_error_example =
    no_format_error good good open_database_of cpu sample_one (pos 10) (pos 0) (pos 20)

-- The directory of another process.
abbrev busy : Disk
busy = record {
  directory = record { files = []; manifest_file = none; temporaries = [] };
  wal = none;
  held = true;
}

abbrev usual : PathAnswers
usual = record { already_exists = some true; creates = false; is_directory = some true }

abbrev unlocked : LockAnswers
unlocked = record { opens = true; lock_fails = false }

abbrev defaults : DatabaseOptions
defaults = record { durability = buffered; memtable_flush_threshold_samples = 4096 }

open_database-IsExclusive_example :
    (opened : Bool × Outcome Exception Impl) × (open_database usual unlocked no_errors busy
        (100 ∷ [])
        defaults
      ≡ some opened)
    × IsExclusive true opened
open_database-IsExclusive_example =
    open_database-IsExclusive usual unlocked no_errors busy (100 ∷ []) defaults
