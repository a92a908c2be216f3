-- ===== src/Database/Open.antt =====
-- src/database.cpp and src/database_lock.cpp: the constructor of the public class, with the lock of
-- the directory, on a POSIX system. What the system answers is a parameter.
use chronostore.Common.{
  Bool, true, false, not, ◌||◌, Option, none, some, ℕ, Outcome, ok, throw, throw_if, demand, ◌>>=◌,
  ◌>>◌,
}
use chronostore.Errors.{Exception, invalid_argument, system_error, database_busy_error}
use chronostore.Model.{Bytes, is_empty}
use chronostore.StorageEngine.{Directory}
use chronostore.StorageEngine.Recover.{OpenAnswers, open_engine}
use chronostore.Database.{Durability, to_internal_durability, Impl, translate_corruption}

-- What the file system answers about the path, with `none` for an error, and whether it creates the
-- directory.
pub record PathAnswers : Type 0 where
  pub already_exists : Option Bool
  pub creates : Bool
  pub is_directory : Option Bool

unfoldable pub prepare_database_directory : PathAnswers → Bytes → Outcome Exception (Unit {0})
prepare_database_directory answers directory = do
  throw_if (is_empty directory) invalid_argument
  already_exists ← demand system_error answers.already_exists
  throw_if (not (already_exists || answers.creates)) system_error
  is_directory ← demand system_error answers.is_directory
  throw_if (not is_directory) invalid_argument

-- Whether the lock file is opened, and whether `flock` fails otherwise than by a lock that is held.
pub record LockAnswers : Type 0 where
  pub opens : Bool
  pub lock_fails : Bool

-- The constructor of the lock; `held` tells whether a database holds the lock of the directory.
unfoldable pub lock : LockAnswers → Bool → Outcome Exception (Unit {0})
lock answers held = do
  throw_if (not answers.opens) system_error
  throw_if answers.lock_fails system_error
  throw_if held database_busy_error

pub record DatabaseOptions : Type 0 where
  pub durability : Durability
  pub memtable_flush_threshold_samples : ℕ

-- The files of a directory and whether a database holds its lock.
pub record Disk : Type 0 where
  pub directory : Directory
  pub wal : Option Bytes
  pub held : Bool

-- The members of `Impl`, with the state of the lock afterwards: where the engine throws, the lock is
-- released. The files that recovery leaves are those of the engine.
unfoldable pub make_impl :
    LockAnswers → OpenAnswers → Disk → DatabaseOptions → Option (Bool × Outcome Exception Impl)
unfolding lock to_internal_durability
make_impl answers opens disk options = elim (lock answers disk.held) [
  | throw e ↦ some (disk.held, throw e)
  | ok _ ↦
      elim (open_engine opens disk.directory disk.wal (to_internal_durability options.durability)) [
        | none ↦ none
        | some (throw e) ↦ some (false, throw e)
        | some (ok engine) ↦ some (
          true,
          ok (record {
            engine = engine;
            flush_threshold_samples = options.memtable_flush_threshold_samples;
          }),
        )
      ]
]

-- The constructor of `Database`. `none` only where the replay runs out of fuel.
unfoldable pub open_database :
    PathAnswers
    → LockAnswers
    → OpenAnswers
    → Disk
    → Bytes
    → DatabaseOptions
    → Option (Bool × Outcome Exception Impl)
unfolding prepare_database_directory make_impl translate_corruption
open_database paths locks opens disk directory options =
    elim (prepare_database_directory paths directory) [
      | throw e ↦ some (disk.held, throw e)
      | ok _ ↦ elim (make_impl locks opens disk options) [
        | none ↦ none
        | some (held, answer) ↦ some (held, translate_corruption answer)
      ]
    ]
