-- ===== src/WalFile/Loops.antt =====
-- src/wal_file.cpp: the loops around the system calls of a POSIX system. Where the answers of the
-- system end before the loop does, so does the model, with `none`.
use chronostore.Common.{
  ℕ, zero, suc, ◌+◌, Bool, true, false, Option, none, some, List, [], ◌∷◌, ◌++◌, length, take, drop,
  ltb, if◌then◌else◌, Outcome, ok, throw,
}
use chronostore.Errors.{Exception, runtime_error, system_error}
use chronostore.Model.{Bytes}
use chronostore.FileAccess.{CallAnswer, succeeds, interrupted, fails}

-- What `::write` returns: the number of bytes that it has written, or -1 with `EINTR`, or -1 with
-- another error.
pub data WriteAnswer : Type 0 where
  wrote : ℕ → WriteAnswer
  interrupted_write failed_write : WriteAnswer

-- The loop from `total_written` on, with the content of the file.
unfoldable pub write_from :
    List WriteAnswer → Bytes → Bytes → ℕ → Option (Bytes × Outcome Exception (Unit {0}))
write_from [] file bytes total_written =
    if ltb total_written (length bytes) then none else some (file, ok tt)
write_from (interrupted_write ∷ answers) file bytes total_written =
    let again = write_from answers file bytes total_written in
    if ltb total_written (length bytes) then again else some (file, ok tt)
write_from (failed_write ∷ answers) file bytes total_written =
    if ltb total_written (length bytes) then some (file, throw system_error) else some (file, ok tt)
write_from (wrote zero ∷ answers) file bytes total_written =
    if ltb total_written (length bytes)
    then some (file, throw runtime_error)
    else some (file, ok tt)
write_from (wrote (suc n) ∷ answers) file bytes total_written =
    let rest =
      write_from answers (file ++ take (suc n) (drop total_written bytes)) bytes
        (total_written + suc n) in
    if ltb total_written (length bytes) then rest else some (file, ok tt)

unfoldable pub write_all :
    List WriteAnswer → Bytes → Bytes → Option (Bytes × Outcome Exception (Unit {0}))
unfolding write_from
write_all answers file bytes = write_from answers file bytes 0

-- Whether `fsync` succeeds in the end.
unfoldable pub synchronize_file : List CallAnswer → Option Bool
synchronize_file [] = none
synchronize_file (interrupted ∷ answers) = synchronize_file answers
synchronize_file (succeeds ∷ answers) = some true
synchronize_file (fails ∷ answers) = some false

-- The file after `ftruncate`, and whether it succeeds in the end.
unfoldable pub truncate_file : List CallAnswer → Bytes → Option (Bytes × Bool)
truncate_file [] file = none
truncate_file (interrupted ∷ answers) file = truncate_file answers file
truncate_file (succeeds ∷ answers) file = some ([], true)
truncate_file (fails ∷ answers) file = some (file, false)
