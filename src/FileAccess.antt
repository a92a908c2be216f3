-- ===== src/FileAccess.antt =====
-- src/file_io.cpp on a POSIX system: `atomic_write_file` with the functions that it calls, on the
-- file that it replaces and the temporary file beside it. What the system answers to each call is a
-- parameter; where the answers to a loop end before the loop does, so does the model, with `none`.
pub mod Atomic
use chronostore.Common.{
  ℕ, ◌-◌, ◌^◌, Bool, true, false, Option, none, some, List, [], ◌∷◌, length, take, ltb, Outcome, ok,
  throw,
}
use chronostore.Errors.{Exception, runtime_error, system_error}
use chronostore.Model.{Bytes}

-- A call succeeds, or fails with `EINTR`, or with another error.
pub data CallAnswer : Type 0 where
  succeeds interrupted fails : CallAnswer

-- The loops of `open_for_sync` and of the two synchronizations, with the throw after an error.
unfoldable pub retry : List CallAnswer → Option (Outcome Exception (Unit {0}))
retry [] = none
retry (succeeds ∷ answers) = some (ok tt)
retry (interrupted ∷ answers) = retry answers
retry (fails ∷ answers) = some (throw system_error)

-- An interrupted close is not repeated.
unfoldable pub close_descriptor : CallAnswer → Outcome Exception (Unit {0})
close_descriptor succeeds = ok tt
close_descriptor interrupted = ok tt
close_descriptor fails = throw system_error

unfoldable pub and_then :
    Option (Outcome Exception (Unit {0}))
    → Option (Outcome Exception (Unit {0}))
    → Option (Outcome Exception (Unit {0}))
and_then none next = none
and_then (some (throw e)) next = some (throw e)
and_then (some (ok _)) next = next

-- The answers while a file or a directory is synchronized.
pub record SyncCalls : Type 0 where
  pub opens : List CallAnswer
  pub syncs : List CallAnswer
  pub closes : CallAnswer

-- It changes no content.
unfoldable pub sync_file : SyncCalls → Option (Outcome Exception (Unit {0}))
unfolding retry close_descriptor and_then
sync_file calls =
    and_then (retry calls.opens)
      (and_then (retry calls.syncs) (some (close_descriptor calls.closes)))

-- `written_before_failure` counts the bytes in the file where the stream fails, in a write, the
-- flush or the close.
pub record WriteCalls : Type 0 where
  pub temporary_opens : Bool
  pub written_before_failure : Option ℕ
  pub temporary_sync : SyncCalls
  pub rename_succeeds : Bool
  pub parent_sync : SyncCalls

-- The contents of the two files, if they exist.
pub record Target : Type 0 where
  pub final : Option Bytes
  pub temporary : Option Bytes

unfoldable pub replace_file : WriteCalls → Target → Option (Target × Outcome Exception (Unit {0}))
unfolding sync_file
replace_file calls files = elim calls.rename_succeeds [
  | false ↦ some (files, throw system_error)
  | true ↦ elim (sync_file calls.parent_sync) [
    | none ↦ none
    | some answer ↦ some (record { final = files.temporary; temporary = none }, answer)
  ]
]

-- The two statements behind the block of the stream.
unfoldable pub publish : WriteCalls → Target → Option (Target × Outcome Exception (Unit {0}))
unfolding sync_file replace_file
publish calls files = elim (sync_file calls.temporary_sync) [
  | none ↦ none
  | some (throw e) ↦ some (files, throw e)
  | some (ok _) ↦ replace_file calls files
]

abbrev pub with_temporary : Target → Bytes → Target
with_temporary files bytes = record { final = files.final; temporary = some bytes }

unfoldable pub atomic_write_file :
    WriteCalls → Target → Bytes → Option (Target × Outcome Exception (Unit {0}))
unfolding publish
atomic_write_file calls files bytes = elim calls.temporary_opens [
  | false ↦ some (files, throw runtime_error)
  | true ↦ elim (ltb (2 ^ 63 - 1) (length bytes)) [
    | true ↦ some (with_temporary files [], throw runtime_error)
    | false ↦ elim calls.written_before_failure [
      | some written ↦ some (with_temporary files (take written bytes), throw runtime_error)
      | none ↦ publish calls (with_temporary files bytes)
    ]
  ]
]
