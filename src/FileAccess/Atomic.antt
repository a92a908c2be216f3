-- ===== src/FileAccess/Atomic.antt =====
-- The ends of `atomic_write_file` of src/file_io.cpp, in terms of those that StorageEngine takes as
-- a parameter.
use chronostore.Common.{
  ◌≡◌, refl, Bool, true, false, Option, none, some, List, [], ◌∷◌, Outcome, ℕ, ◌-◌, ◌^◌, length,
  take, ltb, ok, throw,
}
use chronostore.Errors.{Exception, runtime_error, system_error}
use chronostore.Model.{Bytes}
use chronostore.FileAccess.{
  CallAnswer, succeeds, interrupted, fails, retry, close_descriptor, and_then, SyncCalls, sync_file,
  WriteCalls, Target, replace_file, publish, with_temporary, atomic_write_file,
}
use chronostore.StorageEngine.{AtomicWrite, written, failed_before_rename, failed_after_rename}

-- A call of the loop is answered otherwise than by `EINTR`.
unfoldable pub is_answered : List CallAnswer → Bool
is_answered [] = false
is_answered (succeeds ∷ answers) = true
is_answered (interrupted ∷ answers) = is_answered answers
is_answered (fails ∷ answers) = true

pub record IsAnswered (calls : SyncCalls) : Type 0 where
  pub opens_answered : is_answered calls.opens ≡ true
  pub syncs_answered : is_answered calls.syncs ≡ true

abbrev Ended : Type 0
Ended = Target × Outcome Exception (Unit {0})

-- What the two files hold and what the call answers, at each of the three ends.
unfoldable pub IsEnd : AtomicWrite → Option Bytes → Bytes → Ended → Type 0
IsEnd written before bytes (files, answer) =
    (files.final ≡ some bytes) × (files.temporary ≡ none) × (answer ≡ ok tt)
IsEnd (failed_before_rename exception temporary) before bytes (files, answer) =
    (files.final ≡ before) × (files.temporary ≡ temporary) × (answer ≡ throw exception)
IsEnd (failed_after_rename exception) before bytes (files, answer) =
    (files.final ≡ some bytes) × (files.temporary ≡ none) × (answer ≡ throw exception)

abbrev Answered : Option (Outcome Exception (Unit {0})) → Type 0
Answered result = (answer : Outcome Exception (Unit {0})) × (result ≡ some answer)

retry_ends : (answers : List CallAnswer) → is_answered answers ≡ true → Answered (retry answers)
unfolding is_answered retry
retry_ends [] h = cc
retry_ends (succeeds ∷ answers) h = (ok tt, refl)
retry_ends (interrupted ∷ answers) h = retry_ends answers h
retry_ends (fails ∷ answers) h = (throw system_error, refl)

and_then_ends :
    (first next : Option (Outcome Exception (Unit {0})))
    → Answered first
    → Answered next
    → Answered (and_then first next)
unfolding and_then
and_then_ends none next (answer, h) ends = cc
and_then_ends (some (throw e)) next first ends = (throw e, refl)
and_then_ends (some (ok u)) next first ends = ends

sync_file_ends : (calls : SyncCalls) → IsAnswered calls → Answered (sync_file calls)
unfolding sync_file
sync_file_ends calls a = and_then_ends _ _ (retry_ends calls.opens a.opens_answered) (
    and_then_ends _ _ (retry_ends calls.syncs a.syncs_answered)
      (close_descriptor calls.closes, refl))

abbrev IsAtomic : Option Ended → Option Bytes → Bytes → Type 0
IsAtomic result before bytes =
    (ended : Ended) × (result ≡ some ended) × (end : AtomicWrite) × IsEnd end before bytes ended

replace_file-IsAtomic :
    (calls : WriteCalls) (files : Target) (bytes : Bytes)
    → files.temporary ≡ some bytes
    → IsAnswered calls.parent_sync
    → IsAtomic (replace_file calls files) files.final bytes
unfolding replace_file IsEnd
replace_file-IsAtomic calls files bytes h a = by_rename calls.rename_succeeds refl
  where
    at_end :
        (answer : Outcome Exception (Unit {0}))
        → (end : AtomicWrite) × IsEnd end files.final bytes
            (record { final = files.temporary; temporary = none }, answer)
    at_end (ok u) = (written, (h, refl, refl))
    at_end (throw e) = (failed_after_rename e, (h, refl, refl))

    by_rename :
        (renamed : Bool)
        → calls.rename_succeeds ≡ renamed
        → IsAtomic (replace_file calls files) files.final bytes
    by_rename false e = (
      (files, throw system_error),
      rw (replace_file, e) refl,
      failed_before_rename system_error _,
      (refl, refl, refl),
    )
    by_rename true e =
        let (answer, synced) = sync_file_ends calls.parent_sync a in
        let (end, is_end) = at_end answer in
        (
          (record { final = files.temporary; temporary = none }, answer),
          rw (replace_file, e, synced) refl,
          end,
          is_end,
        )

publish-IsAtomic :
    (calls : WriteCalls) (files : Target) (bytes : Bytes)
    → files.temporary ≡ some bytes
    → IsAnswered calls.temporary_sync
    → IsAnswered calls.parent_sync
    → IsAtomic (publish calls files) files.final bytes
unfolding publish IsEnd
publish-IsAtomic calls files bytes h a b =
    let (answer, synced) = sync_file_ends calls.temporary_sync a in by_answer answer synced
  where
    by_answer :
        (answer : Outcome Exception (Unit {0}))
        → sync_file calls.temporary_sync ≡ some answer
        → IsAtomic (publish calls files) files.final bytes
    by_answer (throw e) synced =
        ((files, throw e), rw (publish, synced) refl, failed_before_rename e _, (refl, refl, refl))
    by_answer (ok u) synced = rw (publish, synced) (replace_file-IsAtomic calls files bytes h b)

-- Where the loops are answered, the atomic write ends, and in one of three ways: it returns, the file
-- has the new bytes and no temporary file is left; it throws and the file is as it was, or missing
-- as it was; or it throws, the file has the new bytes and no temporary file is left. No other
-- content is left under the file's name.
pub atomic_write_file-IsAtomic :
    (calls : WriteCalls) (files : Target) (bytes : Bytes)
    → IsAnswered calls.temporary_sync
    → IsAnswered calls.parent_sync
    → (ended : Target × Outcome Exception (Unit {0})) × (atomic_write_file calls files bytes
        ≡ some ended)
      × (end : AtomicWrite) × IsEnd end files.final bytes ended
unfolding atomic_write_file IsEnd
atomic_write_file-IsAtomic calls files bytes a b =
    by_calls calls.temporary_opens (ltb (2 ^ 63 - 1) (length bytes)) calls.written_before_failure
      refl refl refl
  where
    by_calls :
        (opened large : Bool) (n : Option ℕ)
        → calls.temporary_opens ≡ opened
        → ltb (2 ^ 63 - 1) (length bytes) ≡ large
        → calls.written_before_failure ≡ n
        → IsAtomic (atomic_write_file calls files bytes) files.final bytes
    by_calls false large n opens size failure = (
      (files, throw runtime_error),
      rw (atomic_write_file, opens) refl,
      failed_before_rename runtime_error _,
      (refl, refl, refl),
    )
    by_calls true true n opens size failure = (
      (with_temporary files [], throw runtime_error),
      rw (atomic_write_file, opens, size) refl,
      failed_before_rename runtime_error _,
      (refl, refl, refl),
    )
    by_calls true false (some k) opens size failure = (
      (with_temporary files (take k bytes), throw runtime_error),
      rw (atomic_write_file, opens, size, failure) refl,
      failed_before_rename runtime_error _,
      (refl, refl, refl),
    )
    by_calls true false none opens size failure =
        rw (atomic_write_file, opens, size, failure)
          (publish-IsAtomic calls (with_temporary files bytes) bytes refl a b)
