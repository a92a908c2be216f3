-- ===== src/WalFile/WriteAll.antt =====
-- The loop of `write_all` of src/wal_file.cpp.
use chronostore.Common.{
  ℕ, zero, suc, ◌+◌, ◌<◌, ◌≤◌, ◌≡◌, ◌⊎◌, inl, inr, refl, ap, arith, append_assoc, append-nil,
  take_add, take_beyond, ltb→lt, ltb→le, if◌then◌else◌, Option, none, some, List, [], ◌∷◌, ◌++◌,
  length, take, ltb, Bool-cases, Outcome, ok, throw,
}
use chronostore.Errors.{Exception, runtime_error, system_error}
use chronostore.Model.{Bytes}
use chronostore.WalFile.Loops.{
  WriteAnswer, wrote, interrupted_write, failed_write, write_from, write_all,
}

-- The calls that are not interrupted.
unfoldable pub completed : List WriteAnswer → ℕ
completed [] = 0
completed (interrupted_write ∷ answers) = completed answers
completed (failed_write ∷ answers) = suc (completed answers)
completed (wrote n ∷ answers) = suc (completed answers)

abbrev Ended : Type 0
Ended = Bytes × Outcome Exception (Unit {0})

-- It returns with all the bytes behind the file, or throws with fewer of them there.
abbrev pub IsWrittenTo : Bytes → Bytes → Ended → Type 0
IsWrittenTo file bytes ended =
    (ended.0 ≡ file ++ bytes) × (ended.1 ≡ ok tt)
    ⊎ (n : ℕ) × (x : Exception) × (n < length bytes)
      × (ended.0 ≡ file ++ take n bytes)
      × (ended.1 ≡ throw x)

abbrev IsEnding : Option Ended → Bytes → Bytes → Type 0
IsEnding result file bytes = (ended : Ended) × (result ≡ some ended) × IsWrittenTo file bytes ended

-- All the bytes have been written.
done :
    (file bytes : Bytes) (total_written : ℕ)
    → length bytes ≤ total_written
    → IsEnding (some (file ++ take total_written bytes, ok tt)) file bytes
done file bytes total_written h =
    (_, refl, inl (ap (λ rest. file ++ rest) (take_beyond total_written bytes h), refl))

stopped :
    (file bytes : Bytes) (total_written : ℕ) (x : Exception)
    → total_written < length bytes
    → IsEnding (some (file ++ take total_written bytes, throw x)) file bytes
stopped file bytes total_written x h = (_, refl, inr (total_written, x, h, refl, refl))

-- The test of the loop.
at_test :
    (file bytes : Bytes) (total_written : ℕ) (more : Option Ended)
    → (total_written < length bytes → IsEnding more file bytes)
    → IsEnding
        (if ltb total_written (length bytes)
          then more
          else some (file ++ take total_written bytes, ok tt))
        file
        bytes
at_test file bytes total_written more h = elim (Bool-cases (ltb total_written (length bytes))) [
  | inl left ↦ rw left (h (ltb→lt _ _ left))
  | inr finished ↦ rw finished (done file bytes total_written (ltb→le _ _ finished))
]

write_from_ends :
    (answers : List WriteAnswer) (file bytes : Bytes) (total_written : ℕ)
    → length bytes ≤ total_written + completed answers
    → IsEnding
        (write_from answers (file ++ take total_written bytes) bytes total_written)
        file
        bytes
unfolding write_from completed
write_from_ends [] file bytes total_written enough =
    at_test file bytes total_written none λ left. absurd (omega (arith, enough, left))
write_from_ends (interrupted_write ∷ answers) file bytes total_written enough =
    at_test file bytes total_written _
      λ left. write_from_ends answers file bytes total_written enough
write_from_ends (failed_write ∷ answers) file bytes total_written enough =
    at_test file bytes total_written _ λ left. stopped file bytes total_written system_error left
write_from_ends (wrote zero ∷ answers) file bytes total_written enough =
    at_test file bytes total_written _ λ left. stopped file bytes total_written runtime_error left
write_from_ends (wrote (suc n) ∷ answers) file bytes total_written enough =
    at_test file bytes total_written _ λ left.
      rw (append_assoc file (take total_written bytes) _, take_add total_written (suc n) bytes)
        (write_from_ends answers file bytes (total_written + suc n) (omega (arith, enough)))

-- Where at least as many answers as there are bytes come from calls that are not interrupted, the
-- loop ends: it returns with all the bytes at the end of the file, or throws with fewer of them
-- there, from the first on.
pub write_all_ends :
    (answers : List WriteAnswer) (file bytes : Bytes)
    → length bytes ≤ completed answers
    → (ended : Bytes × Outcome Exception (Unit {0})) × (write_all answers file bytes ≡ some ended)
      × IsWrittenTo file bytes ended
unfolding write_all
write_all_ends answers file bytes enough =
    let more : length bytes ≤ 0 + completed answers = omega (arith, enough) in
    let ending : IsEnding (write_from answers (file ++ []) bytes 0) file bytes =
      write_from_ends answers file bytes 0 more in
    rw (append-nil file) at ending
