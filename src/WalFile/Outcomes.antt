-- ===== src/WalFile/Outcomes.antt =====
-- The ways in which the operations of the writer of src/wal_file.cpp end.
use chronostore.Common.{
  ℕ, ◌+◌, ◌-◌, ◌%◌, ◌^◌, ◌<◌, ◌≡◌, ◌⊎◌, inl, inr, refl, arith, none, [], ◌++◌, length, take,
  take_all, ltb, ltb→le, Option-cases, Bool-cases, Outcome, ok, throw,
}
use native.Mathlib.Nat.{mod-eq_of_lt}
use chronostore.Errors.{Exception, length_error, system_error}
use chronostore.Model.{Bytes}
use chronostore.WalRecord.{WalPutRecord, encode_wal_record}
use chronostore.WalFile.{
  WalWriter, WalDurability, buffered, sync_on_append, SystemCalls, append, sync, reset,
  write_record, ensure_usable,
}

abbrev Answer : Type 0
Answer = WalWriter × Outcome Exception (Unit {0})

-- The operation throws, and the writer is as before.
abbrev pub IsRefused : WalWriter → Answer → Type 0
IsRefused w answer = (x : Exception) × (answer ≡ (w, throw x))

-- It throws, and a part of the bytes, perhaps nothing or all, is at the end of the file.
abbrev pub IsPartial : WalWriter → Bytes → Answer → Type 0
IsPartial w encoded answer =
    (n : ℕ) × (x : Exception) × (answer.0.file ≡ w.file ++ take n encoded) × (answer.1 ≡ throw x)

abbrev pub with_file : WalWriter → Bytes → WalWriter
with_file w encoded = record {
  file = w.file ++ encoded;
  size_bytes = w.size_bytes + length encoded;
  durability = w.durability;
  is_open = w.is_open;
  failed = w.failed;
}

-- It returns, and all the bytes are at the end of the file.
abbrev pub IsAppended : WalWriter → Bytes → Answer → Type 0
IsAppended w encoded answer = answer ≡ (with_file w encoded, ok tt)

-- `sync` returns and changes nothing, or throws and leaves the file as it is.
pub sync_outcome :
    (calls : SystemCalls) (w : WalWriter)
    → (sync calls w ≡ (w, ok tt))
      ⊎ (x : Exception) × ((sync calls w).0.file ≡ w.file) × ((sync calls w).1 ≡ throw x)
unfolding sync
sync_outcome calls w = by_state (ensure_usable w) refl
  where
    by_state :
        (state : Outcome Exception (Unit {0}))
        → ensure_usable w ≡ state
        → (sync calls w ≡ (w, ok tt))
          ⊎ (x : Exception) × ((sync calls w).0.file ≡ w.file) × ((sync calls w).1 ≡ throw x)
    by_state (throw x) e = inr (x, ground arith, ground arith)
    by_state (ok u) e = elim (Bool-cases calls.sync_succeeds) [
      | inl synced ↦ inl (ground arith)
      | inr unsynced ↦ inr (system_error, ground arith, ground arith)
    ]

durability_cases : (d : WalDurability) → (d ≡ buffered) ⊎ (d ≡ sync_on_append)
durability_cases buffered = inl refl
durability_cases sync_on_append = inr refl

write_record_outcome :
    (calls : SystemCalls) (w : WalWriter) (encoded : Bytes)
    → w.size_bytes + length encoded < 2 ^ 64
    → IsPartial w encoded (write_record calls w encoded)
      ⊎ IsAppended w encoded (write_record calls w encoded)
unfolding write_record
write_record_outcome calls w encoded fits =
    let exact = mod-eq_of_lt fits in
    elim (Option-cases calls.write_failure) [
      | inr ((n, x), torn) ↦ inl (n, x, ground arith, ground arith)
      | inl whole ↦ by_durability whole exact (sync_outcome calls (with_file w encoded))
    ]
  where
    by_durability :
        calls.write_failure ≡ none
        → (w.size_bytes + length encoded) % 2 ^ 64 ≡ w.size_bytes + length encoded
        → (sync calls (with_file w encoded) ≡ (with_file w encoded, ok tt))
          ⊎ (x : Exception) × ((sync calls (with_file w encoded)).0.file ≡ w.file ++ encoded)
            × ((sync calls (with_file w encoded)).1 ≡ throw x)
        → IsPartial w encoded (write_record calls w encoded)
          ⊎ IsAppended w encoded (write_record calls w encoded)
    by_durability whole exact (inl synced) = inr (ground (arith, exact, synced))
    by_durability whole exact (inr (x, file, thrown)) = elim (durability_cases w.durability) [
      | inl lazy ↦ inr (ground (arith, exact))
      | inr eager ↦
          inl (length encoded, x, ground (arith, take_all encoded, exact), ground (arith, exact))
    ]

-- `append` throws before it writes, or the record is encoded and its frame fits: then it throws with
-- a part of the frame at the end of the file, or returns with the whole frame there.
pub append_outcome :
    (calls : SystemCalls) (w : WalWriter) (r : WalPutRecord)
    → w.size_bytes < 2 ^ 64
    → IsRefused w (append calls w r)
      ⊎ (encoded : Bytes) × (encode_wal_record r ≡ ok encoded)
        × (w.size_bytes + length encoded < 2 ^ 64)
        × (IsPartial w encoded (append calls w r) ⊎ IsAppended w encoded (append calls w r))
unfolding append
append_outcome calls w r b = by_state (ensure_usable w) refl (encode_wal_record r) refl
  where
    by_state :
        (state : Outcome Exception (Unit {0}))
        → ensure_usable w ≡ state
        → (encoding : Outcome Exception Bytes) → encode_wal_record r ≡ encoding
        → IsRefused w (append calls w r)
          ⊎ (encoded : Bytes) × (encode_wal_record r ≡ ok encoded)
            × (w.size_bytes + length encoded < 2 ^ 64)
            × (IsPartial w encoded (append calls w r) ⊎ IsAppended w encoded (append calls w r))
    by_state (throw x) e encoding f = inl (x, ground arith)
    by_state (ok u) e (throw x) f = inl (x, ground arith)
    by_state (ok u) e (ok encoded) f =
        elim (Bool-cases (ltb (2 ^ 64 - 1 - w.size_bytes) (length encoded))) [
          | inl long ↦ inl (length_error, ground arith)
          | inr short ↦
              let fits : w.size_bytes + length encoded < 2 ^ 64 =
                omega (arith, ltb→le (2 ^ 64 - 1 - w.size_bytes) (length encoded) short) in
              let same : append calls w r ≡ write_record calls w encoded = ground arith in
              inr (encoded, f, fits, rw same (write_record_outcome calls w encoded fits))
        ]

-- The writer after a reset.
abbrev pub emptied : WalWriter → WalWriter
emptied w = record {
  file = [];
  size_bytes = 0;
  durability = w.durability;
  is_open = w.is_open;
  failed = w.failed;
}

-- `reset` returns with an empty file, or throws with the file as it was or empty.
pub reset_outcome :
    (calls : SystemCalls) (w : WalWriter)
    → (reset calls w ≡ (emptied w, ok tt))
      ⊎ (x : Exception) × ((reset calls w).1 ≡ throw x)
        × (((reset calls w).0.file ≡ w.file) ⊎ ((reset calls w).0.file ≡ []))
unfolding reset
reset_outcome calls w = by_state (ensure_usable w) refl
  where
    by_state :
        (state : Outcome Exception (Unit {0}))
        → ensure_usable w ≡ state
        → (reset calls w ≡ (emptied w, ok tt))
          ⊎ (x : Exception) × ((reset calls w).1 ≡ throw x)
            × (((reset calls w).0.file ≡ w.file) ⊎ ((reset calls w).0.file ≡ []))
    by_state (throw x) e = inr (x, ground arith, inl (ground arith))
    by_state (ok u) e = elim (Bool-cases calls.truncate_succeeds) [
      | inr kept ↦ inr (system_error, ground arith, inl (ground arith))
      | inl cut ↦ elim (Bool-cases calls.sync_succeeds) [
        | inl synced ↦ inl (ground arith)
        | inr unsynced ↦ inr (system_error, ground arith, inr (ground arith))
      ]
    ]
