-- ===== src/WalFile/Laws.antt =====
-- The size and the file of the writer of src/wal_file.cpp.
use chronostore.Common.{
  ◌+◌, ◌-◌, ◌^◌, ◌<◌, ◌≤◌, ◌≡◌, refl, arith, false, ◌++◌, length, length-append, ltb→le, Outcome,
  ok, throw,
}
use native.Mathlib.Nat.{mod-eq_of_lt}
use chronostore.Errors.{Exception}
use chronostore.Model.{Bytes}
use chronostore.WalRecord.{WalPutRecord, encode_wal_record}
use chronostore.WalFile.{WalWriter, SystemCalls, append, sync, write_record, ensure_usable}

-- A usable writer reports the size of its file, which fits 64 bits.
pub record IsValid (w : WalWriter) : Type 0 where
  pub size_known : w.failed ≡ false → w.size_bytes ≡ length w.file
  pub size_fits : w.size_bytes < 2 ^ 64

write_record-IsValid :
    (calls : SystemCalls) (w : WalWriter) (encoded : Bytes)
    → IsValid w
    → length encoded ≤ 2 ^ 64 - 1 - w.size_bytes
    → IsValid (write_record calls w encoded).0
unfolding write_record sync ensure_usable
write_record-IsValid calls w encoded v h =
    let fits : w.size_bytes + length encoded < 2 ^ 64 = omega (arith, v.size_fits) in
    let exact = mod-eq_of_lt fits in
    let added = length-append w.file encoded in
    record {
      size_known = ground (arith, exact, added, v.size_known, v.size_fits);
      size_fits = ground (arith, exact, added, v.size_known, v.size_fits);
    }

-- `append` keeps the size that the writer reports equal to the size of the file, whatever the
-- system answers and whether it throws or not, as long as the writer is usable.
pub append-IsValid :
    (calls : SystemCalls) (w : WalWriter) (r : WalPutRecord)
    → IsValid w
    → IsValid (append calls w r).0
unfolding append ensure_usable
append-IsValid calls w r v = by_encoding (encode_wal_record r) refl
  where
    by_encoding :
        (encoding : Outcome Exception Bytes)
        → encode_wal_record r ≡ encoding
        → IsValid (append calls w r).0
    by_encoding (throw exception) e = ground arith
    by_encoding (ok encoded) e = ground (
      arith,
      write_record-IsValid calls w encoded v,
      ltb→le (2 ^ 64 - 1 - w.size_bytes) (length encoded),
    )

-- An `append` that returns has added exactly the encoded record at the end of the file.
pub append-file :
    (calls : SystemCalls) (w : WalWriter) (r : WalPutRecord)
    → (append calls w r).1 ≡ ok tt
    → (encoded : Bytes) × (encode_wal_record r ≡ ok encoded)
      × ((append calls w r).0.file ≡ w.file ++ encoded)
      × ((append calls w r).0.failed ≡ false)
unfolding append write_record sync ensure_usable
append-file calls w r h = by_encoding (encode_wal_record r) refl
  where
    by_encoding :
        (encoding : Outcome Exception Bytes)
        → encode_wal_record r ≡ encoding
        → (encoded : Bytes) × (encode_wal_record r ≡ ok encoded)
          × ((append calls w r).0.file ≡ w.file ++ encoded)
          × ((append calls w r).0.failed ≡ false)
    by_encoding (throw exception) e = ground arith
    by_encoding (ok encoded) e = (encoded, e, ground arith, ground arith)
