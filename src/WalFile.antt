-- ===== src/WalFile.antt =====
-- src/wal_file.cpp: the writer of the write-ahead log. What the operating system answers is a
-- parameter of each operation: how many bytes a `write_all` that throws has written before and what
-- it throws, and whether `fsync` and `ftruncate` succeed.
pub mod Laws
pub mod Loops
pub mod Outcomes
pub mod WriteAll
use chronostore.Common.{
  ℕ, ◌+◌, ◌-◌, ◌%◌, ◌^◌, Bool, true, false, Option, none, some, [], ◌++◌, length, take, ltb, not,
  Outcome, ok, throw, throw_if, ◌>>=◌, ◌>>◌,
}
use chronostore.Errors.{Exception, length_error, logic_error, runtime_error, system_error}
use chronostore.Model.{Bytes}
use chronostore.WalRecord.{WalPutRecord, encode_wal_record}

pub data WalDurability : Type 0 where
  buffered sync_on_append : WalDurability

-- The answers of the system calls during one operation.
pub record SystemCalls : Type 0 where
  pub write_failure : Option (ℕ × Exception)
  pub sync_succeeds : Bool
  pub truncate_succeeds : Bool

abbrev pub calls_fine : SystemCalls
calls_fine = record { write_failure = none; sync_succeeds = true; truncate_succeeds = true }

-- `file` is the content of the file behind the descriptor.
pub record WalWriter : Type 0 where
  pub file : Bytes
  pub size_bytes : ℕ
  pub durability : WalDurability
  pub is_open : Bool
  pub failed : Bool

-- The answers of the system calls of the constructor.
pub record OpenCalls : Type 0 where
  pub opens : Bool
  pub finds_end : Bool

abbrev pub opens_fine : OpenCalls
opens_fine = record { opens = true; finds_end = true }

-- The writer on the content that `O_APPEND` finds.
abbrev pub opened_wal : Bytes → WalDurability → WalWriter
opened_wal file durability = record {
  file = file;
  size_bytes = length file;
  durability = durability;
  is_open = true;
  failed = false;
}

-- The constructor.
unfoldable pub open_wal : OpenCalls → Bytes → WalDurability → Outcome Exception WalWriter
open_wal calls file durability = do
  throw_if (not calls.opens) system_error
  throw_if (not calls.finds_end) system_error
  ok (opened_wal file durability)

unfoldable pub ensure_usable : WalWriter → Outcome Exception (Unit {0})
ensure_usable w = elim w.is_open [
  | false ↦ throw logic_error
  | true ↦ elim w.failed [ true ↦ throw runtime_error | false ↦ ok tt ]
]

abbrev pub set_failed : WalWriter → WalWriter
set_failed w = record {
  file = w.file;
  size_bytes = w.size_bytes;
  durability = w.durability;
  is_open = w.is_open;
  failed = true;
}

unfoldable pub sync : SystemCalls → WalWriter → WalWriter × Outcome Exception (Unit {0})
unfolding ensure_usable
sync calls w = elim (ensure_usable w) [
  | throw e ↦ (w, throw e)
  | ok _ ↦ elim calls.sync_succeeds [
    | true ↦ (w, ok tt)
    | false ↦ (set_failed w, throw system_error)
  ]
]

-- `write_all` with the growth of `size_bytes_`, and `sync` where the durability asks for it.
unfoldable pub write_record :
    SystemCalls → WalWriter → Bytes → WalWriter × Outcome Exception (Unit {0})
unfolding sync
write_record calls w encoded = elim calls.write_failure [
  | some (written, exception) ↦ (
    record {
      file = w.file ++ take written encoded;
      size_bytes = w.size_bytes;
      durability = w.durability;
      is_open = w.is_open;
      failed = true;
    },
    throw exception,
  )
  | none ↦
      let grown : WalWriter = record {
        file = w.file ++ encoded;
        size_bytes = (w.size_bytes + length encoded) % 2 ^ 64;
        durability = w.durability;
        is_open = w.is_open;
        failed = w.failed;
      } in
      elim w.durability [ buffered ↦ (grown, ok tt) | sync_on_append ↦ sync calls grown ]
]

unfoldable pub append :
    SystemCalls → WalWriter → WalPutRecord → WalWriter × Outcome Exception (Unit {0})
unfolding ensure_usable write_record
append calls w r = elim (ensure_usable w) [
  | throw e ↦ (w, throw e)
  | ok _ ↦ elim (encode_wal_record r) [
    | throw e ↦ (w, throw e)
    | ok encoded ↦ elim (ltb (2 ^ 64 - 1 - w.size_bytes) (length encoded)) [
      | true ↦ (w, throw length_error)
      | false ↦ write_record calls w encoded
    ]
  ]
]

abbrev truncated : WalWriter → ℕ → Bool → WalWriter
truncated w size_bytes failed = record {
  file = [];
  size_bytes = size_bytes;
  durability = w.durability;
  is_open = w.is_open;
  failed = failed;
}

-- The truncation comes first, and a failure of the synchronization leaves the file empty.
unfoldable pub reset : SystemCalls → WalWriter → WalWriter × Outcome Exception (Unit {0})
unfolding ensure_usable
reset calls w = elim (ensure_usable w) [
  | throw e ↦ (w, throw e)
  | ok _ ↦ elim calls.truncate_succeeds [
    | false ↦ (set_failed w, throw system_error)
    | true ↦ elim calls.sync_succeeds [
      | true ↦ (truncated w 0 w.failed, ok tt)
      | false ↦ (truncated w w.size_bytes true, throw system_error)
    ]
  ]
]

unfoldable pub close : WalWriter → WalWriter
close w = record {
  file = w.file;
  size_bytes = w.size_bytes;
  durability = w.durability;
  is_open = false;
  failed = w.failed;
}
