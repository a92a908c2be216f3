-- ===== src/WalRecovery.antt =====
-- src/wal_recovery.cpp: the replay of a write-ahead log, chunk by chunk, and the repair of its tail.
-- The file is its bytes; `input` holds those that have not been read yet. A read of the file
-- succeeds. The callback is a function on a state of the caller, which may throw.
pub mod Slices
pub mod Round
pub mod Records
pub mod Written
pub mod Terminates
use chronostore.Common.{
  ℕ, zero, suc, ◌+◌, ◌-◌, ◌*◌, ◌%◌, ◌^◌, Bool, true, false, not, ◌||◌, Option, none, some, [], ◌++◌,
  length, take, drop, ltb, ◌==◌, ◌!=◌, if◌then◌else◌, Outcome, ok, throw, throw_if, ◌>>=◌, ◌>>◌,
}
use chronostore.Errors.{
  Exception, overflow_error, logic_error, runtime_error, system_error, wal_format_error,
  WalDecodeError,
}
use chronostore.Model.{Bytes}
use chronostore.WalFile
use chronostore.WalFile.{WalDurability, OpenCalls, SystemCalls, open_wal, opens_fine, calls_fine}
use chronostore.WalRecord.{WalPutRecord, WalDecodeResult, decode_wal_record}

abbrev pub read_chunk_size : ℕ
read_chunk_size = 64 * 1024

pub record WalReplayResult : Type 0 where
  pub records_replayed : ℕ
  pub valid_bytes : ℕ
  pub incomplete_tail_bytes : ℕ

unfoldable pub had_incomplete_tail : WalReplayResult → Bool
had_incomplete_tail result = result.incomplete_tail_bytes != 0

-- The local variables of `replay_wal`, with the bytes left in the stream and the caller's state.
pub record Replay {ℓ} (S : Type ℓ) : Type ℓ where
  pub input : Bytes
  pub buffer : Bytes
  pub consumed : ℕ
  pub reached_end : Bool
  pub result : WalReplayResult
  pub caller : S

-- An iteration of the loop returns, or goes on.
pub data Iteration {ℓ} (S : Type ℓ) : Type ℓ where
  returned : WalReplayResult → S → Iteration S
  continued : Replay S → Iteration S

-- `eof` is reported by a read that finds less than it asked for.
unfoldable pub read_next_chunk : Bytes → Bytes → Bytes × Bytes × Bool
read_next_chunk input buffer = (
  drop read_chunk_size input,
  buffer ++ take read_chunk_size input,
  ltb (length input) read_chunk_size,
)

unfoldable pub remove_consumed_prefix : Bytes → ℕ → Bytes
remove_consumed_prefix buffer consumed =
    if consumed == 0 then buffer else if consumed == length buffer then [] else drop consumed buffer

module _ {ℓ} {S : Type ℓ} (replay : S → WalPutRecord → Outcome Exception S) where
  -- The end of the loop's body.
  unfoldable pub read_more : Replay S → Iteration S
  unfolding read_next_chunk remove_consumed_prefix
  read_more state =
      let (input, buffer, reached_end) =
        read_next_chunk state.input (remove_consumed_prefix state.buffer state.consumed) in
      continued (record {
        input = input;
        buffer = buffer;
        consumed = 0;
        reached_end = reached_end;
        result = state.result;
        caller = state.caller;
      })

  -- The branch of a decoded record.
  unfoldable pub replay_record :
      Replay S → Bytes → WalPutRecord → ℕ → Outcome Exception (Iteration S)
  replay_record state available decoded bytes_consumed = do
    throw_if (bytes_consumed == 0 || ltb (length available) bytes_consumed) logic_error
    caller ← replay state.caller decoded
    let consumed = state.consumed + bytes_consumed
    let all = consumed == length state.buffer
    ok (
        continued (record {
          input = state.input;
          buffer = if all then [] else state.buffer;
          consumed = if all then 0 else consumed;
          reached_end = state.reached_end;
          result = record {
            records_replayed = suc state.result.records_replayed % 2 ^ 64;
            valid_bytes = (state.result.valid_bytes + bytes_consumed) % 2 ^ 64;
            incomplete_tail_bytes = state.result.incomplete_tail_bytes;
          };
          caller = caller;
        }))

  -- The branch of an error: only an incomplete record is not the end, and only before the end of
  -- the file.
  unfoldable pub replay_error : Replay S → WalDecodeError → Outcome Exception (Iteration S)
  unfolding read_more
  replay_error state WalDecodeError.incomplete_record = elim state.reached_end [
    | true ↦ ok (
        returned
          (record {
            records_replayed = state.result.records_replayed;
            valid_bytes = state.result.valid_bytes;
            incomplete_tail_bytes = length state.buffer - state.consumed;
          })
          state.caller)
    | false ↦ ok (read_more state)
  ]
  replay_error state error = throw (wal_format_error state.result.valid_bytes error)

  -- `decoded.success()` tests the record and the error.
  unfoldable pub replay_decoded :
      Replay S → Bytes → WalDecodeResult → Outcome Exception (Iteration S)
  unfolding replay_record replay_error
  replay_decoded state available decoded = elim decoded.put_record [
    | none ↦ replay_error state decoded.error
    | some put ↦ elim decoded.error [
      | WalDecodeError.none ↦ replay_record state available put decoded.bytes_consumed
      | error ↦ replay_error state error
    ]
  ]

  -- The two branches on `consumed < buffer.size()`.
  unfoldable pub replay_available : Bool → Replay S → Outcome Exception (Iteration S)
  unfolding replay_decoded read_more
  replay_available true state =
      let available = drop state.consumed state.buffer in
      replay_decoded state available (decode_wal_record available)
  replay_available false state = elim state.reached_end [
    | true ↦ ok (returned state.result state.caller)
    | false ↦ ok (read_more state)
  ]

  unfoldable pub replay_iteration : Replay S → Outcome Exception (Iteration S)
  unfolding replay_available
  replay_iteration state = replay_available (ltb state.consumed (length state.buffer)) state

  -- The loop, on fuel: `none` where it runs out.
  unfoldable pub replay_loop : ℕ → Replay S → Option (Outcome Exception (WalReplayResult × S))
  unfolding replay_iteration
  replay_loop zero state = none
  replay_loop (suc fuel) state = elim (replay_iteration state) [
    | throw e ↦ some (throw e)
    | ok (returned result caller) ↦ some (ok (result, caller))
    | ok (continued next) ↦ replay_loop fuel next
  ]

  abbrev pub replay_start : Bytes → S → Replay S
  replay_start file caller = record {
    input = file;
    buffer = [];
    consumed = 0;
    reached_end = false;
    result = record { records_replayed = 0; valid_bytes = 0; incomplete_tail_bytes = 0 };
    caller = caller;
  }

  -- `replay_wal` on a file that is there, with a callback. Every iteration consumes a byte, reads
  -- one, or notices the end of the file.
  unfoldable pub replay_wal : Bytes → S → Option (Outcome Exception (WalReplayResult × S))
  unfolding replay_loop
  replay_wal file caller = replay_loop (2 * length file + 2) (replay_start file caller)

-- The answers of the system during a repair.
pub record RepairCalls : Type 0 where
  pub finds_size : Bool
  pub resizes : Bool
  pub open_calls : OpenCalls
  pub sync_calls : SystemCalls

-- No call fails.
abbrev pub repair_fine : RepairCalls
repair_fine = record {
  finds_size = true;
  resizes = true;
  open_calls = opens_fine;
  sync_calls = calls_fine;
}

-- The file that a repair leaves where it returns.
unfoldable pub repair_wal_tail : RepairCalls → Bytes → WalReplayResult → Outcome Exception Bytes
unfolding had_incomplete_tail
repair_wal_tail calls file result = elim (had_incomplete_tail result) [
  | false ↦ ok file
  | true ↦
      throw_if (ltb (2 ^ 64 - 1 - result.valid_bytes) result.incomplete_tail_bytes) overflow_error
      >> throw_if (not calls.finds_size) system_error
      >> throw_if (length file != result.valid_bytes + result.incomplete_tail_bytes) runtime_error
      >> throw_if (not calls.resizes) system_error
      >> open_wal calls.open_calls (take result.valid_bytes file) WalDurability.buffered
      >>= λ writer.
          throw_if (writer.size_bytes != result.valid_bytes) runtime_error
          >> (WalFile.sync calls.sync_calls writer).1
          >> ok (take result.valid_bytes file)
]
