-- ===== src/Examples/Wal.antt =====
-- The write-ahead log on concrete inputs.
use chronostore.Common.{
  ◌≡◌, ◌⊎◌, ◌<◌, ◌^◌, ◌≤◌, ◌+◌, refl, arith, [], ◌∷◌, ◌++◌, length, take, drop, true, false, none,
  some, Outcome, ok, throw, ◌>>=◌, ◌≢◌, take-append-drop, length-drop,
}
use chronostore.Errors.{Exception, WalDecodeError}
use chronostore.Model.{Bytes}
use chronostore.ByteCodec.{
  write_unsigned, write_u8, write_u32, write_u64, write_bytes, write_string, write_characters,
}
use chronostore.ByteCodec.Layout.{u8, u32, u64, string_bytes}
use chronostore.SeriesCodec.{write_series_key, write_tags, timestamp_bits}
use chronostore.SeriesCodec.Layout.{series_bytes}
use chronostore.MemTable
use chronostore.Crc32c.{crc32c}
use chronostore.WalRecord.{
  WalPutRecord, encode_wal_record, encode_payload, write_frame, decode_wal_record, decode_frame,
  max_payload_size,
}
use chronostore.WalRecord.Layout.{record_bytes, payload_bytes, protected_bytes, header_bytes}
use chronostore.WalRecord.RoundTrip.{decode_wal_record-encode_wal_record, decode_frame-record_bytes}
use chronostore.WalRecord.Prefix.{decode_frame-append, decode_frame_prefix}
use chronostore.WalRecovery.{replay_wal, repair_fine, repair_wal_tail}
use chronostore.WalRecovery.Terminates.{replay_wal_ends}
use chronostore.WalRecovery.Written.{
  IsWritten, frames, replay_all, replay_wal-frames, repair_wal_tail-frames,
}
use chronostore.WalFile.{
  WalWriter, SystemCalls, WalDurability, append, sync, ensure_usable, write_record,
}
use chronostore.WalFile.Outcomes.{IsRefused, IsPartial, IsAppended, append_outcome}
use chronostore.WalFile.Laws.{IsValid, append-IsValid}
use chronostore.Examples.{cpu, sample_one, cpu-IsSeries, sample_one-IsSample}

abbrev pub put_one : WalPutRecord
put_one = record { series = cpu; sample = sample_one }

abbrev pub put_one_bytes : Bytes
put_one_bytes = record_bytes put_one

pub encode_put_one : encode_wal_record put_one ≡ ok put_one_bytes
unfolding encode_wal_record encode_payload write_series_key write_tags write_frame write_string
    write_characters write_unsigned write_u8 write_u32 write_u64 write_bytes timestamp_bits
    record_bytes protected_bytes header_bytes payload_bytes series_bytes string_bytes u8 u32 u64
    crc32c
encode_put_one = refl

put_one_fits : length (payload_bytes put_one) ≤ max_payload_size
unfolding payload_bytes series_bytes string_bytes u8 u32 u64
put_one_fits = omega arith

put_one-IsWritten : IsWritten put_one
put_one-IsWritten = record {
  series_canonical = cpu-IsSeries;
  sample_valid = sample_one-IsSample;
  payload_fits = put_one_fits;
}

pub put_one_length : length put_one_bytes ≡ 66
unfolding record_bytes protected_bytes header_bytes payload_bytes series_bytes string_bytes u8 u32
    u64
put_one_length = refl

frames_fit : length (frames (put_one ∷ [])) ≡ 66
unfolding record_bytes protected_bytes header_bytes payload_bytes series_bytes string_bytes u8 u32
    u64
frames_fit = refl

round_trip_example : decode_wal_record (put_one_bytes ++ (9 ∷ [])) ≡ record {
  put_record = some put_one;
  error = WalDecodeError.none;
  bytes_consumed = length put_one_bytes;
}
round_trip_example =
    decode_wal_record-encode_wal_record put_one put_one_bytes (9 ∷ []) cpu-IsSeries
      sample_one-IsSample encode_put_one

decoded_put_one :
    decode_frame (put_one_bytes ++ []) ≡ ok (put_one, 18 + length (payload_bytes put_one))
decoded_put_one = decode_frame-record_bytes put_one [] cpu-IsSeries sample_one-IsSample put_one_fits

decode_frame-append_example :
    decode_frame ((put_one_bytes ++ []) ++ (5 ∷ [])) ≡ decode_frame (put_one_bytes ++ [])
decode_frame-append_example = decode_frame-append (put_one_bytes ++ []) (5 ∷ []) complete
  where
    complete : decode_frame (put_one_bytes ++ []) ≢ throw WalDecodeError.incomplete_record
    complete e = cc (e, decoded_put_one)

decode_frame_prefix_example :
    decode_frame (take 20 put_one_bytes) ≡ throw WalDecodeError.incomplete_record
decode_frame_prefix_example =
    decode_frame_prefix put_one (take 20 put_one_bytes) (drop 20 put_one_bytes) cpu-IsSeries
      sample_one-IsSample put_one_fits (take-append-drop 20 put_one_bytes)
      (omega (arith, length-drop 20 put_one_bytes, put_one_length))

nothing_incomplete : decode_frame [] ≡ throw WalDecodeError.incomplete_record
unfolding decode_frame
nothing_incomplete = refl

abbrev put_replayed : MemTable.MemTable → WalPutRecord → Outcome Exception MemTable.MemTable
put_replayed table r = ok (MemTable.put table r.series r.sample)

replay_example :
    replay_wal put_replayed (frames (put_one ∷ []) ++ []) MemTable.new
    ≡ some (
        replay_all put_replayed MemTable.new (put_one ∷ []) >>= λ state. ok (
          record {
            records_replayed = 1;
            valid_bytes = length (frames (put_one ∷ []));
            incomplete_tail_bytes = 0;
          },
          state,
        ))
replay_example =
    replay_wal-frames put_replayed MemTable.new (put_one ∷ []) [] (put_one-IsWritten, tt)
      nothing_incomplete (omega (arith, frames_fit))

replay_ends_example : replay_wal put_replayed (1 ∷ 2 ∷ []) MemTable.new ≢ none
replay_ends_example = replay_wal_ends put_replayed (1 ∷ 2 ∷ []) MemTable.new

repair_example :
    repair_wal_tail repair_fine (frames (put_one ∷ []) ++ (67 ∷ [])) (record {
      records_replayed = 1;
      valid_bytes = length (frames (put_one ∷ []));
      incomplete_tail_bytes = 1;
    })
    ≡ ok (frames (put_one ∷ []))
repair_example = repair_wal_tail-frames (put_one ∷ []) (67 ∷ []) (omega (arith, frames_fit))

abbrev pub all_succeed : SystemCalls
all_succeed = record { write_failure = none; sync_succeeds = true; truncate_succeeds = true }

abbrev pub empty_log : WalWriter
empty_log = record {
  file = [];
  size_bytes = 0;
  durability = WalDurability.sync_on_append;
  is_open = true;
  failed = false;
}

append-IsValid_example : IsValid (append all_succeed empty_log put_one).0
append-IsValid_example =
    append-IsValid all_succeed empty_log put_one
      (record { size_known = λ h. refl; size_fits = omega arith })

pub appended : (append all_succeed empty_log put_one).1 ≡ ok tt
unfolding append ensure_usable write_record sync
appended = ground (arith, encode_put_one, put_one_length)

abbrev failed_log : WalWriter
failed_log = record {
  file = 1 ∷ [];
  size_bytes = 0;
  durability = WalDurability.buffered;
  is_open = true;
  failed = true;
}

append_outcome_example :
    IsRefused empty_log (append all_succeed empty_log put_one)
    ⊎ (encoded : Bytes) × (encode_wal_record put_one ≡ ok encoded)
      × (0 + length encoded < 2 ^ 64)
      × (IsPartial empty_log encoded (append all_succeed empty_log put_one)
          ⊎ IsAppended empty_log encoded (append all_succeed empty_log put_one))
append_outcome_example = append_outcome all_succeed empty_log put_one (omega arith)
