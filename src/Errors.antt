-- ===== src/Errors.antt =====
-- The exceptions of the library, without their messages, and the answers of the two frame decoders
-- (src/internal/wal_record.hpp, src/internal/segment_block_codec.hpp).
use Prim.Native.Nat.{ℕ}

pub data WalDecodeError : Type 0 where
  none incomplete_record invalid_magic unsupported_version : WalDecodeError
  unsupported_record_type invalid_length checksum_mismatch invalid_payload : WalDecodeError

pub data SegmentBlockDecodeError : Type 0 where
  none incomplete_block invalid_magic unsupported_version : SegmentBlockDecodeError
  unsupported_flags invalid_length invalid_sample_count : SegmentBlockDecodeError
  checksum_mismatch invalid_payload : SegmentBlockDecodeError

-- The standard exceptions that the code throws, and its own three format errors. A `WalFormatError`
-- carries the offset of the record and the decoder's answer.
pub data Exception : Type 0 where
  invalid_argument length_error overflow_error logic_error : Exception
  runtime_error system_error : Exception
  wal_format_error : ℕ → WalDecodeError → Exception
  segment_format_error manifest_format_error : Exception
  database_corruption_error database_busy_error : Exception
