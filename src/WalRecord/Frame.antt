-- ===== src/WalRecord/Frame.antt =====
-- The size of a frame that src/wal_record.cpp decodes.
use chronostore.Common.{ℕ, ◌≤◌, ◌≡◌, arith, length, ok}
use chronostore.Model.{Bytes}
use chronostore.WalRecord.{WalPutRecord, decode_frame}

-- A frame that is decoded has a size of 18 bytes at least, and lies within the input.
pub decode_frame_size :
    (bytes : Bytes) (r : WalPutRecord) (size : ℕ)
    → decode_frame bytes ≡ ok (r, size)
    → (18 ≤ size) × (size ≤ length bytes)
unfolding decode_frame
decode_frame_size bytes r size h = ground arith
