-- ===== src/WalRecord/Layout.antt =====
-- The documented frame, docs/file-formats.md "WAL Record Version 1", and the encoder of
-- src/wal_record.cpp.
use native.Mathlib.Nat.{mod-eq_of_lt}
use chronostore.Common.{
  ℕ, ◌+◌, ◌^◌, ◌<◌, ◌≤◌, ◌≡◌, refl, ap, sym, ◌∙◌, arith, [], ◌++◌, length, length-append, ltb, ok,
  >>=-eq-ok, >>-eq-ok, ltb→le, All,
}
use chronostore.Bits.{xor_lt}
use chronostore.Model.{Bytes, IsByte, IsSeries}
use chronostore.ByteCodec.Layout.{u8, u32, u64, length-u32, length-u64, byte_rules}
use chronostore.ByteCodec.Write.{write_laws}
use chronostore.Crc32c.{crc32c}
use chronostore.SeriesCodec.{timestamp_bits, write_series_key}
use chronostore.ByteCodec.{write_u64}
use chronostore.SeriesCodec.Layout.{series_bytes, series_bytes-IsByte, write_series_key-eq-ok}
use chronostore.WalRecord.{
  WalPutRecord, wal_magic, wal_version, record_type_put, max_payload_size, inverted, encode_payload,
  write_frame, encode_wal_record,
}

unfoldable pub payload_bytes : WalPutRecord → Bytes
payload_bytes r =
    series_bytes r.series ++ (u64 (timestamp_bits r.sample.timestamp) ++ u64 r.sample.value)

unfoldable pub header_bytes : ℕ → Bytes
header_bytes payload_length =
    u32 wal_magic
    ++ (u8 wal_version
        ++ (u8 record_type_put ++ (u32 payload_length ++ u32 (inverted payload_length))))

-- The bytes that the checksum covers.
unfoldable pub protected_bytes : WalPutRecord → Bytes
protected_bytes r = header_bytes (length (payload_bytes r)) ++ payload_bytes r

unfoldable pub record_bytes : WalPutRecord → Bytes
record_bytes r = protected_bytes r ++ u32 (crc32c (protected_bytes r))

pub length-header_bytes : (n : ℕ) → length (header_bytes n) ≡ 14
unfolding header_bytes u8 u32
length-header_bytes n = refl

pub length-payload_bytes :
    (r : WalPutRecord) → length (payload_bytes r) ≡ length (series_bytes r.series) + 16
unfolding payload_bytes
length-payload_bytes r =
    let time = u64 (timestamp_bits r.sample.timestamp) in
    let value = u64 r.sample.value in
    omega (
      arith,
      length-append (series_bytes r.series) (time ++ value),
      length-append time value,
      length-u64 (timestamp_bits r.sample.timestamp),
      length-u64 r.sample.value,
    )

pub length-protected_bytes :
    (r : WalPutRecord) → length (protected_bytes r) ≡ 14 + length (payload_bytes r)
unfolding protected_bytes
length-protected_bytes r = omega (
  arith,
  length-append (header_bytes (length (payload_bytes r))) (payload_bytes r),
  length-header_bytes (length (payload_bytes r)),
)

pub length-record_bytes :
    (r : WalPutRecord) → length (record_bytes r) ≡ 18 + length (payload_bytes r)
unfolding record_bytes
length-record_bytes r = omega (
  arith,
  length-append (protected_bytes r) (u32 (crc32c (protected_bytes r))),
  length-protected_bytes r,
  length-u32 (crc32c (protected_bytes r)),
)

pub inverted-lt : (n : ℕ) → n < 2 ^ 32 → inverted n < 2 ^ 32
inverted-lt n h = xor_lt 32 n 0xFFFFFFFF h (omega arith)

encode_payload-eq-ok :
    (r : WalPutRecord) (payload : Bytes)
    → IsSeries r.series
    → encode_payload r ≡ ok payload
    → payload ≡ payload_bytes r
unfolding encode_payload payload_bytes
encode_payload-eq-ok r payload v h =
    let (writer, h', e) = >>=-eq-ok _ (write_series_key [] r.series) h in
    let series = write_series_key-eq-ok r.series [] writer v e in
    let last : write_u64 (write_u64 writer (timestamp_bits r.sample.timestamp)) r.sample.value
        ≡ payload =
      cc (h') in
    sym last ∙ rw series (simp write_laws)

write_frame-record_bytes :
    (r : WalPutRecord)
    → length (payload_bytes r) < 2 ^ 32
    → write_frame (payload_bytes r) ≡ record_bytes r
unfolding write_frame record_bytes protected_bytes header_bytes
write_frame-record_bytes r h = rw (mod-eq_of_lt h) (simp write_laws)

-- Whenever a record with a canonical series key is encoded, the result is the documented frame, and
-- the payload has at most 16 MiB.
pub encode_wal_record-eq-ok :
    (r : WalPutRecord) (bytes : Bytes)
    → IsSeries r.series
    → encode_wal_record r ≡ ok bytes
    → (bytes ≡ record_bytes r) × (length (payload_bytes r) ≤ max_payload_size)
unfolding encode_wal_record
encode_wal_record-eq-ok r bytes v h =
    let (payload, h', e) = >>=-eq-ok _ (encode_payload r) h in
    let same = encode_payload-eq-ok r payload v e in
    let (small, written) = >>-eq-ok (ltb max_payload_size (length payload)) _ _ h' in
    let fits : length (payload_bytes r) ≤ max_payload_size =
      rw same at (ltb→le max_payload_size (length payload) small) in
    (cc (written, ap write_frame same, write_frame-record_bytes r (omega arith)), fits)

pub protected_bytes-IsByte : (r : WalPutRecord) → IsSeries r.series → All IsByte (protected_bytes r)
protected_bytes-IsByte r v =
    let series = series_bytes-IsByte r.series v in
    unfold protected_bytes header_bytes payload_bytes in search (byte_rules, series) depth 12
