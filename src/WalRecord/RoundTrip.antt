-- ===== src/WalRecord/RoundTrip.antt =====
-- The encoder and the decoder of src/wal_record.cpp, one after the other.
use chronostore.Common.{
  ℕ, ◌+◌, ◌^◌, ◌<◌, ◌≤◌, ◌≡◌, refl, ap, arith, [], ◌++◌, append-nil, append_assoc, length,
  length-append, take, drop, take-append_of, drop-append_of, ok, some, ltb-false, !=_self,
}
use chronostore.Errors.{WalDecodeError}
use chronostore.Model.{Bytes, IsSeries, IsSample}
use chronostore.ByteCodec.{reader_of, read_u32}
use chronostore.ByteCodec.Layout.{u8, u32, length-u32}
use chronostore.ByteCodec.Read.{reader_at, read_u8-u8, read_u32-u32}
use chronostore.Crc32c.{crc32c}
use chronostore.Crc32c.Detect.{crc32c-lt}
use chronostore.WalRecord.{
  WalPutRecord, Header, wal_magic, wal_version, record_type_put, max_payload_size, inverted,
  read_header, decode_frame, decode_wal_record, encode_wal_record,
}
use chronostore.WalRecord.Layout.{
  header_bytes, payload_bytes, protected_bytes, record_bytes, length-header_bytes,
  length-protected_bytes, length-record_bytes, inverted-lt, protected_bytes-IsByte,
  encode_wal_record-eq-ok,
}
use chronostore.WalRecord.Payload.{decode_payload-payload_bytes}

abbrev put_header : ℕ → Header
put_header n = record {
  magic = wal_magic;
  version = wal_version;
  record_type = record_type_put;
  payload_length = n;
  inverted_length = inverted n;
}

read_header-header_bytes :
    (n : ℕ) (rest : Bytes)
    → n < 2 ^ 32
    → read_header (reader_of (header_bytes n ++ rest)) ≡ some (put_header n)
unfolding read_header header_bytes
read_header-header_bytes n rest h = rw (
  append_assoc (u32 wal_magic) _ rest,
  read_u32-u32 wal_magic 0 _ (omega arith),
  append_assoc (u8 wal_version) _ rest,
  read_u8-u8 wal_version _ _ (omega arith),
  append_assoc (u8 record_type_put) _ rest,
  read_u8-u8 record_type_put _ _ (omega arith),
  append_assoc (u32 n) _ rest,
  read_u32-u32 n _ _ h,
  read_u32-u32 (inverted n) _ rest (inverted-lt n h),
)

module _ (r : WalPutRecord) (rest : Bytes) where
  abbrev framed : Bytes
  framed = record_bytes r ++ rest

  abbrev stored : Bytes
  stored = u32 (crc32c (protected_bytes r))

  framed_protected : framed ≡ protected_bytes r ++ (stored ++ rest)
  unfolding record_bytes
  framed_protected = append_assoc (protected_bytes r) stored rest

  framed_header :
      framed ≡ header_bytes (length (payload_bytes r)) ++ (payload_bytes r ++ (stored ++ rest))
  unfolding record_bytes protected_bytes
  framed_header = simp append_assoc

  take_protected : take (14 + length (payload_bytes r)) framed ≡ protected_bytes r
  take_protected =
      rw framed_protected (take-append_of _ (protected_bytes r) _ (length-protected_bytes r))

  drop_protected : drop (14 + length (payload_bytes r)) framed ≡ stored ++ rest
  drop_protected =
      rw framed_protected (drop-append_of _ (protected_bytes r) _ (length-protected_bytes r))

  take-payload : take (length (payload_bytes r)) (drop 14 framed) ≡ payload_bytes r
  take-payload =
      rw
        (
          framed_header,
          drop-append_of 14 (header_bytes (length (payload_bytes r))) _ (length-header_bytes _),
        )
        (take-append_of _ (payload_bytes r) _ refl)

  framed_header_read :
      length (payload_bytes r) ≤ max_payload_size
      → read_header (reader_of framed) ≡ some (put_header (length (payload_bytes r)))
  framed_header_read h = rw framed_header (read_header-header_bytes _ _ (omega arith))

  stored_read :
      crc32c (protected_bytes r) < 2 ^ 32
      → read_u32 (reader_of stored) ≡ some (crc32c (protected_bytes r), reader_at 4 [])
  stored_read h = rw append-nil at (read_u32-u32 (crc32c (protected_bytes r)) 0 [] h)

  -- A complete frame of a canonical record is decoded to the record, whatever follows it.
  pub decode_frame-record_bytes :
      IsSeries r.series
      → IsSample r.sample
      → length (payload_bytes r) ≤ max_payload_size
      → decode_frame framed ≡ ok (r, 18 + length (payload_bytes r))
  unfolding decode_frame
  decode_frame-record_bytes v s h =
      let n = length (payload_bytes r) in
      let long : length framed ≡ 18 + n + length rest =
        omega (arith, length-append (record_bytes r) rest, length-record_bytes r) in
      let crc = crc32c-lt (protected_bytes r) (protected_bytes-IsByte r v) in
      rw
        (
          ltb-false (length framed) 14 (omega arith),
          framed_header_read h,
          !=_self (inverted n),
          ltb-false max_payload_size n h,
          ltb-false (length framed) (14 + n + 4) (omega arith),
          drop_protected,
          take-append_of 4 stored rest (length-u32 (crc32c (protected_bytes r))),
          stored_read crc,
          take_protected,
          !=_self (crc32c (protected_bytes r)),
          take-payload,
          decode_payload-payload_bytes r v s (omega arith),
        )
        (ap (λ (size : ℕ). ok (r, size)) (omega arith))

-- A record with a canonical series key and a valid sample that the encoder accepts is decoded to
-- itself, whatever follows its frame, and exactly the frame is consumed.
pub decode_wal_record-encode_wal_record :
    (r : WalPutRecord) (bytes rest : Bytes)
    → IsSeries r.series
    → IsSample r.sample
    → encode_wal_record r ≡ ok bytes
    → decode_wal_record (bytes ++ rest)
      ≡ record { put_record = some r; error = WalDecodeError.none; bytes_consumed = length bytes }
unfolding decode_wal_record
decode_wal_record-encode_wal_record r bytes rest v s e =
    let (layout, fits) = encode_wal_record-eq-ok r bytes v e in
    rw (layout, decode_frame-record_bytes r rest v s fits, length-record_bytes r)
