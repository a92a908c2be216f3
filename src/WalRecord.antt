-- ===== src/WalRecord.antt =====
-- src/wal_record.cpp: the frame of a write-ahead-log record and its payload.
pub mod Layout
pub mod Payload
pub mod RoundTrip
pub mod Frame
pub mod Prefix
use Prim.Native.Nat.{bit_xor}
use chronostore.Common.{
  ℕ, zero, suc, ◌+◌, ◌-◌, ◌*◌, ◌%◌, ◌^◌, Bool, Option, none, some, List, [], ◌∷◌, ◌++◌, length,
  take, drop, ltb, ◌!=◌, Outcome, ok, throw, throw_if, demand, to_option, ◌>>=◌, ◌>>◌,
}
use chronostore.Common.Optional.{◌>>=◌ as ◌>>=?◌, none_if}
use chronostore.Errors.{Exception, length_error, WalDecodeError}
use chronostore.Model.{
  Bytes, Tag, SeriesKey, Timestamp, Sample, make_tag, make_series_key, make_sample,
}
use chronostore.ByteCodec.{
  ByteWriter, ByteReader, reader_of, remaining, write_u8, write_u32, write_u64, write_bytes,
  read_u8, read_u32, read_u64, read_string,
}
use chronostore.Crc32c.{crc32c}
use chronostore.SeriesCodec.{timestamp_bits, timestamp_of_bits, write_series_key}

pub record WalPutRecord : Type 0 where
  pub series : SeriesKey
  pub sample : Sample

-- Little-endian bytes spell "CSWL".
abbrev pub wal_magic : ℕ
wal_magic = 0x4C575343

abbrev pub wal_version : ℕ
wal_version = 1

-- `WalRecordType::put`
abbrev pub record_type_put : ℕ
record_type_put = 1

abbrev pub max_payload_size : ℕ
max_payload_size = 16 * 1024 * 1024

abbrev pub wal_header_size : ℕ
wal_header_size = 14

abbrev pub wal_checksum_size : ℕ
wal_checksum_size = 4

-- `length ^ std::numeric_limits<std::uint32_t>::max()`
abbrev pub inverted : ℕ → ℕ
inverted payload_length = bit_xor payload_length 0xFFFFFFFF

-- The first statements are those of `write_series_key`.
unfoldable pub encode_payload : WalPutRecord → Outcome Exception ByteWriter
encode_payload r = do
  writer ← write_series_key [] r.series
  let writer = write_u64 writer (timestamp_bits r.sample.timestamp)
  ok (write_u64 writer r.sample.value)

-- The frame around a payload, from `payload_length` on.
unfoldable pub write_frame : Bytes → ByteWriter
write_frame payload =
    let payload_length = length payload % 2 ^ 32 in
    let writer = write_u32 [] wal_magic in
    let writer = write_u8 writer wal_version in
    let writer = write_u8 writer record_type_put in
    let writer = write_u32 writer payload_length in
    let writer = write_u32 writer (inverted payload_length) in
    let writer = write_bytes writer payload in write_u32 writer (crc32c writer)

unfoldable pub encode_wal_record : WalPutRecord → Outcome Exception Bytes
encode_wal_record r = do
  payload ← encode_payload r
  throw_if (ltb max_payload_size (length payload)) length_error
  ok (write_frame payload)

pub record WalDecodeResult : Type 0 where
  pub put_record : Option WalPutRecord
  pub error : WalDecodeError
  pub bytes_consumed : ℕ

unfoldable pub make_decode_error : WalDecodeError → WalDecodeResult
make_decode_error error = record { put_record = none; error = error; bytes_consumed = 0 }

-- `success()`
unfoldable pub success : WalDecodeResult → Bool
success r = elim r.put_record [
  | none ↦ Bool.false
  | some _ ↦ elim r.error [ WalDecodeError.none ↦ Bool.true | _ ↦ Bool.false ]
]

-- The loop over the tags. What the constructor of `Tag` throws is answered by `std::nullopt`.
unfoldable pub read_tags : ℕ → List Tag → ByteReader → Option (List Tag × ByteReader)
read_tags zero tags reader = some (tags, reader)
read_tags (suc rounds) tags reader = read_string reader >>=? λ (key, reader).
    read_string reader >>=? λ (value, reader).
    to_option (make_tag key value) >>=? λ tag. read_tags rounds (tags ++ (tag ∷ [])) reader

unfoldable pub decode_payload : Bytes → Option WalPutRecord
unfolding read_tags remaining
decode_payload payload = read_string (reader_of payload) >>=? λ (measurement, reader).
    read_u32 reader >>=? λ (tag_count, reader). read_tags tag_count [] reader >>=? λ (tags, reader).
    read_u64 reader >>=? λ (time_bits, reader). read_u64 reader >>=? λ (value_bits, reader).
    none_if (remaining reader != 0) >>=? λ _.
    to_option (make_series_key measurement tags) >>=? λ series.
    to_option (make_sample (timestamp_of_bits time_bits) value_bits) >>=? λ sample.
    some (record { series = series; sample = sample })

-- The fields of the header, in the order in which they are read.
pub record Header : Type 0 where
  pub magic : ℕ
  pub version : ℕ
  pub record_type : ℕ
  pub payload_length : ℕ
  pub inverted_length : ℕ

unfoldable pub read_header : ByteReader → Option Header
read_header reader = read_u32 reader >>=? λ (magic, reader).
    read_u8 reader >>=? λ (version, reader). read_u8 reader >>=? λ (record_type, reader).
    read_u32 reader >>=? λ (payload_length, reader).
    read_u32 reader >>=? λ (inverted_length, reader). some (record {
      magic = magic;
      version = version;
      record_type = record_type;
      payload_length = payload_length;
      inverted_length = inverted_length;
    })

-- The body of `decode_wal_record`: the record and the size of its frame, or the error. The slices
-- are `bytes.first(protected_size)` and `bytes.subspan(...)`.
unfoldable pub decode_frame : Bytes → Outcome WalDecodeError (WalPutRecord × ℕ)
decode_frame bytes = do
  throw_if (ltb (length bytes) wal_header_size) WalDecodeError.incomplete_record
  header ← demand WalDecodeError.incomplete_record (read_header (reader_of bytes))
  throw_if (header.magic != wal_magic) WalDecodeError.invalid_magic
  throw_if (header.inverted_length != inverted header.payload_length) WalDecodeError.invalid_length
  throw_if (ltb max_payload_size header.payload_length) WalDecodeError.invalid_length
  let protected_size = wal_header_size + header.payload_length
  let total_record_size = protected_size + wal_checksum_size
  throw_if (ltb (length bytes) total_record_size) WalDecodeError.incomplete_record
  let protected_bytes = take protected_size bytes
  let checksum_bytes = take wal_checksum_size (drop protected_size bytes)
  (stored_checksum, _) ←
      demand WalDecodeError.incomplete_record (read_u32 (reader_of checksum_bytes))
  throw_if (stored_checksum != crc32c protected_bytes) WalDecodeError.checksum_mismatch
  throw_if (header.version != wal_version) WalDecodeError.unsupported_version
  throw_if (header.record_type != record_type_put) WalDecodeError.unsupported_record_type
  let payload = take header.payload_length (drop wal_header_size bytes)
  decoded ← demand WalDecodeError.invalid_payload (decode_payload payload)
  ok (decoded, total_record_size)

to_result : Outcome WalDecodeError (WalPutRecord × ℕ) → WalDecodeResult
unfolding make_decode_error
to_result (ok (decoded, size)) = record {
  put_record = some decoded;
  error = WalDecodeError.none;
  bytes_consumed = size;
}
to_result (throw error) = make_decode_error error

unfoldable pub decode_wal_record : Bytes → WalDecodeResult
unfolding decode_frame to_result
decode_wal_record bytes = to_result (decode_frame bytes)
