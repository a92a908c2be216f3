-- ===== src/SegmentBlockCodec.antt =====
-- src/segment_block_codec.cpp: the frame of a segment block and its payload.
pub mod Layout
pub mod RoundTrip
use Prim.Native.Nat.{bit_xor}
use chronostore.Common.{
  ℕ, zero, suc, ◌+◌, ◌-◌, ◌*◌, ◌/◌, ◌%◌, ◌^◌, ◌||◌, Option, none, some, List, [], ◌∷◌, ◌++◌, length,
  take, drop, ltb, ◌==◌, ◌!=◌, Outcome, ok, throw, throw_if, demand, to_option, ◌>>=◌, ◌>>◌,
}
use chronostore.Common.Optional.{◌>>=◌ as ◌>>=?◌, none_if}
use chronostore.Errors.{Exception, length_error, SegmentBlockDecodeError}
use chronostore.Model.{Bytes, Sample, make_series_key, make_sample}
use chronostore.ByteCodec.{
  ByteWriter, ByteReader, reader_of, remaining, write_u16, write_u32, write_u64, write_bytes,
  read_u16, read_u32, read_u64, read_string,
}
use chronostore.Crc32c.{crc32c}
use chronostore.SeriesCodec.{timestamp_bits, timestamp_of_bits, write_series_key, read_ordered_tags}
use chronostore.SegmentBlock.{
  SegmentBlock, max_samples_per_segment_block, make_segment_block, sample_count,
}

-- Little-endian bytes spell "CSBK".
abbrev pub segment_block_magic : ℕ
segment_block_magic = 0x4B425343

abbrev pub segment_block_version : ℕ
segment_block_version = 1

abbrev pub segment_block_flags : ℕ
segment_block_flags = 0

abbrev pub max_segment_block_payload_size : ℕ
max_segment_block_payload_size = 16 * 1024 * 1024

abbrev pub segment_block_header_size : ℕ
segment_block_header_size = 20

abbrev pub segment_block_checksum_size : ℕ
segment_block_checksum_size = 4

abbrev pub encoded_sample_size : ℕ
encoded_sample_size = 2 * 8

abbrev pub minimum_encoded_tag_size : ℕ
minimum_encoded_tag_size = 2 * 4

abbrev pub inverted : ℕ → ℕ
inverted payload_length = bit_xor payload_length 0xFFFFFFFF

-- The loop over the samples.
unfoldable pub write_samples : ByteWriter → List Sample → ByteWriter
write_samples writer [] = writer
write_samples writer (sample ∷ samples) =
    write_samples (write_u64 (write_u64 writer (timestamp_bits sample.timestamp)) sample.value)
      samples

-- The first statements are those of `write_series_key`.
unfoldable pub encode_payload : SegmentBlock → Outcome Exception ByteWriter
unfolding write_samples
encode_payload block = do
  writer ← write_series_key [] block.series
  ok (write_samples writer block.samples)

-- The frame around a payload, from `payload_length` on.
unfoldable pub write_frame : SegmentBlock → Bytes → ByteWriter
write_frame block payload =
    let payload_length = length payload % 2 ^ 32 in
    let writer = write_u32 [] segment_block_magic in
    let writer = write_u16 writer segment_block_version in
    let writer = write_u16 writer segment_block_flags in
    let writer = write_u32 writer payload_length in
    let writer = write_u32 writer (inverted payload_length) in
    let writer = write_u32 writer (sample_count block % 2 ^ 32) in
    let writer = write_bytes writer payload in write_u32 writer (crc32c writer)

unfoldable pub encode_segment_block : SegmentBlock → Outcome Exception Bytes
unfolding encode_payload write_frame
encode_segment_block block = do
  payload ← encode_payload block
  throw_if (ltb max_segment_block_payload_size (length payload)) length_error
  ok (write_frame block payload)

-- The loop over the samples. What the constructor of `Sample` throws is answered by `std::nullopt`.
unfoldable pub read_samples : ℕ → List Sample → ByteReader → Option (List Sample × ByteReader)
read_samples zero samples reader = some (samples, reader)
read_samples (suc rounds) samples reader = read_u64 reader >>=? λ (time_bits, reader).
    read_u64 reader >>=? λ (value_bits, reader).
    to_option (make_sample (timestamp_of_bits time_bits) value_bits) >>=? λ sample.
    read_samples rounds (samples ++ (sample ∷ [])) reader

unfoldable pub decode_payload : Bytes → ℕ → Option SegmentBlock
unfolding read_samples
decode_payload payload count = read_string (reader_of payload) >>=? λ (measurement, reader).
    read_u32 reader >>=? λ (tag_count, reader).
    let sample_bytes = count * encoded_sample_size in
    none_if (ltb (remaining reader) sample_bytes) >>=? λ _.
    none_if (ltb ((remaining reader - sample_bytes) / minimum_encoded_tag_size) tag_count) >>=? λ _.
    read_ordered_tags tag_count [] reader >>=? λ (tags, reader).
    read_samples count [] reader >>=? λ (samples, reader). none_if (remaining reader != 0) >>=? λ _.
    to_option (make_series_key measurement tags) >>=? λ series.
    to_option (make_segment_block series samples)

-- The fields of the header, in the order in which they are read.
pub record BlockHeader : Type 0 where
  pub magic : ℕ
  pub version : ℕ
  pub flags : ℕ
  pub payload_length : ℕ
  pub inverted_length : ℕ
  pub count : ℕ

unfoldable pub read_header : ByteReader → Option BlockHeader
read_header reader = read_u32 reader >>=? λ (magic, reader).
    read_u16 reader >>=? λ (version, reader). read_u16 reader >>=? λ (flags, reader).
    read_u32 reader >>=? λ (payload_length, reader).
    read_u32 reader >>=? λ (inverted_length, reader). read_u32 reader >>=? λ (count, reader).
    some (record {
      magic = magic;
      version = version;
      flags = flags;
      payload_length = payload_length;
      inverted_length = inverted_length;
      count = count;
    })

-- The body of `decode_segment_block`: the block and the size of its frame, or the error.
unfoldable pub decode_frame : Bytes → Outcome SegmentBlockDecodeError (SegmentBlock × ℕ)
unfolding read_header decode_payload
decode_frame bytes = do
  throw_if (ltb (length bytes) segment_block_header_size) SegmentBlockDecodeError.incomplete_block
  header ← demand SegmentBlockDecodeError.incomplete_block (read_header (reader_of bytes))
  throw_if (header.magic != segment_block_magic) SegmentBlockDecodeError.invalid_magic
  throw_if
      (header.inverted_length != inverted header.payload_length
        || ltb max_segment_block_payload_size header.payload_length)
      SegmentBlockDecodeError.invalid_length
  let protected_size = segment_block_header_size + header.payload_length
  let total_block_size = protected_size + segment_block_checksum_size
  throw_if (ltb (length bytes) total_block_size) SegmentBlockDecodeError.incomplete_block
  let protected_bytes = take protected_size bytes
  let checksum_bytes = take segment_block_checksum_size (drop protected_size bytes)
  (stored_checksum, _) ←
      demand SegmentBlockDecodeError.incomplete_block (read_u32 (reader_of checksum_bytes))
  throw_if (stored_checksum != crc32c protected_bytes) SegmentBlockDecodeError.checksum_mismatch
  throw_if (header.version != segment_block_version) SegmentBlockDecodeError.unsupported_version
  throw_if (header.flags != segment_block_flags) SegmentBlockDecodeError.unsupported_flags
  throw_if (header.count == 0 || ltb max_samples_per_segment_block header.count)
      SegmentBlockDecodeError.invalid_sample_count
  let payload = take header.payload_length (drop segment_block_header_size bytes)
  block ← demand SegmentBlockDecodeError.invalid_payload (decode_payload payload header.count)
  ok (block, total_block_size)

pub record SegmentBlockDecodeResult : Type 0 where
  pub block : Option SegmentBlock
  pub error : SegmentBlockDecodeError
  pub bytes_consumed : ℕ

unfoldable pub make_decode_error : SegmentBlockDecodeError → SegmentBlockDecodeResult
make_decode_error error = record { block = none; error = error; bytes_consumed = 0 }

to_result : Outcome SegmentBlockDecodeError (SegmentBlock × ℕ) → SegmentBlockDecodeResult
unfolding make_decode_error
to_result (ok (block, size)) = record {
  block = some block;
  error = SegmentBlockDecodeError.none;
  bytes_consumed = size;
}
to_result (throw error) = make_decode_error error

unfoldable pub decode_segment_block : Bytes → SegmentBlockDecodeResult
unfolding decode_frame to_result
decode_segment_block bytes = to_result (decode_frame bytes)
