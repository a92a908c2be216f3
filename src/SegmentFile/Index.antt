-- ===== src/SegmentFile/Index.antt =====
-- src/segment_file.cpp: `encode_index`, `validate_index` and `decode_index`.
pub mod Layout
pub mod RoundTrip
use Prim.Native.Nat.{bit_xor}
use chronostore.Common.{
  ℕ, zero, suc, ◌+◌, ◌-◌, ◌%◌, ◌^◌, Bool, false, ◌||◌, ◌&&◌, Option, none, some, List, [], ◌∷◌,
  ◌++◌, length, take, drop, ltb, ◌==◌, ◌!=◌, Outcome, ok, throw_if, demand, ◌>>=◌, ◌>>◌,
}
use chronostore.Common.Optional.{◌>>=◌ as ◌>>=?◌}
use chronostore.Order.{is_lt, is_le, is_eq, int_ord}
use chronostore.Errors.{Exception, length_error, segment_format_error}
use chronostore.Model.{Bytes, series_ord}
use chronostore.ByteCodec.{
  ByteWriter, ByteReader, reader_of, remaining, write_u16, write_u32, write_u64, write_bytes,
  read_u16, read_u32, read_u64,
}
use chronostore.Crc32c.{crc32c}
use chronostore.SeriesCodec.{timestamp_bits, timestamp_of_bits, write_series_key, read_series_key}
use chronostore.SegmentBlock.{max_samples_per_segment_block}
use chronostore.SegmentFile.{
  SegmentIndexEntry, segment_index_magic, segment_file_version, segment_file_flags,
  segment_header_size, segment_index_header_size, checksum_size, max_index_payload_size,
  max_segment_block_count,
}

abbrev pub inverted_size : ℕ → ℕ
inverted_size payload_size = bit_xor payload_size 0xFFFFFFFF

-- The loop over the entries.
unfoldable pub write_entries : ByteWriter → List SegmentIndexEntry → Outcome Exception ByteWriter
write_entries payload [] = ok payload
write_entries payload (entry ∷ entries) = do
  let payload = write_u64 payload entry.block_offset
  let payload = write_u32 payload entry.block_size
  let payload = write_u32 payload entry.sample_count
  let payload = write_u64 payload (timestamp_bits entry.first_timestamp)
  let payload = write_u64 payload (timestamp_bits entry.last_timestamp)
  payload ← write_series_key payload entry.series
  write_entries payload entries

unfoldable pub write_index : ℕ → Bytes → ByteWriter
write_index entry_count payload =
    let payload_size = length payload % 2 ^ 32 in
    let writer = write_u32 [] segment_index_magic in
    let writer = write_u16 writer segment_file_version in
    let writer = write_u16 writer segment_file_flags in
    let writer = write_u32 writer (entry_count % 2 ^ 32) in
    let writer = write_u32 writer payload_size in
    let writer = write_u32 writer (inverted_size payload_size) in
    let writer = write_bytes writer payload in write_u32 writer (crc32c writer)

unfoldable pub encode_index : List SegmentIndexEntry → Outcome Exception Bytes
unfolding write_entries write_index
encode_index entries = do
  payload ← write_entries [] entries
  throw_if (ltb max_index_payload_size (length payload)) length_error
  ok (write_index (length entries) payload)

-- The test of an entry's fields, with the offset where its block has to be.
unfoldable pub is_invalid_entry : ℕ → ℕ → SegmentIndexEntry → Bool
is_invalid_entry expected_offset index_offset entry =
    entry.block_offset != expected_offset
    || ltb index_offset entry.block_offset
    || entry.block_size == 0
    || entry.sample_count == 0
    || ltb max_samples_per_segment_block entry.sample_count
    || is_lt entry.last_timestamp entry.first_timestamp

-- The test of an entry against the one before it, for every entry but the first.
unfoldable pub is_out_of_order : Option SegmentIndexEntry → SegmentIndexEntry → Bool
is_out_of_order none entry = false
is_out_of_order (some previous) entry =
    is_lt entry.series previous.series
    || is_eq entry.series previous.series && is_le entry.first_timestamp previous.last_timestamp

-- The loop, from an expected offset and a previous entry on. No sum overflows, since a block ends
-- before `index_offset`.
unfoldable pub validate_entries :
    ℕ → ℕ → Option SegmentIndexEntry → List SegmentIndexEntry → Outcome Exception (Unit {0})
unfolding is_invalid_entry is_out_of_order
validate_entries index_offset expected_offset previous [] =
    throw_if (expected_offset != index_offset) segment_format_error
validate_entries index_offset expected_offset previous (entry ∷ entries) =
    throw_if (is_invalid_entry expected_offset index_offset entry) segment_format_error
    >> throw_if (ltb (index_offset - entry.block_offset) entry.block_size) segment_format_error
    >> throw_if (is_out_of_order previous entry) segment_format_error
    >> validate_entries index_offset (expected_offset + entry.block_size) (some entry) entries

unfoldable pub validate_index : List SegmentIndexEntry → ℕ → Outcome Exception (Unit {0})
unfolding validate_entries
validate_index entries index_offset = validate_entries index_offset segment_header_size none entries

-- The fields of the index header, in the order in which they are read.
pub record IndexHeader : Type 0 where
  pub magic : ℕ
  pub version : ℕ
  pub flags : ℕ
  pub entry_count : ℕ
  pub payload_size : ℕ
  pub inverted : ℕ

unfoldable pub read_index_header : ByteReader → Option IndexHeader
read_index_header reader = read_u32 reader >>=? λ (magic, reader).
    read_u16 reader >>=? λ (version, reader). read_u16 reader >>=? λ (flags, reader).
    read_u32 reader >>=? λ (entry_count, reader). read_u32 reader >>=? λ (payload_size, reader).
    read_u32 reader >>=? λ (inverted, reader). some (record {
      magic = magic;
      version = version;
      flags = flags;
      entry_count = entry_count;
      payload_size = payload_size;
      inverted = inverted;
    })

unfoldable pub read_entry : ByteReader → Option (SegmentIndexEntry × ByteReader)
read_entry reader = read_u64 reader >>=? λ (block_offset, reader).
    read_u32 reader >>=? λ (block_size, reader). read_u32 reader >>=? λ (sample_count, reader).
    read_u64 reader >>=? λ (first_timestamp_bits, reader).
    read_u64 reader >>=? λ (last_timestamp_bits, reader).
    read_series_key reader >>=? λ (series, reader). some (
      record {
        series = series;
        first_timestamp = timestamp_of_bits first_timestamp_bits;
        last_timestamp = timestamp_of_bits last_timestamp_bits;
        block_offset = block_offset;
        block_size = block_size;
        sample_count = sample_count;
      },
      reader,
    )

unfoldable pub read_entries :
    ℕ → List SegmentIndexEntry → ByteReader → Option (List SegmentIndexEntry × ByteReader)
unfolding read_entry
read_entries zero entries reader = some (entries, reader)
read_entries (suc rounds) entries reader =
    read_entry reader >>=? λ (entry, reader). read_entries rounds (entries ++ (entry ∷ [])) reader

unfoldable pub decode_index : Bytes → ℕ → ℕ → Outcome Exception (List SegmentIndexEntry)
unfolding read_index_header read_entries validate_index
decode_index bytes expected_entry_count index_offset = do
  throw_if (ltb (length bytes) (segment_index_header_size + checksum_size)) segment_format_error
  header ← demand segment_format_error (read_index_header (reader_of bytes))
  throw_if
      (header.magic != segment_index_magic
        || header.version != segment_file_version
        || header.flags != segment_file_flags)
      segment_format_error
  throw_if
      (header.entry_count != expected_entry_count
        || header.entry_count == 0
        || ltb max_segment_block_count header.entry_count
        || header.inverted != inverted_size header.payload_size
        || ltb max_index_payload_size header.payload_size)
      segment_format_error
  throw_if (length bytes != segment_index_header_size + header.payload_size + checksum_size)
      segment_format_error
  let protected_size = length bytes - checksum_size
  (stored_checksum, _) ←
      demand segment_format_error (read_u32 (reader_of (drop protected_size bytes)))
  throw_if (stored_checksum != crc32c (take protected_size bytes)) segment_format_error
  let payload = take header.payload_size (drop segment_index_header_size bytes)
  (entries, reader) ←
      demand segment_format_error (read_entries header.entry_count [] (reader_of payload))
  throw_if (remaining reader != 0) segment_format_error
  validate_index entries index_offset
  ok entries
