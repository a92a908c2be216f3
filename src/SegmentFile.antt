-- ===== src/SegmentFile.antt =====
-- src/segment_file.cpp: the header, the footer and the index entries of a segment file. Its index,
-- the writer and the reader are the children's. `write_string`, `read_string`, `write_series_key`
-- and `read_series_key` of this file are those of ByteCodec and SeriesCodec.
pub mod Index
pub mod Write
pub mod Reader
pub mod Tiling
pub mod Envelope
pub mod RoundTrip
pub mod Stored
pub mod Lookup
use chronostore.Common.{
  ℕ, ◌+◌, ◌-◌, ◌*◌, Bool, ◌||◌, Option, none, some, List, [], ◌∷◌, length, take, ltb, ◌==◌, ◌!=◌,
  Outcome, ok, throw_if, demand, ◌>>=◌, ◌>>◌,
}
use chronostore.Common.Optional.{◌>>=◌ as ◌>>=?◌}
use chronostore.Errors.{Exception, segment_format_error}
use chronostore.Model.{Bytes, SeriesKey, Timestamp}
use chronostore.ByteCodec.{
  ByteWriter, ByteReader, reader_of, write_u16, write_u32, write_u64, read_u16, read_u32, read_u64,
}
use chronostore.Crc32c.{crc32c}

pub record SegmentIndexEntry : Type 0 where
  pub series : SeriesKey
  pub first_timestamp : Timestamp
  pub last_timestamp : Timestamp
  pub block_offset : ℕ
  pub block_size : ℕ
  pub sample_count : ℕ

pub record SegmentFileMetadata : Type 0 where
  pub file_size : ℕ
  pub sample_count : ℕ
  pub block_count : ℕ

pub record SegmentEnvelope : Type 0 where
  pub block_count : ℕ
  pub index_offset : ℕ
  pub index_size : ℕ

-- "CSGF"
abbrev pub segment_file_magic : ℕ
segment_file_magic = 0x46475343

-- "CSFT"
abbrev pub segment_footer_magic : ℕ
segment_footer_magic = 0x54465343

-- "CSIX"
abbrev pub segment_index_magic : ℕ
segment_index_magic = 0x58495343

abbrev pub segment_file_version : ℕ
segment_file_version = 1

abbrev pub segment_file_flags : ℕ
segment_file_flags = 0

abbrev pub segment_header_size : ℕ
segment_header_size = 32

abbrev pub segment_footer_size : ℕ
segment_footer_size = 32

abbrev pub segment_index_header_size : ℕ
segment_index_header_size = 20

abbrev pub checksum_size : ℕ
checksum_size = 4

abbrev pub max_index_payload_size : ℕ
max_index_payload_size = 64 * 1024 * 1024

abbrev pub max_segment_block_count : ℕ
max_segment_block_count = 1000000

unfoldable pub encode_header : ℕ → ℕ → ℕ → Bytes
encode_header block_count index_offset index_size =
    let writer = write_u32 [] segment_file_magic in
    let writer = write_u16 writer segment_file_version in
    let writer = write_u16 writer segment_file_flags in
    let writer = write_u32 writer block_count in
    let writer = write_u64 writer index_offset in
    let writer = write_u64 writer index_size in write_u32 writer (crc32c writer)

unfoldable pub encode_footer : ℕ → ℕ → ℕ → Bytes
encode_footer block_count index_offset index_size =
    let writer = write_u32 [] segment_footer_magic in
    let writer = write_u16 writer segment_file_version in
    let writer = write_u16 writer segment_file_flags in
    let writer = write_u64 writer index_offset in
    let writer = write_u64 writer index_size in
    let writer = write_u32 writer block_count in write_u32 writer (crc32c writer)

-- The fields of the header or the footer as they are read.
pub record EnvelopeFields : Type 0 where
  pub magic : ℕ
  pub version : ℕ
  pub flags : ℕ
  pub envelope : SegmentEnvelope
  pub stored_checksum : ℕ

unfoldable pub read_header_fields : ByteReader → Option EnvelopeFields
read_header_fields reader = read_u32 reader >>=? λ (magic, reader).
    read_u16 reader >>=? λ (version, reader). read_u16 reader >>=? λ (flags, reader).
    read_u32 reader >>=? λ (block_count, reader). read_u64 reader >>=? λ (index_offset, reader).
    read_u64 reader >>=? λ (index_size, reader). read_u32 reader >>=? λ (stored_checksum, reader).
    some (record {
      magic = magic;
      version = version;
      flags = flags;
      envelope = record {
        block_count = block_count;
        index_offset = index_offset;
        index_size = index_size;
      };
      stored_checksum = stored_checksum;
    })

unfoldable pub read_footer_fields : ByteReader → Option EnvelopeFields
read_footer_fields reader = read_u32 reader >>=? λ (magic, reader).
    read_u16 reader >>=? λ (version, reader). read_u16 reader >>=? λ (flags, reader).
    read_u64 reader >>=? λ (index_offset, reader). read_u64 reader >>=? λ (index_size, reader).
    read_u32 reader >>=? λ (block_count, reader). read_u32 reader >>=? λ (stored_checksum, reader).
    some (record {
      magic = magic;
      version = version;
      flags = flags;
      envelope = record {
        block_count = block_count;
        index_offset = index_offset;
        index_size = index_size;
      };
      stored_checksum = stored_checksum;
    })

unfoldable pub decode_header : Bytes → Outcome Exception SegmentEnvelope
unfolding read_header_fields
decode_header bytes = do
  throw_if (length bytes != segment_header_size) segment_format_error
  fields ← demand segment_format_error (read_header_fields (reader_of bytes))
  throw_if (fields.magic != segment_file_magic) segment_format_error
  throw_if (fields.stored_checksum != crc32c (take (segment_header_size - checksum_size) bytes))
      segment_format_error
  throw_if (fields.version != segment_file_version || fields.flags != segment_file_flags)
      segment_format_error
  throw_if
      (fields.envelope.block_count == 0 || ltb max_segment_block_count fields.envelope.block_count)
      segment_format_error
  ok fields.envelope

unfoldable pub decode_footer : Bytes → Outcome Exception SegmentEnvelope
unfolding read_footer_fields
decode_footer bytes = do
  throw_if (length bytes != segment_footer_size) segment_format_error
  fields ← demand segment_format_error (read_footer_fields (reader_of bytes))
  throw_if (fields.magic != segment_footer_magic) segment_format_error
  throw_if (fields.stored_checksum != crc32c (take (segment_footer_size - checksum_size) bytes))
      segment_format_error
  throw_if (fields.version != segment_file_version || fields.flags != segment_file_flags)
      segment_format_error
  ok fields.envelope
