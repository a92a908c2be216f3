-- ===== src/SegmentFile/Envelope.antt =====
-- The header and the footer of src/segment_file.cpp, written and read.
use chronostore.Common.{
  ℕ, ◌^◌, ◌<◌, ◌≤◌, ◌≡◌, refl, arith, [], ◌++◌, append-nil, append_assoc, length, take-append_of,
  ok, some, All, ltb-false, !=_self, ==_above,
}
use chronostore.Model.{Bytes, IsByte}
use chronostore.ByteCodec.{reader_of}
use chronostore.ByteCodec.Layout.{u16, u32, u64, byte_rules}
use chronostore.ByteCodec.Write.{write_laws}
use chronostore.ByteCodec.Read.{read_u16-u16, read_u32-u32, read_u64-u64}
use chronostore.Crc32c.{crc32c}
use chronostore.Crc32c.Detect.{crc32c-lt}
use chronostore.SegmentFile.{
  SegmentEnvelope, EnvelopeFields, segment_file_magic, segment_footer_magic, segment_file_version,
  segment_file_flags, max_segment_block_count, encode_header, encode_footer, read_header_fields,
  read_footer_fields, decode_header, decode_footer,
}

unfoldable header_bytes : ℕ → ℕ → ℕ → Bytes
header_bytes block_count index_offset index_size =
    u32 segment_file_magic
    ++ (u16 segment_file_version
        ++ (u16 segment_file_flags ++ (u32 block_count ++ (u64 index_offset ++ u64 index_size))))

unfoldable footer_bytes : ℕ → ℕ → ℕ → Bytes
footer_bytes block_count index_offset index_size =
    u32 segment_footer_magic
    ++ (u16 segment_file_version
        ++ (u16 segment_file_flags ++ (u64 index_offset ++ (u64 index_size ++ u32 block_count))))

abbrev fields_of : ℕ → SegmentEnvelope → ℕ → EnvelopeFields
fields_of magic envelope checksum = record {
  magic = magic;
  version = segment_file_version;
  flags = segment_file_flags;
  envelope = envelope;
  stored_checksum = checksum;
}

module _ (count offset size : ℕ) where
  abbrev envelope_of : SegmentEnvelope
  envelope_of = record { block_count = count; index_offset = offset; index_size = size }

  encode_header-header_bytes :
      encode_header count offset size
      ≡ header_bytes count offset size ++ u32 (crc32c (header_bytes count offset size))
  unfolding encode_header header_bytes
  encode_header-header_bytes = simp write_laws

  encode_footer-footer_bytes :
      encode_footer count offset size
      ≡ footer_bytes count offset size ++ u32 (crc32c (footer_bytes count offset size))
  unfolding encode_footer footer_bytes
  encode_footer-footer_bytes = simp write_laws

  pub length-encode_header : length (encode_header count offset size) ≡ 32
  unfolding header_bytes u16 u32 u64
  length-encode_header = rw encode_header-header_bytes refl

  pub length-encode_footer : length (encode_footer count offset size) ≡ 32
  unfolding footer_bytes u16 u32 u64
  length-encode_footer = rw encode_footer-footer_bytes refl

  length-header_bytes : length (header_bytes count offset size) ≡ 28
  unfolding header_bytes u16 u32 u64
  length-header_bytes = refl

  length-footer_bytes : length (footer_bytes count offset size) ≡ 28
  unfolding footer_bytes u16 u32 u64
  length-footer_bytes = refl

  header_bytes-IsByte : All IsByte (header_bytes count offset size)
  unfolding header_bytes
  header_bytes-IsByte = search byte_rules depth 12

  footer_bytes-IsByte : All IsByte (footer_bytes count offset size)
  unfolding footer_bytes
  footer_bytes-IsByte = search byte_rules depth 12

  module _ (checksum : ℕ) (c : checksum < 2 ^ 32) where
    read_header_fields-header_bytes :
        count < 2 ^ 32
        → offset < 2 ^ 64
        → size < 2 ^ 64
        → read_header_fields (reader_of (header_bytes count offset size ++ u32 checksum))
          ≡ some (fields_of segment_file_magic envelope_of checksum)
    unfolding read_header_fields header_bytes
    read_header_fields-header_bytes h k l = rw (
      append_assoc (u32 segment_file_magic) _ (u32 checksum),
      read_u32-u32 segment_file_magic 0 _ (omega arith),
      append_assoc (u16 segment_file_version) _ (u32 checksum),
      read_u16-u16 segment_file_version _ _ (omega arith),
      append_assoc (u16 segment_file_flags) _ (u32 checksum),
      read_u16-u16 segment_file_flags _ _ (omega arith),
      append_assoc (u32 count) _ (u32 checksum),
      read_u32-u32 count _ _ h,
      append_assoc (u64 offset) _ (u32 checksum),
      read_u64-u64 offset _ _ k,
      read_u64-u64 size _ _ l,
      ← append-nil (u32 checksum),
      read_u32-u32 checksum _ [] c,
    )

    read_footer_fields-footer_bytes :
        count < 2 ^ 32
        → offset < 2 ^ 64
        → size < 2 ^ 64
        → read_footer_fields (reader_of (footer_bytes count offset size ++ u32 checksum))
          ≡ some (fields_of segment_footer_magic envelope_of checksum)
    unfolding read_footer_fields footer_bytes
    read_footer_fields-footer_bytes h k l = rw (
      append_assoc (u32 segment_footer_magic) _ (u32 checksum),
      read_u32-u32 segment_footer_magic 0 _ (omega arith),
      append_assoc (u16 segment_file_version) _ (u32 checksum),
      read_u16-u16 segment_file_version _ _ (omega arith),
      append_assoc (u16 segment_file_flags) _ (u32 checksum),
      read_u16-u16 segment_file_flags _ _ (omega arith),
      append_assoc (u64 offset) _ (u32 checksum),
      read_u64-u64 offset _ _ k,
      append_assoc (u64 size) _ (u32 checksum),
      read_u64-u64 size _ _ l,
      read_u32-u32 count _ _ h,
      ← append-nil (u32 checksum),
      read_u32-u32 checksum _ [] c,
    )

  -- The header of from 1 to a million blocks is decoded to its numbers.
  pub decode_header-encode_header :
      1 ≤ count
      → count ≤ max_segment_block_count
      → offset < 2 ^ 64
      → size < 2 ^ 64
      → decode_header (encode_header count offset size) ≡ ok envelope_of
  unfolding decode_header
  decode_header-encode_header h h' k l =
      let covered = header_bytes count offset size in
      let crc = crc32c-lt covered header_bytes-IsByte in
      rw (
        length-encode_header,
        encode_header-header_bytes,
        read_header_fields-header_bytes (crc32c covered) crc (omega arith) k l,
        take-append_of 28 covered (u32 (crc32c covered)) length-header_bytes,
        !=_self (crc32c covered),
        ==_above count 0 h,
        ltb-false max_segment_block_count count h',
      )

  -- The footer is decoded to its numbers.
  pub decode_footer-encode_footer :
      count < 2 ^ 32
      → offset < 2 ^ 64
      → size < 2 ^ 64
      → decode_footer (encode_footer count offset size) ≡ ok envelope_of
  unfolding decode_footer
  decode_footer-encode_footer h k l =
      let covered = footer_bytes count offset size in
      let crc = crc32c-lt covered footer_bytes-IsByte in
      rw (
        length-encode_footer,
        encode_footer-footer_bytes,
        read_footer_fields-footer_bytes (crc32c covered) crc h k l,
        take-append_of 28 covered (u32 (crc32c covered)) length-footer_bytes,
        !=_self (crc32c covered),
      )
