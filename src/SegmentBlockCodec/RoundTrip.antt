-- ===== src/SegmentBlockCodec/RoundTrip.antt =====
-- The encoder and the decoder of src/segment_block_codec.cpp, one after the other.
use chronostore.Common.{
  ℕ, ◌+◌, ◌-◌, ◌*◌, ◌/◌, ◌^◌, ◌<◌, ◌≤◌, ◌≡◌, refl, ap, arith, List, [], ◌∷◌, ◌++◌, append-nil,
  append_assoc, length, length-append, take, drop, take-append_of, drop-append_of, ok, some, All,
  ltb-false, !=_self, ==_above,
}
use chronostore.Bits.{xor_lt}
use chronostore.Errors.{SegmentBlockDecodeError}
use chronostore.Model.{Bytes, Sample, IsSample}
use chronostore.Model.Canonical.{make_series_key_self}
use chronostore.ByteCodec.{reader_of, remaining, read_u32}
use chronostore.ByteCodec.Layout.{u16, u32, length-u32, string_bytes}
use chronostore.ByteCodec.Read.{reader_at, read_u16-u16, read_u32-u32, read_u64-u64}
use chronostore.ByteCodec.Strings.{read_string-string_bytes}
use chronostore.Crc32c.{crc32c}
use chronostore.Crc32c.Detect.{crc32c-lt}
use chronostore.SeriesCodec.{timestamp_bits}
use chronostore.SeriesCodec.Layout.{
  tags_bytes, series_bytes, length-tags_bytes, length-series_bytes,
}
use chronostore.SeriesCodec.RoundTrip.{
  timestamp_of_bits_lem, make_sample_self, read_ordered_tags-tags_bytes,
}
use chronostore.SegmentBlock.{SegmentBlock}
use chronostore.SegmentBlockCodec.{
  BlockHeader, segment_block_magic, segment_block_version, segment_block_flags,
  max_segment_block_payload_size, inverted, read_samples, read_header, decode_payload, decode_frame,
  decode_segment_block, encode_segment_block,
}
use chronostore.SegmentBlockCodec.Layout.{
  IsBlock, samples_bytes, payload_bytes, header_bytes, protected_bytes, block_bytes,
  length-samples_bytes, length-header_bytes, length-payload_bytes, length-protected_bytes,
  length-block_bytes, protected_bytes-IsByte, sample_count_bounds, encode_segment_block-eq-ok,
}

abbrev end_of_samples : ℕ → List Sample → ℕ
end_of_samples position [] = position
end_of_samples position (sample ∷ samples) = end_of_samples (position + 8 + 8) samples

read_samples-samples_bytes :
    (samples before : List Sample) (position : ℕ)
    → All IsSample samples
    → read_samples (length samples) before (reader_at position (samples_bytes samples))
      ≡ some (before ++ samples, reader_at (end_of_samples position samples) [])
unfolding read_samples
read_samples-samples_bytes [] before position v = rw append-nil
read_samples-samples_bytes (sample ∷ samples) before position v =
    let time = timestamp_of_bits_lem sample.timestamp v.0.timestamp_fits in
    rw (
      read_u64-u64 (timestamp_bits sample.timestamp) position _ time.0,
      read_u64-u64 sample.value _ (samples_bytes samples) v.0.value_fits,
      time.1,
      make_sample_self sample v.0,
      read_samples-samples_bytes samples (before ++ (sample ∷ [])) _ v.1,
      append_assoc before (sample ∷ []) samples,
    )

payload_in_line :
    (block : SegmentBlock)
    → payload_bytes block
      ≡ string_bytes block.series.measurement
        ++ (u32 (length block.series.tags)
            ++ (tags_bytes block.series.tags ++ samples_bytes block.samples))
unfolding payload_bytes series_bytes
payload_in_line block = simp append_assoc

decode_payload-payload_bytes :
    (block : SegmentBlock)
    → IsBlock block
    → length (payload_bytes block) < 2 ^ 32
    → decode_payload (payload_bytes block) (length block.samples) ≡ some block
unfolding decode_payload remaining
decode_payload-payload_bytes block v h =
    let series = block.series in
    let total = length-series_bytes series in
    let payload = length-payload_bytes block in
    let tags_long = length-tags_bytes series.tags in
    let count = length block.samples * 16 in
    let rest = tags_bytes series.tags ++ samples_bytes block.samples in
    let left : length rest ≡ length (tags_bytes series.tags) + count = omega (
      arith,
      length-append (tags_bytes series.tags) (samples_bytes block.samples),
      length-samples_bytes block.samples,
    ) in
    rw (
      payload_in_line block,
      read_string-string_bytes series.measurement 0 _ v.series_valid.measurement_bytes
          (omega arith),
      read_u32-u32 (length series.tags) _ _ (omega arith),
      ltb-false (length rest) count (omega arith),
      ltb-false ((length rest - count) / 8) (length series.tags) (omega arith),
      read_ordered_tags-tags_bytes series.tags [] _ (samples_bytes block.samples)
          v.series_valid.tags_valid v.series_valid.keys_increase (omega arith),
      read_samples-samples_bytes block.samples [] _ v.samples_valid,
      make_series_key_self series v.series_valid,
      v.constructed,
    )

abbrev header_of : ℕ → ℕ → BlockHeader
header_of n count = record {
  magic = segment_block_magic;
  version = segment_block_version;
  flags = segment_block_flags;
  payload_length = n;
  inverted_length = inverted n;
  count = count;
}

read_header-header_bytes :
    (n count : ℕ) (rest : Bytes)
    → n < 2 ^ 32
    → count < 2 ^ 32
    → read_header (reader_of (header_bytes n count ++ rest)) ≡ some (header_of n count)
unfolding read_header header_bytes
read_header-header_bytes n count rest h k = rw (
  append_assoc (u32 segment_block_magic) _ rest,
  read_u32-u32 segment_block_magic 0 _ (omega arith),
  append_assoc (u16 segment_block_version) _ rest,
  read_u16-u16 segment_block_version _ _ (omega arith),
  append_assoc (u16 segment_block_flags) _ rest,
  read_u16-u16 segment_block_flags _ _ (omega arith),
  append_assoc (u32 n) _ rest,
  read_u32-u32 n _ _ h,
  append_assoc (u32 (inverted n)) _ rest,
  read_u32-u32 (inverted n) _ _ (xor_lt 32 n 0xFFFFFFFF h (omega arith)),
  read_u32-u32 count _ rest k,
)

module _ (block : SegmentBlock) (rest : Bytes) where
  abbrev payload : Bytes
  payload = payload_bytes block

  abbrev stored : Bytes
  stored = u32 (crc32c (protected_bytes block))

  abbrev framed : Bytes
  framed = block_bytes block ++ rest

  framed_protected : framed ≡ protected_bytes block ++ (stored ++ rest)
  unfolding block_bytes
  framed_protected = append_assoc (protected_bytes block) stored rest

  framed_header :
      framed ≡ header_bytes (length payload) (length block.samples) ++ (payload ++ (stored ++ rest))
  unfolding block_bytes protected_bytes
  framed_header = simp append_assoc

  take_protected : take (20 + length payload) framed ≡ protected_bytes block
  take_protected =
      rw framed_protected
        (take-append_of _ (protected_bytes block) _ (length-protected_bytes block))

  drop_protected : drop (20 + length payload) framed ≡ stored ++ rest
  drop_protected =
      rw framed_protected
        (drop-append_of _ (protected_bytes block) _ (length-protected_bytes block))

  take-payload : take (length payload) (drop 20 framed) ≡ payload
  take-payload =
      rw
        (framed_header, drop-append_of 20 _ (payload ++ (stored ++ rest)) (length-header_bytes _ _))
        (take-append_of _ payload _ refl)

  stored_read :
      crc32c (protected_bytes block) < 2 ^ 32
      → read_u32 (reader_of stored) ≡ some (crc32c (protected_bytes block), reader_at 4 [])
  stored_read h = rw append-nil at (read_u32-u32 (crc32c (protected_bytes block)) 0 [] h)

  -- A complete frame of a constructed block is decoded to the block, whatever follows it.
  pub decode_frame-block_bytes :
      IsBlock block
      → length payload ≤ max_segment_block_payload_size
      → decode_frame framed ≡ ok (block, 24 + length payload)
  unfolding decode_frame
  decode_frame-block_bytes v h =
      let n = length payload in
      let long : length framed ≡ 24 + n + length rest =
        omega (arith, length-append (block_bytes block) rest, length-block_bytes block) in
      let bounds = sample_count_bounds block v in
      let crc = crc32c-lt (protected_bytes block) (protected_bytes-IsByte block v.series_valid) in
      let header =
        read_header-header_bytes n (length block.samples) (payload ++ (stored ++ rest))
          (omega arith) (omega arith) in
      let header' = (rw (← framed_header) at header) in
      rw
        (
          ltb-false (length framed) 20 (omega arith),
          header',
          !=_self (inverted n),
          ltb-false max_segment_block_payload_size n h,
          ltb-false (length framed) (20 + n + 4) (omega arith),
          drop_protected,
          take-append_of 4 stored rest (length-u32 (crc32c (protected_bytes block))),
          stored_read crc,
          take_protected,
          !=_self (crc32c (protected_bytes block)),
          ==_above (length block.samples) 0 bounds.0,
          ltb-false 256 (length block.samples) bounds.1,
          take-payload,
          decode_payload-payload_bytes block v (omega arith),
        )
        (ap (λ (size : ℕ). ok (block, size)) (omega arith))

-- The layout of a constructed block within the limit is decoded to the block.
pub decode_segment_block-block_bytes :
    (block : SegmentBlock) (rest : Bytes)
    → IsBlock block
    → length (payload_bytes block) ≤ max_segment_block_payload_size
    → decode_segment_block (block_bytes block ++ rest) ≡ record {
      block = some block;
      error = SegmentBlockDecodeError.none;
      bytes_consumed = length (block_bytes block);
    }
unfolding decode_segment_block
decode_segment_block-block_bytes block rest v fits =
    rw (decode_frame-block_bytes block rest v fits, length-block_bytes block)

-- A constructed block that the encoder accepts is decoded to itself, whatever follows its frame, and
-- exactly the frame is consumed.
pub decode_segment_block-encode_segment_block :
    (block : SegmentBlock) (bytes rest : Bytes)
    → IsBlock block
    → encode_segment_block block ≡ ok bytes
    → decode_segment_block (bytes ++ rest) ≡ record {
      block = some block;
      error = SegmentBlockDecodeError.none;
      bytes_consumed = length bytes;
    }
decode_segment_block-encode_segment_block block bytes rest v e =
    let (layout, fits) = encode_segment_block-eq-ok block bytes v e in
    rw layout (decode_segment_block-block_bytes block rest v fits)
