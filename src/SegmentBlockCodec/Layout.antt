-- ===== src/SegmentBlockCodec/Layout.antt =====
-- The documented frame of a segment block, and the encoder of src/segment_block_codec.cpp.
use native.Mathlib.Nat.{mod-eq_of_lt}
use chronostore.Common.{
  ℕ, ◌+◌, ◌*◌, ◌^◌, ◌<◌, ◌≤◌, ◌≡◌, refl, ap, sym, ◌∙◌, arith, List, [], ◌∷◌, ◌++◌, append-nil,
  length, length-append, ltb, ok, >>=-eq-ok, >>-eq-ok, ltb→le, All, false,
}
use chronostore.Model.{Bytes, Sample, IsByte, IsSeries, IsSample, is_empty}
use chronostore.ByteCodec.{ByteWriter}
use chronostore.ByteCodec.Layout.{u16, u32, u64, length-u32, length-u64, byte_rules}
use chronostore.ByteCodec.Write.{write_laws}
use chronostore.Crc32c.{crc32c}
use chronostore.SeriesCodec.{timestamp_bits, write_series_key}
use chronostore.SeriesCodec.Layout.{series_bytes, series_bytes-IsByte, write_series_key-eq-ok}
use chronostore.SegmentBlock.{SegmentBlock, make_segment_block, sample_count}
use chronostore.SegmentBlockCodec.{
  segment_block_magic, segment_block_version, segment_block_flags, max_segment_block_payload_size,
  inverted, write_samples, write_frame, encode_payload, encode_segment_block,
}

-- A block as its constructor leaves it: its samples are valid and pass the constructor's tests.
pub record IsBlock (block : SegmentBlock) : Type 0 where
  pub series_valid : IsSeries block.series
  pub samples_valid : All IsSample block.samples
  pub constructed : make_segment_block block.series block.samples ≡ ok block

abbrev pub samples_bytes : List Sample → Bytes
samples_bytes [] = []
samples_bytes (sample ∷ samples) =
    u64 (timestamp_bits sample.timestamp) ++ (u64 sample.value ++ samples_bytes samples)

unfoldable pub payload_bytes : SegmentBlock → Bytes
payload_bytes block = series_bytes block.series ++ samples_bytes block.samples

unfoldable pub header_bytes : ℕ → ℕ → Bytes
header_bytes payload_length count =
    u32 segment_block_magic
    ++ (u16 segment_block_version
        ++ (u16 segment_block_flags
            ++ (u32 payload_length ++ (u32 (inverted payload_length) ++ u32 count))))

-- The bytes that the checksum covers.
unfoldable pub protected_bytes : SegmentBlock → Bytes
protected_bytes block =
    header_bytes (length (payload_bytes block)) (length block.samples) ++ payload_bytes block

unfoldable pub block_bytes : SegmentBlock → Bytes
block_bytes block = protected_bytes block ++ u32 (crc32c (protected_bytes block))

pub length-samples_bytes :
    (samples : List Sample) → length (samples_bytes samples) ≡ length samples * 16
length-samples_bytes [] = refl
length-samples_bytes (sample ∷ samples) =
    let time = u64 (timestamp_bits sample.timestamp) in
    let value = u64 sample.value in
    omega (
      arith,
      length-append time (value ++ samples_bytes samples),
      length-append value (samples_bytes samples),
      length-u64 (timestamp_bits sample.timestamp),
      length-u64 sample.value,
      length-samples_bytes samples,
    )

pub length-header_bytes : (n count : ℕ) → length (header_bytes n count) ≡ 20
unfolding header_bytes u16 u32
length-header_bytes n count = refl

pub length-payload_bytes :
    (block : SegmentBlock)
    → length (payload_bytes block) ≡ length (series_bytes block.series) + length block.samples * 16
unfolding payload_bytes
length-payload_bytes block = omega (
  arith,
  length-append (series_bytes block.series) (samples_bytes block.samples),
  length-samples_bytes block.samples,
)

pub length-protected_bytes :
    (block : SegmentBlock) → length (protected_bytes block) ≡ 20 + length (payload_bytes block)
unfolding protected_bytes
length-protected_bytes block =
    let header = header_bytes (length (payload_bytes block)) (length block.samples) in
    omega (
      arith,
      length-append header (payload_bytes block),
      length-header_bytes (length (payload_bytes block)) (length block.samples),
    )

pub length-block_bytes :
    (block : SegmentBlock) → length (block_bytes block) ≡ 24 + length (payload_bytes block)
unfolding block_bytes
length-block_bytes block =
    let checksum = crc32c (protected_bytes block) in
    omega (
      arith,
      length-append (protected_bytes block) (u32 checksum),
      length-protected_bytes block,
      length-u32 checksum,
    )

samples_bytes-IsByte : (samples : List Sample) → All IsByte (samples_bytes samples)
samples_bytes-IsByte [] = tt
samples_bytes-IsByte (sample ∷ samples) = search (byte_rules, samples_bytes-IsByte samples)

pub protected_bytes-IsByte :
    (block : SegmentBlock) → IsSeries block.series → All IsByte (protected_bytes block)
unfolding protected_bytes header_bytes payload_bytes
protected_bytes-IsByte block v =
    search (byte_rules, series_bytes-IsByte block.series v, samples_bytes-IsByte) depth 12

nonempty_length : (samples : List Sample) → is_empty samples ≡ false → 1 ≤ length samples
nonempty_length [] h = cc
nonempty_length (sample ∷ samples) h = omega arith

-- A constructed block has from 1 to 256 samples.
pub sample_count_bounds :
    (block : SegmentBlock)
    → IsBlock block
    → (1 ≤ length block.samples) × (length block.samples ≤ 256)
unfolding make_segment_block
sample_count_bounds block v =
    let (some_samples, h) = >>-eq-ok (is_empty block.samples) _ _ v.constructed in
    let (few, _) = >>-eq-ok (ltb 256 (length block.samples)) _ _ h in
    (nonempty_length block.samples some_samples, ltb→le 256 (length block.samples) few)

write_samples-samples_bytes :
    (samples : List Sample) (writer : ByteWriter)
    → write_samples writer samples ≡ writer ++ samples_bytes samples
unfolding write_samples
write_samples-samples_bytes [] writer = sym (append-nil writer)
write_samples-samples_bytes (sample ∷ samples) writer =
    write_samples-samples_bytes samples _ ∙ simp write_laws

encode_payload-eq-ok :
    (block : SegmentBlock) (payload : ByteWriter)
    → IsSeries block.series
    → encode_payload block ≡ ok payload
    → payload ≡ payload_bytes block
unfolding encode_payload payload_bytes
encode_payload-eq-ok block payload v h =
    let (writer, h', e) = >>=-eq-ok _ (write_series_key [] block.series) h in
    let laid : writer ≡ series_bytes block.series = write_series_key-eq-ok _ _ writer v e in
    let written = write_samples-samples_bytes block.samples writer in cc (h', laid, written)

write_frame-block_bytes :
    (block : SegmentBlock)
    → length (payload_bytes block) < 2 ^ 32
    → length block.samples < 2 ^ 32
    → write_frame block (payload_bytes block) ≡ block_bytes block
unfolding write_frame block_bytes protected_bytes header_bytes sample_count
write_frame-block_bytes block short few =
    rw (mod-eq_of_lt short, mod-eq_of_lt few) (simp write_laws)

-- Whenever a constructed block is encoded, it is laid out as documented, and its payload is within
-- the limit of 16 MiB.
pub encode_segment_block-eq-ok :
    (block : SegmentBlock) (bytes : Bytes)
    → IsBlock block
    → encode_segment_block block ≡ ok bytes
    → (bytes ≡ block_bytes block) × (length (payload_bytes block) ≤ max_segment_block_payload_size)
unfolding encode_segment_block
encode_segment_block-eq-ok block bytes v h =
    let (payload, h1, encoded) = >>=-eq-ok _ (encode_payload block) h in
    let (small, h2) = >>-eq-ok (ltb max_segment_block_payload_size (length payload)) _ _ h1 in
    let laid = encode_payload-eq-ok block payload v.series_valid encoded in
    let size = ap length laid in
    let fits = ltb→le max_segment_block_payload_size (length payload) small in
    let bounds = sample_count_bounds block v in
    let framed = write_frame-block_bytes block (omega arith) (omega arith) in
    (cc (h2, laid, framed), omega arith)
