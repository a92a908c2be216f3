-- ===== src/SegmentFile/Write/File.antt =====
-- `write_segment_file` and the layout of its bytes.
use native.Mathlib.Nat.{mod-eq_of_lt}
use chronostore.Common.{
  ◌^◌, ◌<◌, ◌≤◌, ◌≡◌, refl, arith, false, List, [], ◌∷◌, ◌++◌, length, length-append,
  drop-append_of, ltb→le, All, ok, >>=-eq-ok,
}
use native.Mathlib.Nat.{zero-add}
use chronostore.Model.{Bytes, is_empty}
use chronostore.SegmentBlock.{SegmentBlock}
use chronostore.SegmentBlockCodec.Layout.{IsBlock}
use chronostore.SegmentFile.{SegmentFileMetadata, max_segment_block_count}
use chronostore.SegmentFile.Envelope.{length-encode_header, length-encode_footer}
use chronostore.SegmentFile.Index.{encode_index}
use chronostore.SegmentFile.Index.Layout.{index_bytes, encode_index-eq-ok}
use chronostore.SegmentFile.Write.{
  Encoding, has_disorder, validate_blocks, write_blocks, zeros, write_segment_file,
}
use chronostore.SegmentFile.Write.Entries.{entries_of, end_of, end_of_bounds, entries_of-IsEntry}
use chronostore.SegmentFile.Write.Layout.{
  blocks_bytes, count_of, written, write_blocks-eq-ok, segment_bytes, IsFile, end_of-blocks_bytes,
}

nonempty_length : (blocks : List SegmentBlock) → is_empty blocks ≡ false → 1 ≤ length blocks
nonempty_length [] h = cc
nonempty_length (block ∷ blocks) h = omega arith

validate_blocks-eq-ok :
    (blocks : List SegmentBlock)
    → validate_blocks blocks ≡ ok tt
    → (1 ≤ length blocks)
      × (length blocks ≤ max_segment_block_count)
      × (has_disorder blocks ≡ false)
unfolding validate_blocks
validate_blocks-eq-ok blocks h =
    ground (arith, nonempty_length blocks, ltb→le max_segment_block_count (length blocks))

abbrev start : Encoding
start = record { file_bytes = zeros 32; entries = []; sample_count = 0 }

abbrev metadata_of : List SegmentBlock → SegmentFileMetadata
metadata_of blocks = record {
  file_size = length (segment_bytes blocks);
  sample_count = count_of blocks;
  block_count = length blocks;
}

write_segment_file-segment_bytes :
    (blocks : List SegmentBlock)
    → validate_blocks blocks ≡ ok tt
    → write_blocks start blocks ≡ ok (written start blocks)
    → encode_index (entries_of 32 blocks) ≡ ok (index_bytes (entries_of 32 blocks))
    → length blocks < 2 ^ 32
    → write_segment_file blocks ≡ ok (segment_bytes blocks, metadata_of blocks)
unfolding write_segment_file segment_bytes
write_segment_file-segment_bytes blocks checked looped encoded few =
    let size = length (index_bytes (entries_of 32 blocks)) in
    let offset : length (zeros 32 ++ blocks_bytes blocks) ≡ end_of 32 blocks =
      omega
        (arith, length-append (zeros 32) (blocks_bytes blocks), end_of-blocks_bytes 32 blocks) in
    rw (
      checked,
      looped,
      encoded,
      offset,
      mod-eq_of_lt few,
      length-encode_header (length blocks) (end_of 32 blocks) size,
      length-encode_footer (length blocks) (end_of 32 blocks) size,
      drop-append_of 32 (zeros 32) (blocks_bytes blocks) refl,
      zero-add (count_of blocks),
    )

-- Where the writer returns for constructed blocks, the file has the layout of `segment_bytes`, the
-- metadata its size and its counts, and the blocks are ordered and within every limit.
pub write_segment_file-eq-ok :
    (blocks : List SegmentBlock) (bytes : Bytes) (metadata : SegmentFileMetadata)
    → All IsBlock blocks
    → write_segment_file blocks ≡ ok (bytes, metadata)
    → IsFile blocks
      × (bytes ≡ segment_bytes blocks)
      × (metadata ≡ record {
        file_size = length bytes;
        sample_count = count_of blocks;
        block_count = length blocks;
      })
unfolding write_segment_file segment_bytes
write_segment_file-eq-ok blocks bytes metadata v h =
    let (_, h1, checked) = >>=-eq-ok _ (validate_blocks blocks) h in
    let (some_blocks, few, ordered) = validate_blocks-eq-ok blocks checked in
    let (encoding, h2, looped) = >>=-eq-ok _ (write_blocks start blocks) h1 in
    let (encodable, laid) = write_blocks-eq-ok start encoding blocks v looped in
    let (index, h3, encoded) = >>=-eq-ok _ (encode_index encoding.entries) h2 in
    let bounds = end_of_bounds 32 blocks encodable in
    let valid = entries_of-IsEntry 32 blocks encodable (omega arith) in
    let encoded' : encode_index (entries_of 32 blocks) ≡ ok index = (rw laid at encoded) in
    let (index_laid, index_small) =
      encode_index-eq-ok (entries_of 32 blocks) index valid encoded' in
    let result =
      write_segment_file-segment_bytes blocks checked (cc (looped, laid))
        (cc (encoded', index_laid)) (omega arith) in
    (
      record {
        encodable = encodable;
        some_blocks = some_blocks;
        block_limit = few;
        ordered = ordered;
        index_limit = index_small;
      },
      cc (h, result),
      cc (h, result),
    )
