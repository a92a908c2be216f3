-- ===== src/SegmentFile/Write/Layout.antt =====
-- The parts of a segment file, and the loop of `write_segment_file`.
use native.Mathlib.Nat.{mod-eq_of_lt}
use chronostore.Common.{
  ℕ, ◌+◌, ◌-◌, ◌*◌, ◌^◌, ◌<◌, ◌≤◌, ◌≡◌, ◌∙◌, arith, false, List, [], ◌∷◌, ◌++◌, append-nil,
  append_assoc, length, length-append, ltb, All, ok, >>=-eq-ok, >>-eq-ok,
}
use chronostore.Model.{Bytes}
use chronostore.SegmentBlock.{SegmentBlock, sample_count}
use chronostore.SegmentBlockCodec.{encode_segment_block}
use chronostore.SegmentBlockCodec.Layout.{
  IsBlock, block_bytes, length-block_bytes, sample_count_bounds, encode_segment_block-eq-ok,
}
use chronostore.SegmentFile.{max_segment_block_count, encode_header, encode_footer}
use chronostore.SegmentFile.Envelope.{length-encode_header, length-encode_footer}
use chronostore.SegmentFile.Index.Layout.{entries_bytes, index_bytes}
use chronostore.SegmentFile.Write.{Encoding, has_disorder, write_blocks}
use chronostore.SegmentFile.Write.Entries.{IsEncodable, entry_of, entries_of, end_of, end_of_bounds}

abbrev pub blocks_bytes : List SegmentBlock → Bytes
blocks_bytes [] = []
blocks_bytes (block ∷ blocks) = block_bytes block ++ blocks_bytes blocks

abbrev pub count_of : List SegmentBlock → ℕ
count_of [] = 0
count_of (block ∷ blocks) = length block.samples + count_of blocks

pub end_of-blocks_bytes :
    (offset : ℕ) (blocks : List SegmentBlock)
    → end_of offset blocks ≡ offset + length (blocks_bytes blocks)
end_of-blocks_bytes offset [] = omega arith
end_of-blocks_bytes offset (block ∷ blocks) = omega (
  arith,
  length-append (block_bytes block) (blocks_bytes blocks),
  end_of-blocks_bytes (offset + length (block_bytes block)) blocks,
)

-- The loop appends the blocks, their entries and their count.
abbrev pub written : Encoding → List SegmentBlock → Encoding
written encoding blocks = record {
  file_bytes = encoding.file_bytes ++ blocks_bytes blocks;
  entries = encoding.entries ++ entries_of (length encoding.file_bytes) blocks;
  sample_count = encoding.sample_count + count_of blocks;
}

-- One round of the loop.
abbrev grown : Encoding → SegmentBlock → Encoding
grown encoding block = record {
  file_bytes = encoding.file_bytes ++ block_bytes block;
  entries = encoding.entries ++ (entry_of (length encoding.file_bytes) block ∷ []);
  sample_count = encoding.sample_count + length block.samples;
}

written-grown :
    (encoding : Encoding) (block : SegmentBlock) (blocks : List SegmentBlock)
    → written (grown encoding block) blocks ≡ written encoding (block ∷ blocks)
written-grown encoding block blocks =
    let long = length-append encoding.file_bytes (block_bytes block) in
    let count : encoding.sample_count + length block.samples + count_of blocks
        ≡ encoding.sample_count + (length block.samples + count_of blocks) =
      omega arith in
    rw (
      append_assoc encoding.file_bytes (block_bytes block) (blocks_bytes blocks),
      long,
      append_assoc encoding.entries (entry_of (length encoding.file_bytes) block ∷ []),
      count,
    )

write_block-eq-ok :
    (encoding result : Encoding) (block : SegmentBlock) (blocks : List SegmentBlock)
    → IsBlock block
    → write_blocks encoding (block ∷ blocks) ≡ ok result
    → IsEncodable block × (write_blocks (grown encoding block) blocks ≡ ok result)
unfolding write_blocks sample_count
write_block-eq-ok encoding result block blocks v h =
    let (encoded, h1, e) = >>=-eq-ok _ (encode_segment_block block) h in
    let (layout, fits) = encode_segment_block-eq-ok block encoded v e in
    let (_, h2) = >>-eq-ok (ltb (2 ^ 32 - 1) (length encoded)) _ _ h1 in
    let size = length-block_bytes block in
    let few = sample_count_bounds block v in
    let small : length (block_bytes block) < 2 ^ 32 = omega arith in
    let short : length block.samples < 2 ^ 32 = omega arith in
    ((v, fits), (rw (layout, mod-eq_of_lt small, mod-eq_of_lt short) at h2))

pub write_blocks-eq-ok :
    (encoding result : Encoding) (blocks : List SegmentBlock)
    → All IsBlock blocks
    → write_blocks encoding blocks ≡ ok result
    → All IsEncodable blocks × (result ≡ written encoding blocks)
unfolding write_blocks
write_blocks-eq-ok encoding result [] v h =
    let none_added : encoding.sample_count + 0 ≡ encoding.sample_count = omega arith in
    (tt, rw (append-nil encoding.file_bytes, append-nil encoding.entries, none_added) (cc h))
write_blocks-eq-ok encoding result (block ∷ blocks) v h =
    let (encodable, h') = write_block-eq-ok encoding result block blocks v.0 h in
    let (rest, laid) = write_blocks-eq-ok (grown encoding block) result blocks v.1 h' in
    ((encodable, rest), laid ∙ written-grown encoding block blocks)

-- The bytes of the file: the header, the blocks, the index and the footer.
unfoldable pub segment_bytes : List SegmentBlock → Bytes
segment_bytes blocks =
    let index = index_bytes (entries_of 32 blocks) in
    let offset = end_of 32 blocks in
    encode_header (length blocks) offset (length index)
    ++ (blocks_bytes blocks ++ (index ++ encode_footer (length blocks) offset (length index)))

pub length-segment_bytes :
    (blocks : List SegmentBlock)
    → length (segment_bytes blocks)
      ≡ end_of 32 blocks + length (index_bytes (entries_of 32 blocks)) + 32
unfolding segment_bytes
length-segment_bytes blocks =
    let index = index_bytes (entries_of 32 blocks) in
    let offset = end_of 32 blocks in
    let header = encode_header (length blocks) offset (length index) in
    let footer = encode_footer (length blocks) offset (length index) in
    omega (
      arith,
      length-append header (blocks_bytes blocks ++ (index ++ footer)),
      length-append (blocks_bytes blocks) (index ++ footer),
      length-append index footer,
      length-encode_header (length blocks) offset (length index),
      length-encode_footer (length blocks) offset (length index),
      end_of-blocks_bytes 32 blocks,
    )

-- What the writer has checked of the blocks of a file.
pub record IsFile (blocks : List SegmentBlock) : Type 0 where
  pub encodable : All IsEncodable blocks
  pub some_blocks : 1 ≤ length blocks
  pub block_limit : length blocks ≤ max_segment_block_count
  pub ordered : has_disorder blocks ≡ false
  pub index_limit : length (entries_bytes (entries_of 32 blocks)) ≤ 64 * 1024 * 1024

-- A file ends far below 2 ^ 63.
pub end_of_file :
    (blocks : List SegmentBlock)
    → IsFile blocks
    → end_of 32 blocks ≤ 32 + 1000000 * (24 + 16 * 1024 * 1024)
end_of_file blocks v = omega (arith, end_of_bounds 32 blocks v.encodable, v.block_limit)
