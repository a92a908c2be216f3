-- ===== src/SegmentFile/RoundTrip.antt =====
-- `SegmentReader` of src/segment_file.cpp on the bytes of a written file.
use native.Mathlib.Nat.{mod-eq_of_lt, zero-add}
use chronostore.Common.{
  ℕ, ◌+◌, ◌-◌, ◌*◌, ◌%◌, ◌^◌, ◌<◌, ◌≤◌, ◌≡◌, refl, ◌∙◌, arith, List, [], ◌∷◌, ◌++◌, append-nil,
  append_assoc, length, length-append, take-append_of, drop-append_of, ltb-false, All, ok, !=_self,
  and_false, ◌!=◌,
}
use chronostore.Order.{int_ord}
use chronostore.Model.{Bytes, series_ord}
use chronostore.SegmentBlock.{SegmentBlock}
use chronostore.SegmentBlockCodec.Layout.{block_bytes, sample_count_bounds}
use chronostore.SegmentFile.{encode_header, encode_footer}
use chronostore.SegmentFile.Envelope.{
  length-encode_header, length-encode_footer, decode_header-encode_header,
  decode_footer-encode_footer,
}
use chronostore.SegmentFile.Index.Layout.{index_bytes, length-index_bytes}
use chronostore.SegmentFile.Index.RoundTrip.{decode_index-index_bytes}
use chronostore.SegmentFile.Reader.{SegmentReader, read_file_bytes, count_samples, open_segment}
use chronostore.SegmentFile.Index.{decode_index}
use chronostore.SegmentFile.Write.Entries.{
  IsEncodable, entries_of, end_of, length-entries_of, end_of_bounds, entries_of-IsEntry,
  validate_index-entries_of,
}
use chronostore.SegmentFile.Write.Layout.{
  blocks_bytes, count_of, end_of-blocks_bytes, segment_bytes, length-segment_bytes, IsFile,
  end_of_file,
}

-- The bytes that lie between others are read.
pub read_file_bytes_between :
    (before middle after : Bytes) (offset count : ℕ)
    → length before ≡ offset
    → length middle ≡ count
    → offset + count < 2 ^ 63
    → read_file_bytes (before ++ (middle ++ after)) offset count ≡ ok middle
unfolding read_file_bytes
read_file_bytes_between before middle after offset count h k fits = rw (
  ltb-false (2 ^ 63 - 1) offset (omega arith),
  ltb-false (2 ^ 63 - 1) count (omega arith),
  drop-append_of offset before (middle ++ after) h,
  ltb-false (length (middle ++ after)) count (omega (arith, length-append middle after, k)),
  and_false (count != 0),
  take-append_of count middle after k,
)

-- What the reader of the file is.
abbrev pub reader_of : List SegmentBlock → SegmentReader
reader_of blocks = record {
  file = segment_bytes blocks;
  file_size = length (segment_bytes blocks);
  sample_count = count_of blocks;
  index = entries_of 32 blocks;
}

count_of_bound :
    (blocks : List SegmentBlock) → All IsEncodable blocks → count_of blocks ≤ length blocks * 256
count_of_bound [] v = omega arith
count_of_bound (block ∷ blocks) v =
    omega (arith, sample_count_bounds block v.0.0, count_of_bound blocks v.1)

count_samples-entries_of :
    (count offset : ℕ) (blocks : List SegmentBlock)
    → count + count_of blocks < 2 ^ 64
    → count_samples count (entries_of offset blocks) ≡ count + count_of blocks
unfolding count_samples
count_samples-entries_of count offset [] h = omega arith
count_samples-entries_of count offset (block ∷ blocks) h =
    let fits : count + length block.samples < 2 ^ 64 = omega arith in
    let next = offset + length (block_bytes block) in
    rw (count_samples, mod-eq_of_lt fits)
      (count_samples-entries_of (count + length block.samples) next blocks (omega arith)
        ∙ (omega arith))

module _ (blocks : List SegmentBlock) (v : IsFile blocks) where
  abbrev index : Bytes
  index = index_bytes (entries_of 32 blocks)

  abbrev header : Bytes
  header = encode_header (length blocks) (end_of 32 blocks) (length index)

  abbrev footer : Bytes
  footer = encode_footer (length blocks) (end_of 32 blocks) (length index)

  header_read : read_file_bytes (segment_bytes blocks) 0 32 ≡ ok header
  unfolding segment_bytes
  header_read =
      read_file_bytes_between [] header _ 0 32 refl (length-encode_header _ _ _) (omega arith)

  footer_read :
      read_file_bytes (segment_bytes blocks) (end_of 32 blocks + length index) 32 ≡ ok footer
  unfolding segment_bytes
  footer_read =
      let bounds = end_of_file blocks v in
      let size = length-index_bytes (entries_of 32 blocks) in
      let front : header ++ (blocks_bytes blocks ++ (index ++ footer))
          ≡ (header ++ (blocks_bytes blocks ++ index)) ++ (footer ++ []) =
        simp (append_assoc, append-nil) in
      let long : length (header ++ (blocks_bytes blocks ++ index))
          ≡ end_of 32 blocks + length index =
        omega (
          arith,
          length-append header (blocks_bytes blocks ++ index),
          length-append (blocks_bytes blocks) index,
          length-encode_header (length blocks) (end_of 32 blocks) (length index),
          end_of-blocks_bytes 32 blocks,
        ) in
      rw front (
        read_file_bytes_between _ footer [] _ 32 long (length-encode_footer _ _ _)
          (omega (arith, v.index_limit)))

  index_read : read_file_bytes (segment_bytes blocks) (end_of 32 blocks) (length index) ≡ ok index
  unfolding segment_bytes
  index_read =
      let bounds = end_of_file blocks v in
      let size = length-index_bytes (entries_of 32 blocks) in
      let long : length (header ++ blocks_bytes blocks) ≡ end_of 32 blocks = omega (
        arith,
        length-append header (blocks_bytes blocks),
        length-encode_header (length blocks) (end_of 32 blocks) (length index),
        end_of-blocks_bytes 32 blocks,
      ) in
      rw (← append_assoc header (blocks_bytes blocks) (index ++ footer))
        (read_file_bytes_between _ index footer _ _ long refl (omega (arith, v.index_limit)))

  -- Opening the file gives the reader of its blocks.
  pub open_segment-segment_bytes : open_segment (segment_bytes blocks) ≡ ok (reader_of blocks)
  unfolding open_segment
  open_segment-segment_bytes =
      let start = end_of_bounds 32 blocks v.encodable in
      let bounds = end_of_file blocks v in
      let size = length-index_bytes (entries_of 32 blocks) in
      let total = length-segment_bytes blocks in
      let count = count_of_bound blocks v.encodable in
      let footer_offset : length (segment_bytes blocks) - 32 ≡ end_of 32 blocks + length index =
        omega arith in
      let ends : (end_of 32 blocks + length index + 32) % 2 ^ 64 ≡ length (segment_bytes blocks) =
        omega (arith, v.index_limit) in
      let entries = entries_of 32 blocks in
      let several = length-entries_of 32 blocks in
      let decoded : decode_index index (length blocks) (end_of 32 blocks) ≡ ok entries =
        rw (← several) (
          decode_index-index_bytes entries (end_of 32 blocks)
            (entries_of-IsEntry 32 blocks v.encodable (omega arith)) v.index_limit
            (omega (arith, v.some_blocks)) (omega (arith, v.block_limit))
            (validate_index-entries_of blocks v.encodable v.ordered)) in
      rw (
        ltb-false (length (segment_bytes blocks)) (32 + 32 + 20 + 4) (omega arith),
        header_read,
        footer_offset,
        footer_read,
        decode_header-encode_header (length blocks) (end_of 32 blocks) (length index) v.some_blocks
            v.block_limit (omega arith) (omega (arith, v.index_limit)),
        decode_footer-encode_footer (length blocks) (end_of 32 blocks) (length index)
            (omega (arith, v.block_limit)) (omega arith) (omega (arith, v.index_limit)),
        !=_self (length blocks),
        !=_self (end_of 32 blocks),
        !=_self (length index),
        ltb-false (end_of 32 blocks) 32 (omega arith),
        ltb-false (length index) (20 + 4) (omega arith),
        ltb-false (64 * 1024 * 1024 + 20 + 4) (length index) (omega (arith, v.index_limit)),
        ltb-false (length (segment_bytes blocks)) (end_of 32 blocks) (omega arith),
        ltb-false (length (segment_bytes blocks) - end_of 32 blocks) (length index) (omega arith),
        ends,
        !=_self (length (segment_bytes blocks)),
        index_read,
        decoded,
        count_samples-entries_of 0 32 blocks (omega (arith, v.block_limit)),
        zero-add (count_of blocks),
      )
