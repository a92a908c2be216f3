-- ===== src/SegmentFile/Write.antt =====
-- src/segment_file.cpp: `validate_blocks` and `write_segment_file`. The bytes that are handed to
-- `atomic_write_file` are part of the answer. Sizes stay far below 64 bits.
pub mod Entries
pub mod Layout
pub mod File
use chronostore.Common.{
  ℕ, zero, suc, ◌+◌, ◌-◌, ◌%◌, ◌^◌, Bool, false, ◌||◌, ◌&&◌, List, [], ◌∷◌, ◌++◌, length, drop, ltb,
  ◌!=◌, Outcome, ok, throw_if, ◌>>=◌, ◌>>◌,
}
use chronostore.Order.{is_lt, is_le, is_eq, int_ord}
use chronostore.Errors.{Exception, invalid_argument, length_error, logic_error}
use chronostore.Model.{Bytes, series_ord, is_empty}
use chronostore.SegmentBlock.{SegmentBlock, first_timestamp, last_timestamp, sample_count}
use chronostore.SegmentBlockCodec.{encode_segment_block}
use chronostore.SegmentFile.{
  SegmentIndexEntry, SegmentFileMetadata, segment_header_size, segment_footer_size,
  max_segment_block_count, encode_header, encode_footer,
}
use chronostore.SegmentFile.Index.{encode_index}

-- The loop over neighbours.
unfoldable pub has_disorder : List SegmentBlock → Bool
has_disorder [] = false
has_disorder (previous ∷ []) = false
has_disorder (previous ∷ current ∷ blocks) =
    is_lt current.series previous.series
    || is_eq current.series previous.series
      && is_le (first_timestamp current) (last_timestamp previous)
    || has_disorder (current ∷ blocks)

unfoldable pub validate_blocks : List SegmentBlock → Outcome Exception (Unit {0})
unfolding has_disorder
validate_blocks blocks =
    throw_if (is_empty blocks) invalid_argument
    >> throw_if (ltb max_segment_block_count (length blocks)) length_error
    >> throw_if (has_disorder blocks) invalid_argument

-- The file's bytes after the header, its index entries and the count of its samples.
pub record Encoding : Type 0 where
  pub file_bytes : Bytes
  pub entries : List SegmentIndexEntry
  pub sample_count : ℕ

-- The loop over the blocks.
unfoldable pub write_blocks : Encoding → List SegmentBlock → Outcome Exception Encoding
write_blocks encoding [] = ok encoding
write_blocks encoding (block ∷ blocks) = do
  encoded ← encode_segment_block block
  throw_if (ltb (2 ^ 32 - 1) (length encoded)) length_error
  let block_sample_count = sample_count block % 2 ^ 32
  let entry : SegmentIndexEntry = record {
    series = block.series;
    first_timestamp = first_timestamp block;
    last_timestamp = last_timestamp block;
    block_offset = length encoding.file_bytes;
    block_size = length encoded % 2 ^ 32;
    sample_count = block_sample_count;
  }
  write_blocks
      (record {
        file_bytes = encoding.file_bytes ++ encoded;
        entries = encoding.entries ++ (entry ∷ []);
        sample_count = encoding.sample_count + block_sample_count;
      })
      blocks

abbrev pub zeros : ℕ → Bytes
zeros zero = []
zeros (suc n) = 0 ∷ zeros n

unfoldable pub write_segment_file :
    List SegmentBlock → Outcome Exception (Bytes × SegmentFileMetadata)
unfolding validate_blocks write_blocks
write_segment_file blocks = do
  validate_blocks blocks
  encoding ←
      write_blocks
        (record { file_bytes = zeros segment_header_size; entries = []; sample_count = 0 }) blocks
  let index_offset = length encoding.file_bytes
  encoded_index ← encode_index encoding.entries
  let index_size = length encoded_index
  let block_count = length blocks % 2 ^ 32
  let footer = encode_footer block_count index_offset index_size
  let header = encode_header block_count index_offset index_size
  throw_if (length header != segment_header_size || length footer != segment_footer_size)
      logic_error
  let file_bytes =
      header ++ (drop segment_header_size encoding.file_bytes ++ (encoded_index ++ footer))
  ok (
    file_bytes,
    record {
      file_size = length file_bytes;
      sample_count = encoding.sample_count;
      block_count = block_count;
    },
  )
