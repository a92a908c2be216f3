-- ===== src/SegmentFile/Stored.antt =====
-- `SegmentReader::blocks` of src/segment_file.cpp on a file that has been written.
use chronostore.Common.{
  ℕ, ◌+◌, ◌^◌, ◌<◌, ◌≡◌, refl, sym, ap, ◌∙◌, arith, true, List, [], ◌∷◌, ◌++◌, append-nil,
  append_assoc, length, length-append, All, ok, !=_self, ==_self,
}
use chronostore.Order.{int_ord, compare_ℤ-self}
use chronostore.Model.{Bytes, series_ord, compare_series_self}
use chronostore.SegmentBlock.{SegmentBlock, first_timestamp, last_timestamp, sample_count}
use chronostore.SegmentBlockCodec.Layout.{IsBlock, block_bytes}
use chronostore.SegmentBlockCodec.RoundTrip.{decode_segment_block-block_bytes}
use chronostore.SegmentFile.{SegmentFileMetadata, encode_header, encode_footer}
use chronostore.SegmentFile.Envelope.{length-encode_header}
use chronostore.SegmentFile.Index.Layout.{index_bytes}
use chronostore.SegmentFile.Reader
use chronostore.SegmentFile.Reader.{
  SegmentReader, open_segment, read_block, matches_entry, decoded_block, read_blocks,
}
use chronostore.SegmentFile.RoundTrip.{
  read_file_bytes_between, reader_of, open_segment-segment_bytes,
}
use chronostore.SegmentFile.Write.{write_segment_file}
use chronostore.SegmentFile.Write.Entries.{
  IsEncodable, entry_of, entries_of, end_of, length-entries_of, end_of_bounds,
}
use chronostore.SegmentFile.Write.File.{write_segment_file-eq-ok}
use chronostore.SegmentFile.Write.Layout.{blocks_bytes, segment_bytes, IsFile, end_of_file}

-- Each of the blocks is read through the entry of its place.
abbrev pub IsStored : SegmentReader → ℕ → List SegmentBlock → Type 0
IsStored reader offset [] = Unit
IsStored reader offset (block ∷ blocks) =
    (read_block reader (entry_of offset block) ≡ ok block)
    × IsStored reader (offset + length (block_bytes block)) blocks

matches_entry_of :
    (offset : ℕ) (block : SegmentBlock) → matches_entry block (entry_of offset block) ≡ true
unfolding matches_entry sample_count
matches_entry_of offset block = ground (
  arith,
  compare_series_self block.series,
  ==_self (length block.samples),
  compare_ℤ-self (first_timestamp block),
  compare_ℤ-self (last_timestamp block),
)

read_block-entry_of :
    (reader : SegmentReader) (before after : Bytes) (offset : ℕ) (block : SegmentBlock)
    → IsEncodable block
    → reader.file ≡ before ++ (block_bytes block ++ after)
    → length before ≡ offset
    → offset + length (block_bytes block) < 2 ^ 63
    → read_block reader (entry_of offset block) ≡ ok block
unfolding read_block decoded_block
read_block-entry_of reader before after offset block v e h fits =
    let read = read_file_bytes_between before (block_bytes block) after offset _ h refl fits in
    let decoded = decode_segment_block-block_bytes block [] v.0 v.1 in
    let alone = append-nil (block_bytes block) in
    rw (e, read, ← alone, decoded, alone, !=_self (length (block_bytes block)), matches_entry_of)

IsStored-behind :
    (reader : SegmentReader) (before after : Bytes) (offset : ℕ) (blocks : List SegmentBlock)
    → All IsEncodable blocks
    → reader.file ≡ before ++ (blocks_bytes blocks ++ after)
    → length before ≡ offset
    → end_of offset blocks < 2 ^ 63
    → IsStored reader offset blocks
IsStored-behind reader before after offset [] v e h fits = tt
IsStored-behind reader before after offset (block ∷ blocks) v e h fits =
    let here = append_assoc (block_bytes block) (blocks_bytes blocks) after in
    let there = append_assoc before (block_bytes block) (blocks_bytes blocks ++ after) in
    let next = offset + length (block_bytes block) in
    let bounds = end_of_bounds next blocks v.1 in
    (
      read_block-entry_of reader before (blocks_bytes blocks ++ after) offset block v.0
          (e ∙ ap (λ t. before ++ t) here) h (omega arith),
      IsStored-behind reader (before ++ block_bytes block) after next blocks v.1
          (e ∙ ap (λ t. before ++ t) here ∙ sym there)
          (omega (arith, length-append before (block_bytes block), h)) fits,
    )

-- Every block of the file is stored where its entry says.
pub reader_of-IsStored :
    (blocks : List SegmentBlock) → IsFile blocks → IsStored (reader_of blocks) 32 blocks
unfolding segment_bytes
reader_of-IsStored blocks v =
    let index = index_bytes (entries_of 32 blocks) in
    let header = encode_header (length blocks) (end_of 32 blocks) (length index) in
    let footer = encode_footer (length blocks) (end_of 32 blocks) (length index) in
    IsStored-behind (reader_of blocks) header (index ++ footer) 32 blocks v.encodable refl
      (length-encode_header _ _ _) (omega (arith, end_of_file blocks v))

read_blocks-entries_of :
    (reader : SegmentReader) (offset : ℕ) (before blocks : List SegmentBlock)
    → IsStored reader offset blocks
    → read_blocks reader before (entries_of offset blocks) ≡ ok (before ++ blocks)
unfolding read_blocks
read_blocks-entries_of reader offset before [] s = rw append-nil
read_blocks-entries_of reader offset before (block ∷ blocks) s = rw (
  s.0,
  read_blocks-entries_of reader (offset + length (block_bytes block)) (before ++ (block ∷ []))
      blocks s.1,
  append_assoc before (block ∷ []) blocks,
)

-- Where the writer returns for constructed blocks, the file it gives is opened by the reader, which
-- counts the samples that the metadata says, and reading all its blocks gives those written.
pub blocks-write_segment_file :
    (blocks : List SegmentBlock) (bytes : Bytes) (metadata : SegmentFileMetadata)
    → All IsBlock blocks
    → write_segment_file blocks ≡ ok (bytes, metadata)
    → (reader : SegmentReader) × (open_segment bytes ≡ ok reader)
      × (Reader.blocks reader ≡ ok blocks)
      × (reader.sample_count ≡ metadata.sample_count)
      × (Reader.block_count reader ≡ metadata.block_count)
      × (reader.file_size ≡ metadata.file_size)
unfolding Reader.blocks Reader.block_count
blocks-write_segment_file blocks bytes metadata v h =
    let (file, layout, measured) = write_segment_file-eq-ok blocks bytes metadata v h in
    let stored = reader_of-IsStored blocks file in
    (
      reader_of blocks,
      rw layout (open_segment-segment_bytes blocks file),
      read_blocks-entries_of (reader_of blocks) 32 [] blocks stored,
      rw measured refl,
      rw (measured, length-entries_of 32 blocks) refl,
      rw (measured, layout) refl,
    )
