-- ===== src/SegmentFile/Lookup/File.antt =====
-- `SegmentReader::get` on a file that has been written.
use chronostore.Common.{
  ℕ, ◌+◌, ◌≡◌, refl, sym, ap, ◌∙◌, arith, inl, inr, true, false, none, List, [], ◌∷◌, length, All,
  ok, Bool-cases,
}
use chronostore.Order.{is_lt, is_eq, ne_of_lt}
use chronostore.Model.{Bytes, SeriesKey, Timestamp, series_ord}
use chronostore.SegmentBlock.{SegmentBlock}
use chronostore.SegmentBlockCodec.Layout.{IsBlock, block_bytes}
use chronostore.SegmentFile.{SegmentIndexEntry, SegmentFileMetadata}
use chronostore.SegmentFile.Reader
use chronostore.SegmentFile.Reader.{SegmentReader, open_segment, get_from, entries_from}
use chronostore.SegmentFile.RoundTrip.{reader_of, open_segment-segment_bytes}
use chronostore.SegmentFile.Lookup.{or_else, found_in, lookup}
use chronostore.SegmentFile.Lookup.Get.{get_from-entries_of, ordered_rest}
use chronostore.SegmentFile.Stored.{IsStored, reader_of-IsStored}
use chronostore.SegmentFile.Write.{has_disorder, write_segment_file}
use chronostore.SegmentFile.Write.Entries.{IsEncodable, entry_of, entries_of}
use chronostore.SegmentFile.Write.File.{write_segment_file-eq-ok}
use chronostore.SegmentFile.Write.Layout.{IsFile}

module _ (s : SeriesKey) (entry : SegmentIndexEntry) (entries : List SegmentIndexEntry) where
  entries_from_skip :
      is_lt entry.series s ≡ true → entries_from s (entry ∷ entries) ≡ entries_from s entries
  unfolding entries_from
  entries_from_skip h = ground arith

  entries_from_stop :
      is_lt entry.series s ≡ false → entries_from s (entry ∷ entries) ≡ entry ∷ entries
  unfolding entries_from
  entries_from_stop h = ground arith

module _ (reader : SegmentReader) (s : SeriesKey) (at : Timestamp) where
  not_of_series : (b : SegmentBlock) → is_eq b.series s ≡ false → found_in b s at ≡ none
  not_of_series b h = rw h refl

  get-entries_of :
      (offset : ℕ) (blocks : List SegmentBlock)
      → IsStored reader offset blocks
      → All IsBlock blocks
      → has_disorder blocks ≡ false
      → get_from reader s at (entries_from s (entries_of offset blocks)) ≡ ok (lookup blocks s at)
  get-entries_of offset [] stored v h = unfold get_from entries_from in refl
  get-entries_of offset (b ∷ bs) stored v h =
      let next = offset + length (block_bytes b) in
      elim (Bool-cases (is_lt b.series s)) [
        | inl below ↦
            let missed = not_of_series b (ne_of_lt b.series s below) in
            ap (get_from reader s at)
              (entries_from_skip s (entry_of offset b) (entries_of next bs) below)
            ∙ get-entries_of next bs stored.1 v.1 (ordered_rest s at b bs h)
            ∙ ap (λ o. ok (or_else o (lookup bs s at))) (sym missed)
        | inr reached ↦
            ap (get_from reader s at)
              (entries_from_stop s (entry_of offset b) (entries_of next bs) reached)
            ∙ get_from-entries_of s at reader offset (b ∷ bs) stored v h reached
      ]

blocks_valid : (blocks : List SegmentBlock) → All IsEncodable blocks → All IsBlock blocks
blocks_valid [] v = tt
blocks_valid (b ∷ bs) v = (v.0.0, blocks_valid bs v.1)

-- The reader of a file's blocks finds a sample exactly where a search through all of them does.
pub get-reader_of :
    (blocks : List SegmentBlock) (s : SeriesKey) (at : Timestamp)
    → IsFile blocks
    → Reader.get (reader_of blocks) s at ≡ ok (lookup blocks s at)
unfolding Reader.get
get-reader_of blocks s at v =
    get-entries_of (reader_of blocks) s at 32 blocks (reader_of-IsStored blocks v)
      (blocks_valid blocks v.encodable) v.ordered

-- Where the writer returns for constructed blocks, the reader of the file answers, at every series
-- and timestamp, the sample that a search through all the blocks finds, and no other.
pub get-write_segment_file :
    (blocks : List SegmentBlock) (bytes : Bytes) (metadata : SegmentFileMetadata) (s : SeriesKey)
    (at : Timestamp)
    → All IsBlock blocks
    → write_segment_file blocks ≡ ok (bytes, metadata)
    → (reader : SegmentReader) × (open_segment bytes ≡ ok reader)
      × (Reader.get reader s at ≡ ok (lookup blocks s at))
get-write_segment_file blocks bytes metadata s at v h =
    let (file, layout, _) = write_segment_file-eq-ok blocks bytes metadata v h in
    (
      reader_of blocks,
      rw layout (open_segment-segment_bytes blocks file),
      get-reader_of blocks s at file,
    )
