-- ===== src/SegmentFile/Reader.antt =====
-- src/segment_file.cpp: `SegmentReader`, and `read_file_bytes` of src/file_io.cpp on a file that can
-- be opened. A reader keeps the content of its file, which is not written again.
-- `std::lower_bound` and `std::upper_bound` find the point of partition of a vector that the
-- constructor has found to be ordered.
use chronostore.Common.{
  ℕ, ◌+◌, ◌-◌, ◌%◌, ◌^◌, Bool, true, false, not, ◌||◌, ◌&&◌, Option, none, some, List, [], ◌∷◌,
  ◌++◌, length, take, drop, ltb, ◌==◌, ◌!=◌, if◌then◌else◌, Outcome, ok, throw_if, demand, ◌>>=◌,
  ◌>>◌,
}
use chronostore.Order.{is_lt, is_le, is_eq, int_ord}
use chronostore.Errors.{
  Exception, invalid_argument, runtime_error, segment_format_error, SegmentBlockDecodeError,
}
use chronostore.Model.{Bytes, SeriesKey, Timestamp, Sample, series_ord}
use chronostore.SegmentBlock.{SegmentBlock, first_timestamp, last_timestamp, sample_count}
use chronostore.SegmentBlockCodec.{SegmentBlockDecodeResult, decode_segment_block}
use chronostore.SegmentFile.{
  SegmentIndexEntry, segment_header_size, segment_footer_size, segment_index_header_size,
  checksum_size, max_index_payload_size, decode_header, decode_footer,
}
use chronostore.SegmentFile.Index.{decode_index}

-- A count of nothing reads nothing, whatever the offset.
unfoldable pub read_file_bytes : Bytes → ℕ → ℕ → Outcome Exception Bytes
read_file_bytes file offset count =
    throw_if (ltb (2 ^ 63 - 1) offset) runtime_error
    >> throw_if (ltb (2 ^ 63 - 1) count) runtime_error
    >> throw_if (count != 0 && ltb (length (drop offset file)) count) runtime_error
    >> ok (take count (drop offset file))

pub record SegmentReader : Type 0 where
  pub file : Bytes
  pub file_size : ℕ
  pub sample_count : ℕ
  pub index : List SegmentIndexEntry

unfoldable pub block_count : SegmentReader → ℕ
block_count reader = length reader.index

-- The loop at the end of the constructor.
unfoldable pub count_samples : ℕ → List SegmentIndexEntry → ℕ
count_samples count [] = count
count_samples count (entry ∷ entries) =
    count_samples ((count + entry.sample_count) % 2 ^ 64) entries

-- The constructor of `SegmentReader`.
unfoldable pub open_segment : Bytes → Outcome Exception SegmentReader
unfolding read_file_bytes count_samples
open_segment file = do
  let file_size = length file
  throw_if
      (ltb file_size
        (segment_header_size + segment_footer_size + segment_index_header_size + checksum_size))
      segment_format_error
  header_bytes ← read_file_bytes file 0 segment_header_size
  footer_bytes ← read_file_bytes file (file_size - segment_footer_size) segment_footer_size
  header ← decode_header header_bytes
  footer ← decode_footer footer_bytes
  throw_if
      (header.block_count != footer.block_count
        || header.index_offset != footer.index_offset
        || header.index_size != footer.index_size)
      segment_format_error
  throw_if
      (ltb header.index_offset segment_header_size
        || ltb header.index_size (segment_index_header_size + checksum_size)
        || ltb (max_index_payload_size + segment_index_header_size + checksum_size)
            header.index_size
        || ltb file_size header.index_offset
        || ltb (file_size - header.index_offset) header.index_size
        || (header.index_offset + header.index_size + segment_footer_size) % 2 ^ 64 != file_size)
      segment_format_error
  index_bytes ← read_file_bytes file header.index_offset header.index_size
  index ← decode_index index_bytes header.block_count header.index_offset
  ok (record {
    file = file;
    file_size = file_size;
    sample_count = count_samples 0 index;
    index = index;
  })

-- The test of `read_block` on a decoded block.
unfoldable pub matches_entry : SegmentBlock → SegmentIndexEntry → Bool
matches_entry block entry =
    is_eq block.series entry.series
    && (sample_count block == entry.sample_count
        && (is_eq (first_timestamp block) entry.first_timestamp
            && is_eq (last_timestamp block) entry.last_timestamp))

-- `decoded.success()` tests the block and the error.
unfoldable pub decoded_block : SegmentBlockDecodeResult → Option SegmentBlock
decoded_block decoded = elim decoded.error [
  | SegmentBlockDecodeError.none ↦ decoded.block
  | _ ↦ none
]

unfoldable pub read_block : SegmentReader → SegmentIndexEntry → Outcome Exception SegmentBlock
unfolding read_file_bytes matches_entry decoded_block
read_block reader entry = do
  bytes ← read_file_bytes reader.file entry.block_offset entry.block_size
  let decoded = decode_segment_block bytes
  block ← demand segment_format_error (decoded_block decoded)
  throw_if (decoded.bytes_consumed != length bytes) segment_format_error
  throw_if (not (matches_entry block entry)) segment_format_error
  ok block

-- The last entry that `upper_bound` does not pass.
unfoldable pub last_not_above :
    SeriesKey → Option SegmentIndexEntry → List SegmentIndexEntry → Option SegmentIndexEntry
last_not_above series before [] = before
last_not_above series before (entry ∷ entries) = elim (is_lt series entry.series) [
  | true ↦ before
  | false ↦ last_not_above series (some entry) entries
]

-- `block.samples().back()`.
abbrev pub back : List Sample → Option Sample
back [] = none
back (sample ∷ []) = some sample
back (sample ∷ next ∷ samples) = back (next ∷ samples)

unfoldable pub latest : SegmentReader → SeriesKey → Outcome Exception (Option Sample)
unfolding last_not_above read_block
latest reader series = elim (last_not_above series none reader.index) [
  | none ↦ ok none
  | some entry ↦ elim (is_eq entry.series series) [
    | false ↦ ok none
    | true ↦ read_block reader entry >>= λ block. ok (back block.samples)
  ]
]

-- `std::lower_bound` over the index, and over samples.
unfoldable pub entries_from : SeriesKey → List SegmentIndexEntry → List SegmentIndexEntry
entries_from series [] = []
entries_from series (entry ∷ entries) = elim (is_lt entry.series series) [
  | true ↦ entries_from series entries
  | false ↦ entry ∷ entries
]

unfoldable pub samples_from : Timestamp → List Sample → List Sample
samples_from timestamp [] = []
samples_from timestamp (sample ∷ samples) = elim (is_lt sample.timestamp timestamp) [
  | true ↦ samples_from timestamp samples
  | false ↦ sample ∷ samples
]

-- The samples before the one that `lower_bound` finds.
unfoldable pub samples_before : Timestamp → List Sample → List Sample
samples_before timestamp [] = []
samples_before timestamp (sample ∷ samples) = elim (is_lt sample.timestamp timestamp) [
  | true ↦ sample ∷ samples_before timestamp samples
  | false ↦ []
]

-- The sample that `lower_bound` finds, if it has the timestamp.
unfoldable pub sample_at : Timestamp → List Sample → Option Sample
unfolding samples_from
sample_at timestamp samples = elim (samples_from timestamp samples) [
  | [] ↦ none
  | sample ∷ _ ↦ if is_eq sample.timestamp timestamp then some sample else none
]

-- The loop of `get` over the entries of the series.
unfoldable pub get_from :
    SegmentReader
    → SeriesKey
    → Timestamp
    → List SegmentIndexEntry
    → Outcome Exception (Option Sample)
unfolding read_block sample_at
get_from reader series timestamp [] = ok none
get_from reader series timestamp (entry ∷ entries) = elim (is_eq entry.series series) [
  | false ↦ ok none
  | true ↦ elim (is_lt timestamp entry.first_timestamp) [
    | true ↦ ok none
    | false ↦ elim (is_lt entry.last_timestamp timestamp) [
      | true ↦ get_from reader series timestamp entries
      | false ↦ read_block reader entry >>= λ block. ok (sample_at timestamp block.samples)
    ]
  ]
]

unfoldable pub get : SegmentReader → SeriesKey → Timestamp → Outcome Exception (Option Sample)
unfolding entries_from get_from
get reader series timestamp = get_from reader series timestamp (entries_from series reader.index)

-- The loop of `range` over the entries of the series.
unfoldable pub range_from :
    SegmentReader
    → SeriesKey
    → Timestamp
    → Timestamp
    → List Sample
    → List SegmentIndexEntry
    → Outcome Exception (List Sample)
unfolding read_block samples_from samples_before
range_from reader series start end result [] = ok result
range_from reader series start end result (entry ∷ entries) = elim (is_eq entry.series series) [
  | false ↦ ok result
  | true ↦ elim (is_lt entry.last_timestamp start) [
    | true ↦ range_from reader series start end result entries
    | false ↦ elim (is_le end entry.first_timestamp) [
      | true ↦ ok result
      | false ↦ read_block reader entry >>= λ block.
          range_from reader series start end
            (result ++ samples_before end (samples_from start block.samples)) entries
    ]
  ]
]

unfoldable pub range :
    SegmentReader → SeriesKey → Timestamp → Timestamp → Outcome Exception (List Sample)
unfolding entries_from range_from
range reader series start end =
    throw_if (is_lt end start) invalid_argument >> elim (is_eq start end) [
      | true ↦ ok []
      | false ↦ range_from reader series start end [] (entries_from series reader.index)
    ]

-- The loop of `blocks`.
unfoldable pub read_blocks :
    SegmentReader
    → List SegmentBlock
    → List SegmentIndexEntry
    → Outcome Exception (List SegmentBlock)
unfolding read_block
read_blocks reader result [] = ok result
read_blocks reader result (entry ∷ entries) = do
  block ← read_block reader entry
  read_blocks reader (result ++ (block ∷ [])) entries

unfoldable pub blocks : SegmentReader → Outcome Exception (List SegmentBlock)
unfolding read_blocks
blocks reader = read_blocks reader [] reader.index
