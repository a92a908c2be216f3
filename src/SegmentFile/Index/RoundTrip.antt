-- ===== src/SegmentFile/Index/RoundTrip.antt =====
-- The index of src/segment_file.cpp, written and read.
use chronostore.Common.{
  ℕ, ◌+◌, ◌-◌, ◌^◌, ◌<◌, ◌≤◌, ◌≡◌, refl, arith, List, [], ◌∷◌, ◌++◌, append-nil, append_assoc, All,
  length, take, drop, take-append_of, drop-append_of, ok, some, ltb-false, !=_self, !=_equal,
  ==_above,
}
use chronostore.Bits.{xor_lt}
use chronostore.Model.{Bytes}
use chronostore.ByteCodec.{reader_of, remaining, read_u32}
use chronostore.ByteCodec.Layout.{u16, u32, u64}
use chronostore.ByteCodec.Read.{reader_at, read_u16-u16, read_u32-u32, read_u64-u64}
use chronostore.Crc32c.{crc32c}
use chronostore.Crc32c.Detect.{crc32c-lt}
use chronostore.SeriesCodec.{timestamp_bits}
use chronostore.SeriesCodec.Layout.{series_bytes}
use chronostore.SeriesCodec.RoundTrip.{
  timestamp_of_bits_lem, read_series_key-series_bytes, end_of_tags,
}
use chronostore.SegmentFile.{
  SegmentIndexEntry, segment_index_magic, segment_file_version, segment_file_flags,
  max_index_payload_size, max_segment_block_count,
}
use chronostore.SegmentFile.Index.{
  IndexHeader, inverted_size, validate_index, read_index_header, read_entry, read_entries,
  decode_index,
}
use chronostore.SegmentFile.Index.Layout.{
  IsEntry, numbers_bytes, entries_bytes, header_bytes, protected_bytes, index_bytes,
  length-header_bytes, length-entries_bytes, length-protected_bytes, length-index_bytes,
  protected_bytes-IsByte,
}

abbrev end_of_entry : ℕ → SegmentIndexEntry → ℕ
end_of_entry position entry =
    end_of_tags (position + 8 + 4 + 4 + 8 + 8 + 4 + length entry.series.measurement + 4)
      entry.series.tags

abbrev end_of_entries : ℕ → List SegmentIndexEntry → ℕ
end_of_entries position [] = position
end_of_entries position (entry ∷ entries) = end_of_entries (end_of_entry position entry) entries

read_entry-entry_bytes :
    (entry : SegmentIndexEntry) (position : ℕ) (rest : Bytes)
    → IsEntry entry
    → length (series_bytes entry.series) < 2 ^ 32
    → read_entry (reader_at position (numbers_bytes entry ++ (series_bytes entry.series ++ rest)))
      ≡ some (entry, reader_at (end_of_entry position entry) rest)
unfolding read_entry numbers_bytes
read_entry-entry_bytes entry position rest v h =
    let first = timestamp_of_bits_lem entry.first_timestamp v.first_fits in
    let last = timestamp_of_bits_lem entry.last_timestamp v.last_fits in
    let series = series_bytes entry.series ++ rest in
    rw (
      append_assoc (u64 entry.block_offset) _ series,
      read_u64-u64 entry.block_offset position _ v.offset_fits,
      append_assoc (u32 entry.block_size) _ series,
      read_u32-u32 entry.block_size _ _ v.size_fits,
      append_assoc (u32 entry.sample_count) _ series,
      read_u32-u32 entry.sample_count _ _ v.count_fits,
      append_assoc (u64 (timestamp_bits entry.first_timestamp)) _ series,
      read_u64-u64 (timestamp_bits entry.first_timestamp) _ _ first.0,
      read_u64-u64 (timestamp_bits entry.last_timestamp) _ _ last.0,
      read_series_key-series_bytes entry.series _ rest v.series_valid h,
      first.1,
      last.1,
    )

read_entries-entries_bytes :
    (entries before : List SegmentIndexEntry) (position : ℕ)
    → All IsEntry entries
    → length (entries_bytes entries) < 2 ^ 32
    → read_entries (length entries) before (reader_at position (entries_bytes entries))
      ≡ some (before ++ entries, reader_at (end_of_entries position entries) [])
unfolding read_entries
read_entries-entries_bytes [] before position v h = rw append-nil
read_entries-entries_bytes (entry ∷ entries) before position v h =
    let long = length-entries_bytes entry entries in
    rw (
      read_entry-entry_bytes entry position (entries_bytes entries) v.0 (omega arith),
      read_entries-entries_bytes entries (before ++ (entry ∷ [])) _ v.1 (omega arith),
      append_assoc before (entry ∷ []) entries,
    )

abbrev header_of : ℕ → ℕ → IndexHeader
header_of count size = record {
  magic = segment_index_magic;
  version = segment_file_version;
  flags = segment_file_flags;
  entry_count = count;
  payload_size = size;
  inverted = inverted_size size;
}

read_index_header-header_bytes :
    (count size : ℕ) (rest : Bytes)
    → count < 2 ^ 32
    → size < 2 ^ 32
    → read_index_header (reader_of (header_bytes count size ++ rest)) ≡ some (header_of count size)
unfolding read_index_header header_bytes
read_index_header-header_bytes count size rest k h = rw (
  append_assoc (u32 segment_index_magic) _ rest,
  read_u32-u32 segment_index_magic 0 _ (omega arith),
  append_assoc (u16 segment_file_version) _ rest,
  read_u16-u16 segment_file_version _ _ (omega arith),
  append_assoc (u16 segment_file_flags) _ rest,
  read_u16-u16 segment_file_flags _ _ (omega arith),
  append_assoc (u32 count) _ rest,
  read_u32-u32 count _ _ k,
  append_assoc (u32 size) _ rest,
  read_u32-u32 size _ _ h,
  read_u32-u32 (inverted_size size) _ rest (xor_lt 32 size 0xFFFFFFFF h (omega arith)),
)

module _ (entries : List SegmentIndexEntry) where
  abbrev payload : Bytes
  payload = entries_bytes entries

  abbrev stored : Bytes
  stored = u32 (crc32c (protected_bytes entries))

  header_in_front :
      index_bytes entries ≡ header_bytes (length entries) (length payload) ++ (payload ++ stored)
  unfolding index_bytes protected_bytes
  header_in_front = append_assoc (header_bytes (length entries) (length payload)) payload stored

  take-payload : take (length payload) (drop 20 (index_bytes entries)) ≡ payload
  take-payload =
      rw (header_in_front, drop-append_of 20 _ (payload ++ stored) (length-header_bytes _ _))
        (take-append_of _ payload stored refl)

  take_protected : take (20 + length payload) (index_bytes entries) ≡ protected_bytes entries
  unfolding index_bytes
  take_protected =
      take-append_of _ (protected_bytes entries) stored (length-protected_bytes entries)

  drop_protected : drop (20 + length payload) (index_bytes entries) ≡ stored
  unfolding index_bytes
  drop_protected =
      drop-append_of _ (protected_bytes entries) stored (length-protected_bytes entries)

  stored_read :
      crc32c (protected_bytes entries) < 2 ^ 32
      → read_u32 (reader_of stored) ≡ some (crc32c (protected_bytes entries), reader_at 4 [])
  stored_read h = rw append-nil at (read_u32-u32 (crc32c (protected_bytes entries)) 0 [] h)

  -- The index of from 1 to a million valid entries is decoded to the entries.
  pub decode_index-index_bytes :
      (index_offset : ℕ)
      → All IsEntry entries
      → length payload ≤ max_index_payload_size
      → 1 ≤ length entries
      → length entries ≤ max_segment_block_count
      → validate_index entries index_offset ≡ ok tt
      → decode_index (index_bytes entries) (length entries) index_offset ≡ ok entries
  unfolding decode_index remaining
  decode_index-index_bytes index_offset v small some_entries few valid =
      let long = length-index_bytes entries in
      let crc = crc32c-lt (protected_bytes entries) (protected_bytes-IsByte entries v) in
      let header =
        read_index_header-header_bytes (length entries) (length payload) (payload ++ stored)
          (omega arith) (omega arith) in
      let without_checksum : 24 + length payload - 4 ≡ 20 + length payload = omega arith in
      rw (
        ltb-false (length (index_bytes entries)) 24 (omega arith),
        header_in_front,
        header,
        ← header_in_front,
        !=_self (length entries),
        ==_above (length entries) 0 some_entries,
        ltb-false max_segment_block_count (length entries) few,
        !=_self (inverted_size (length payload)),
        ltb-false max_index_payload_size (length payload) small,
        long,
        !=_equal (24 + length payload) (20 + length payload + 4) (omega arith),
        without_checksum,
        drop_protected,
        stored_read crc,
        take_protected,
        !=_self (crc32c (protected_bytes entries)),
        take-payload,
        read_entries-entries_bytes entries [] 0 v (omega arith),
        valid,
      )
