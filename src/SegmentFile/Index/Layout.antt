-- ===== src/SegmentFile/Index/Layout.antt =====
-- The documented layout of the index of a segment file, and the encoder of src/segment_file.cpp.
use native.Mathlib.Nat.{mod-eq_of_lt}
use chronostore.Common.{
  ℕ, ◌+◌, ◌*◌, ◌^◌, ◌<◌, ◌≤◌, ◌≡◌, refl, ap, ◌∙◌, arith, List, [], ◌∷◌, ◌++◌, append-nil, length,
  length-append, ltb, ok, >>=-eq-ok, >>-eq-ok, ltb→le, All,
}
use chronostore.Model.{Bytes, IsByte, IsSeries, IsInt64}
use chronostore.ByteCodec.{ByteWriter}
use chronostore.ByteCodec.Layout.{u16, u32, u64, length-u32, byte_rules}
use chronostore.ByteCodec.Write.{write_laws}
use chronostore.Crc32c.{crc32c}
use chronostore.SeriesCodec.{timestamp_bits, write_series_key}
use chronostore.SeriesCodec.Layout.{series_bytes, series_bytes-IsByte, write_series_key-eq-ok}
use chronostore.SegmentFile.{
  SegmentIndexEntry, segment_index_magic, segment_file_version, segment_file_flags,
  max_index_payload_size,
}
use chronostore.SegmentFile.Index.{inverted_size, write_entries, write_index, encode_index}

-- An entry whose fields fit their machine words.
pub record IsEntry (entry : SegmentIndexEntry) : Type 0 where
  pub series_valid : IsSeries entry.series
  pub first_fits : IsInt64 entry.first_timestamp
  pub last_fits : IsInt64 entry.last_timestamp
  pub offset_fits : entry.block_offset < 2 ^ 64
  pub size_fits : entry.block_size < 2 ^ 32
  pub count_fits : entry.sample_count < 2 ^ 32

unfoldable pub numbers_bytes : SegmentIndexEntry → Bytes
numbers_bytes entry =
    u64 entry.block_offset
    ++ (u32 entry.block_size
        ++ (u32 entry.sample_count
            ++ (u64 (timestamp_bits entry.first_timestamp)
                ++ u64 (timestamp_bits entry.last_timestamp))))

abbrev pub entries_bytes : List SegmentIndexEntry → Bytes
entries_bytes [] = []
entries_bytes (entry ∷ entries) =
    numbers_bytes entry ++ (series_bytes entry.series ++ entries_bytes entries)

unfoldable pub header_bytes : ℕ → ℕ → Bytes
header_bytes count size =
    u32 segment_index_magic
    ++ (u16 segment_file_version
        ++ (u16 segment_file_flags ++ (u32 count ++ (u32 size ++ u32 (inverted_size size)))))

-- The bytes that the checksum covers.
unfoldable pub protected_bytes : List SegmentIndexEntry → Bytes
protected_bytes entries =
    header_bytes (length entries) (length (entries_bytes entries)) ++ entries_bytes entries

unfoldable pub index_bytes : List SegmentIndexEntry → Bytes
index_bytes entries = protected_bytes entries ++ u32 (crc32c (protected_bytes entries))

pub length-header_bytes : (count size : ℕ) → length (header_bytes count size) ≡ 20
unfolding header_bytes u16 u32
length-header_bytes count size = refl

length-numbers_bytes : (entry : SegmentIndexEntry) → length (numbers_bytes entry) ≡ 32
unfolding numbers_bytes u32 u64
length-numbers_bytes entry = refl

pub length-entries_bytes :
    (entry : SegmentIndexEntry) (entries : List SegmentIndexEntry)
    → length (entries_bytes (entry ∷ entries))
      ≡ 32 + length (series_bytes entry.series) + length (entries_bytes entries)
length-entries_bytes entry entries = omega (
  arith,
  length-append (numbers_bytes entry) (series_bytes entry.series ++ entries_bytes entries),
  length-append (series_bytes entry.series) (entries_bytes entries),
  length-numbers_bytes entry,
)

-- Every entry takes 32 bytes at least.
pub entries_bytes_bound :
    (entries : List SegmentIndexEntry) → length entries * 32 ≤ length (entries_bytes entries)
entries_bytes_bound [] = omega arith
entries_bytes_bound (entry ∷ entries) =
    omega (arith, length-entries_bytes entry entries, entries_bytes_bound entries)

pub length-protected_bytes :
    (entries : List SegmentIndexEntry)
    → length (protected_bytes entries) ≡ 20 + length (entries_bytes entries)
unfolding protected_bytes
length-protected_bytes entries =
    let size = length (entries_bytes entries) in
    omega (
      arith,
      length-append (header_bytes (length entries) size) (entries_bytes entries),
      length-header_bytes (length entries) size,
    )

pub length-index_bytes :
    (entries : List SegmentIndexEntry)
    → length (index_bytes entries) ≡ 24 + length (entries_bytes entries)
unfolding index_bytes
length-index_bytes entries =
    let checksum = crc32c (protected_bytes entries) in
    omega (
      arith,
      length-append (protected_bytes entries) (u32 checksum),
      length-protected_bytes entries,
      length-u32 checksum,
    )

numbers_bytes-IsByte : (entry : SegmentIndexEntry) → All IsByte (numbers_bytes entry)
unfolding numbers_bytes
numbers_bytes-IsByte entry = search byte_rules depth 12

entries_bytes-IsByte :
    (entries : List SegmentIndexEntry) → All IsEntry entries → All IsByte (entries_bytes entries)
entries_bytes-IsByte [] v = tt
entries_bytes-IsByte (entry ∷ entries) v = search (
  byte_rules,
  numbers_bytes-IsByte entry,
  series_bytes-IsByte entry.series v.0.series_valid,
  entries_bytes-IsByte entries v.1,
)

pub protected_bytes-IsByte :
    (entries : List SegmentIndexEntry) → All IsEntry entries → All IsByte (protected_bytes entries)
unfolding protected_bytes header_bytes
protected_bytes-IsByte entries v = search (byte_rules, entries_bytes-IsByte entries v) depth 12

write_entries-eq-ok :
    (entries : List SegmentIndexEntry) (payload payload' : ByteWriter)
    → All IsEntry entries
    → write_entries payload entries ≡ ok payload'
    → payload' ≡ payload ++ entries_bytes entries
unfolding write_entries numbers_bytes
write_entries-eq-ok [] payload payload' v h = ground (arith, append-nil payload)
write_entries-eq-ok (entry ∷ entries) payload payload' v h =
    let (w, h', e) = >>=-eq-ok _ (write_series_key _ entry.series) h in
    let laid = write_series_key-eq-ok entry.series _ w v.0.series_valid e in
    write_entries-eq-ok entries w payload' v.1 h' ∙ rw laid (simp write_laws)

write_index-index_bytes :
    (entries : List SegmentIndexEntry)
    → length (entries_bytes entries) < 2 ^ 32
    → length entries < 2 ^ 32
    → write_index (length entries) (entries_bytes entries) ≡ index_bytes entries
unfolding write_index index_bytes protected_bytes header_bytes
write_index-index_bytes entries short few =
    rw (mod-eq_of_lt short, mod-eq_of_lt few) (simp write_laws)

-- Whenever entries whose fields fit are encoded, they are laid out as documented, and the payload
-- of the index is within the limit of 64 MiB.
pub encode_index-eq-ok :
    (entries : List SegmentIndexEntry) (bytes : Bytes)
    → All IsEntry entries
    → encode_index entries ≡ ok bytes
    → (bytes ≡ index_bytes entries) × (length (entries_bytes entries) ≤ max_index_payload_size)
unfolding encode_index
encode_index-eq-ok entries bytes v h =
    let (payload, h1, written) = >>=-eq-ok _ (write_entries [] entries) h in
    let (small, h2) = >>-eq-ok (ltb max_index_payload_size (length payload)) _ _ h1 in
    let laid : payload ≡ entries_bytes entries = write_entries-eq-ok entries [] payload v written in
    let size = ap length laid in
    let fits = ltb→le max_index_payload_size (length payload) small in
    let each = entries_bytes_bound entries in
    let framed = write_index-index_bytes entries (omega arith) (omega arith) in
    (cc (h2, laid, framed), omega arith)
