-- ===== src/WalRecord/Payload.antt =====
-- The payload of src/wal_record.cpp and its layout.
use chronostore.Common.{
  ℕ, ◌^◌, ◌<◌, ◌≡◌, arith, List, [], ◌∷◌, ◌++◌, append-nil, append_assoc, All, length, some,
}
use chronostore.Model.{Bytes, Tag, IsTag, IsSeries, IsSample}
use chronostore.Model.Canonical.{make_series_key_self}
use chronostore.ByteCodec.Layout.{u32, u64, string_bytes}
use chronostore.ByteCodec.Read.{reader_at, read_u32-u32, read_u64-u64}
use chronostore.ByteCodec.Strings.{read_string-string_bytes}
use chronostore.SeriesCodec.{timestamp_bits}
use chronostore.SeriesCodec.Layout.{
  tags_bytes, series_bytes, tag_strings_fit, length-tags_bytes, length-series_bytes,
}
use chronostore.SeriesCodec.RoundTrip.{
  timestamp_of_bits_lem, make_sample_self, make_tag_self, end_of_tags,
}
use chronostore.WalRecord.{WalPutRecord, read_tags, decode_payload}
use chronostore.WalRecord.Layout.{payload_bytes, length-payload_bytes}

read_tags-tags_bytes :
    (tags before : List Tag) (position : ℕ) (rest : Bytes)
    → All IsTag tags
    → length (tags_bytes tags) < 2 ^ 32
    → read_tags (length tags) before (reader_at position (tags_bytes tags ++ rest))
      ≡ some (before ++ tags, reader_at (end_of_tags position tags) rest)
unfolding read_tags
read_tags-tags_bytes [] before position rest v h = rw append-nil
read_tags-tags_bytes (tag ∷ tags) before position rest v h =
    let fits = tag_strings_fit tag tags h in
    rw (
      append_assoc (string_bytes tag.key) (string_bytes tag.value ++ tags_bytes tags) rest,
      read_string-string_bytes tag.key position _ v.0.key_bytes fits.0,
      append_assoc (string_bytes tag.value) (tags_bytes tags) rest,
      read_string-string_bytes tag.value _ _ v.0.value_bytes fits.1,
      make_tag_self tag v.0,
      read_tags-tags_bytes tags (before ++ (tag ∷ [])) _ rest v.1 fits.2,
      append_assoc before (tag ∷ []) tags,
    )

payload_in_line :
    (r : WalPutRecord)
    → payload_bytes r
      ≡ string_bytes r.series.measurement
        ++ (u32 (length r.series.tags)
            ++ (tags_bytes r.series.tags
                ++ (u64 (timestamp_bits r.sample.timestamp) ++ (u64 r.sample.value ++ []))))
unfolding payload_bytes series_bytes
payload_in_line r = simp (append_assoc, append-nil)

-- A canonical series key and a valid sample are read back from the payload.
pub decode_payload-payload_bytes :
    (r : WalPutRecord)
    → IsSeries r.series
    → IsSample r.sample
    → length (payload_bytes r) < 2 ^ 32
    → decode_payload (payload_bytes r) ≡ some r
unfolding decode_payload
decode_payload-payload_bytes r v s h =
    let series = r.series in
    let total = length-series_bytes series in
    let payload = length-payload_bytes r in
    let tags_long = length-tags_bytes series.tags in
    let time = timestamp_of_bits_lem r.sample.timestamp s.timestamp_fits in
    rw (
      payload_in_line r,
      read_string-string_bytes series.measurement 0 _ v.measurement_bytes (omega arith),
      read_u32-u32 (length series.tags) _ _ (omega arith),
      read_tags-tags_bytes series.tags [] _ _ v.tags_valid (omega arith),
      read_u64-u64 (timestamp_bits r.sample.timestamp) _ _ time.0,
      read_u64-u64 r.sample.value _ [] s.value_fits,
      make_series_key_self series v,
      time.1,
      make_sample_self r.sample s,
    )
