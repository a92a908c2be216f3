-- ===== src/SeriesCodec.antt =====
-- How series keys, timestamps and samples are stored in every format: `write_series_key` and
-- `read_series_key` of src/segment_file.cpp, whose bodies the payload codecs of src/wal_record.cpp
-- and src/segment_block_codec.cpp repeat in line, and the bit casts of timestamps.
pub mod Layout
pub mod RoundTrip
use chronostore.Common.{
  ℕ, zero, suc, ◌-◌, ◌%◌, ◌/◌, ◌^◌, Bool, true, false, Option, none, some, List, [], ◌∷◌, ◌++◌,
  length, ltb, if◌then◌else◌, Outcome, ok, throw_if, to_option, ◌>>=◌, ◌>>◌,
}
use chronostore.Common.Optional.{◌>>=◌ as ◌>>=?◌, none_if}
use chronostore.Order.{ℤ, pos, negsuc, is_le, list_ord, nat_ord}
use chronostore.Errors.{Exception, length_error}
use chronostore.Model.{Bytes, Tag, SeriesKey, Timestamp, make_tag, make_series_key}
use chronostore.ByteCodec.{
  ByteWriter, ByteReader, write_u32, write_string, read_u32, read_string, remaining,
}

-- `std::bit_cast` between `std::int64_t` and `std::uint64_t`.
unfoldable pub timestamp_bits : Timestamp → ℕ
timestamp_bits (pos n) = n
timestamp_bits (negsuc n) = 2 ^ 64 - 1 - n

unfoldable pub timestamp_of_bits : ℕ → Timestamp
timestamp_of_bits bits = if ltb bits (2 ^ 63) then pos bits else negsuc (2 ^ 64 - 1 - bits)

-- The loop over the tags.
unfoldable pub write_tags : ByteWriter → List Tag → Outcome Exception ByteWriter
write_tags writer [] = ok writer
write_tags writer (tag ∷ tags) = do
  writer ← write_string writer tag.key
  writer ← write_string writer tag.value
  write_tags writer tags

unfoldable pub write_series_key : ByteWriter → SeriesKey → Outcome Exception ByteWriter
unfolding write_tags
write_series_key writer series = do
  writer ← write_string writer series.measurement
  throw_if (ltb (2 ^ 32 - 1) (length series.tags)) length_error
  write_tags (write_u32 writer (length series.tags % 2 ^ 32)) series.tags

-- `key <= tags.back().key()`, where there is a tag already.
unfoldable pub breaks_order : List Tag → Bytes → Bool
breaks_order [] key = false
breaks_order (tag ∷ []) key = is_le key tag.key
breaks_order (tag ∷ next ∷ tags) key = breaks_order (next ∷ tags) key

-- The loop over the tags that insists on increasing keys. The constructor of `Tag` may throw, and
-- the caller answers that by `std::nullopt`.
unfoldable pub read_ordered_tags : ℕ → List Tag → ByteReader → Option (List Tag × ByteReader)
unfolding breaks_order
read_ordered_tags zero tags reader = some (tags, reader)
read_ordered_tags (suc rounds) tags reader = read_string reader >>=? λ (key, reader).
    read_string reader >>=? λ (value, reader). none_if (breaks_order tags key) >>=? λ _.
    to_option (make_tag key value) >>=? λ tag. read_ordered_tags rounds (tags ++ (tag ∷ [])) reader

unfoldable pub read_series_key : ByteReader → Option (SeriesKey × ByteReader)
unfolding read_ordered_tags remaining
read_series_key reader = read_string reader >>=? λ (measurement, reader).
    read_u32 reader >>=? λ (tag_count, reader).
    none_if (ltb (remaining reader / 8) tag_count) >>=? λ _.
    read_ordered_tags tag_count [] reader >>=? λ (tags, reader).
    to_option (make_series_key measurement tags) >>=? λ series. some (series, reader)
