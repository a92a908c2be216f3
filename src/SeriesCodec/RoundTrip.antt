-- ===== src/SeriesCodec/RoundTrip.antt =====
-- Timestamps and their bits, and series keys and their layout.
use chronostore.Common.{
  ℕ, ◌+◌, ◌/◌, ◌^◌, ◌<◌, ◌≡◌, refl, sym, arith, List, [], ◌∷◌, ◌++◌, append-nil, append_assoc, All,
  length, length-append, ltb-false, ok, some, false,
}
use mathlib.Core.Path.{subst}
use chronostore.Order.{pos, negsuc, compare_list-swap, nat_ord}
use chronostore.Model.{
  Bytes, Tag, SeriesKey, Timestamp, Sample, IsTag, IsSeries, IsSample, make_sample, IsInt64,
  KeysIncrease, make_tag,
}
use chronostore.Model.Canonical.{make_series_key_self}
use chronostore.ByteCodec.Layout.{u32, string_bytes}
use chronostore.ByteCodec.Read.{reader_at, read_u32-u32}
use chronostore.ByteCodec.Strings.{read_string-string_bytes}
use chronostore.SeriesCodec.{
  timestamp_bits, timestamp_of_bits, breaks_order, read_ordered_tags, read_series_key,
}
use chronostore.SeriesCodec.Layout.{
  tags_bytes, series_bytes, tag_strings_fit, length-tags_bytes, length-series_bytes,
}

-- The cast of a 64-bit timestamp is a 64-bit word, and the cast back returns the timestamp.
pub timestamp_of_bits_lem :
    (t : Timestamp)
    → IsInt64 t
    → (timestamp_bits t < 2 ^ 64) × (timestamp_of_bits (timestamp_bits t) ≡ t)
unfolding timestamp_bits timestamp_of_bits
timestamp_of_bits_lem (pos n) h = (omega arith, ground arith)
timestamp_of_bits_lem (negsuc n) h = (omega arith, ground arith)

-- The cast of a 64-bit word is a 64-bit timestamp.
pub timestamp_of_bits-IsInt64 : (bits : ℕ) → bits < 2 ^ 64 → IsInt64 (timestamp_of_bits bits)
unfolding timestamp_of_bits
timestamp_of_bits-IsInt64 bits h = ground arith

pub make_tag_self : (tag : Tag) → IsTag tag → make_tag tag.key tag.value ≡ ok tag
unfolding make_tag
make_tag_self tag v = rw v.key_nonempty

pub make_sample_self : (s : Sample) → IsSample s → make_sample s.timestamp s.value ≡ ok s
unfolding make_sample
make_sample_self s v = rw v.value_finite

breaks_order-increase :
    (before : List Tag) (tag : Tag) (tags : List Tag)
    → KeysIncrease (before ++ (tag ∷ tags))
    → breaks_order before tag.key ≡ false
unfolding breaks_order
breaks_order-increase [] tag tags h = refl
breaks_order-increase (s ∷ []) tag tags h = ground (arith, compare_list-swap s.key tag.key, h.0)
breaks_order-increase (s ∷ t ∷ ts) tag tags h = breaks_order-increase (t ∷ ts) tag tags h.1

abbrev pub end_of_tags : ℕ → List Tag → ℕ
end_of_tags position [] = position
end_of_tags position (tag ∷ tags) =
    end_of_tags (position + 4 + length tag.key + 4 + length tag.value) tags

pub read_ordered_tags-tags_bytes :
    (tags before : List Tag) (position : ℕ) (rest : Bytes)
    → All IsTag tags
    → KeysIncrease (before ++ tags)
    → length (tags_bytes tags) < 2 ^ 32
    → read_ordered_tags (length tags) before (reader_at position (tags_bytes tags ++ rest))
      ≡ some (before ++ tags, reader_at (end_of_tags position tags) rest)
unfolding read_ordered_tags
read_ordered_tags-tags_bytes [] before position rest v k h = rw append-nil
read_ordered_tags-tags_bytes (tag ∷ tags) before position rest v k h =
    let fits = tag_strings_fit tag tags h in
    let shape =
      append_assoc (string_bytes tag.key) (string_bytes tag.value ++ tags_bytes tags) rest in
    let shape' = append_assoc (string_bytes tag.value) (tags_bytes tags) rest in
    let joined = append_assoc before (tag ∷ []) tags in
    rw (
      shape,
      read_string-string_bytes tag.key position _ v.0.key_bytes fits.0,
      shape',
      read_string-string_bytes tag.value _ _ v.0.value_bytes fits.1,
      breaks_order-increase before tag tags k,
      make_tag_self tag v.0,
      read_ordered_tags-tags_bytes tags (before ++ (tag ∷ [])) _ rest v.1
          (subst KeysIncrease (sym joined) k) fits.2,
      joined,
    )

-- A canonical series key whose layout has fewer than 2^32 bytes is read back from it, whatever
-- follows it.
pub read_series_key-series_bytes :
    (s : SeriesKey) (position : ℕ) (rest : Bytes)
    → IsSeries s
    → length (series_bytes s) < 2 ^ 32
    → read_series_key (reader_at position (series_bytes s ++ rest))
      ≡ some (s, reader_at (end_of_tags (position + 4 + length s.measurement + 4) s.tags) rest)
unfolding read_series_key series_bytes
read_series_key-series_bytes s position rest v h =
    let tags_long = length-tags_bytes s.tags in
    let total = length-series_bytes s in
    let tail = length-append (tags_bytes s.tags) rest in
    rw (
      append_assoc (string_bytes s.measurement) (u32 (length s.tags) ++ tags_bytes s.tags) rest,
      read_string-string_bytes s.measurement position _ v.measurement_bytes (omega arith),
      append_assoc (u32 (length s.tags)) (tags_bytes s.tags) rest,
      read_u32-u32 (length s.tags) _ _ (omega arith),
      ltb-false (length (tags_bytes s.tags ++ rest) / 8) (length s.tags) (omega arith),
      read_ordered_tags-tags_bytes s.tags [] _ rest v.tags_valid v.keys_increase (omega arith),
      make_series_key_self s v,
    )
