-- ===== src/SeriesCodec/Layout.antt =====
-- The documented layout of a series key, and its writer.
use chronostore.Common.{
  ◌+◌, ◌-◌, ◌*◌, ◌^◌, ◌<◌, ◌≤◌, ◌≡◌, ap, ◌∙◌, arith, List, [], ◌∷◌, ◌++◌, append-nil, append_assoc,
  All, length, length-append, ltb, ltb-false, ok, >>=-eq-ok, >>-eq-ok, ltb→le,
}
use native.Mathlib.Nat.{mod-eq_of_lt}
use chronostore.Model.{Bytes, Tag, SeriesKey, IsTag, IsSeries, IsByte}
use chronostore.ByteCodec.{ByteWriter, write_string}
use chronostore.ByteCodec.Layout.{
  u32, string_bytes, length-u32, length-string_bytes, ++-IsByte, u32-IsByte, string_bytes-IsByte,
}
use chronostore.ByteCodec.Write.{write_u32-u32, write_string-string_bytes, write_string-eq-ok}
use chronostore.SeriesCodec.{write_tags, write_series_key}

abbrev pub tags_bytes : List Tag → Bytes
tags_bytes [] = []
tags_bytes (tag ∷ tags) = string_bytes tag.key ++ (string_bytes tag.value ++ tags_bytes tags)

unfoldable pub series_bytes : SeriesKey → Bytes
series_bytes s = string_bytes s.measurement ++ (u32 (length s.tags) ++ tags_bytes s.tags)

-- Each tag takes eight bytes at least.
pub length-tags_bytes : (tags : List Tag) → 8 * length tags ≤ length (tags_bytes tags)
length-tags_bytes [] = omega arith
length-tags_bytes (tag ∷ tags) = omega (
  arith,
  length-append (string_bytes tag.key) (string_bytes tag.value ++ tags_bytes tags),
  length-append (string_bytes tag.value) (tags_bytes tags),
  length-string_bytes tag.key,
  length-string_bytes tag.value,
  length-tags_bytes tags,
)

pub length-series_bytes :
    (s : SeriesKey)
    → length (series_bytes s) ≡ 4 + length s.measurement + (4 + length (tags_bytes s.tags))
unfolding series_bytes
length-series_bytes s = omega (
  arith,
  length-append (string_bytes s.measurement) (u32 (length s.tags) ++ tags_bytes s.tags),
  length-append (u32 (length s.tags)) (tags_bytes s.tags),
  length-string_bytes s.measurement,
  length-u32 (length s.tags),
)

-- Every string of a tag list that lays out in fewer than 2 ^ 32 bytes is that short too.
pub tag_strings_fit :
    (tag : Tag) (tags : List Tag)
    → length (tags_bytes (tag ∷ tags)) < 2 ^ 32
    → (length tag.key < 2 ^ 32) × (length tag.value < 2 ^ 32) × (length (tags_bytes tags) < 2 ^ 32)
tag_strings_fit tag tags h = omega (
  arith,
  length-append (string_bytes tag.key) (string_bytes tag.value ++ tags_bytes tags),
  length-append (string_bytes tag.value) (tags_bytes tags),
  length-string_bytes tag.key,
  length-string_bytes tag.value,
)

write_tags-tags_bytes :
    (tags : List Tag) (writer : ByteWriter)
    → All IsTag tags
    → length (tags_bytes tags) < 2 ^ 32
    → write_tags writer tags ≡ ok (writer ++ tags_bytes tags)
unfolding write_tags
write_tags-tags_bytes [] writer v h = rw append-nil
write_tags-tags_bytes (tag ∷ tags) writer v h =
    let fits = tag_strings_fit tag tags h in
    rw
      (
        write_string-string_bytes writer tag.key v.0.key_bytes fits.0,
        write_string-string_bytes _ tag.value v.0.value_bytes fits.1,
        write_tags-tags_bytes tags _ v.1 fits.2,
      )
      (ap ok (simp append_assoc))

-- A canonical series key whose layout has fewer than 2 ^ 32 bytes is written in that layout.
pub write_series_key-series_bytes :
    (s : SeriesKey) (writer : ByteWriter)
    → IsSeries s
    → length (series_bytes s) < 2 ^ 32
    → write_series_key writer s ≡ ok (writer ++ series_bytes s)
unfolding write_series_key series_bytes
write_series_key-series_bytes s writer v h =
    let tags_long = length-tags_bytes s.tags in
    let total = length-series_bytes s in
    let short : length s.tags < 2 ^ 32 = omega arith in
    rw
      (
        write_string-string_bytes writer s.measurement v.measurement_bytes (omega arith),
        ltb-false (2 ^ 32 - 1) (length s.tags) (omega arith),
        mod-eq_of_lt short,
        write_u32-u32,
        write_tags-tags_bytes s.tags _ v.tags_valid (omega arith),
      )
      (ap ok (simp append_assoc))

tags_bytes-IsByte : (tags : List Tag) → All IsTag tags → All IsByte (tags_bytes tags)
tags_bytes-IsByte [] v = tt
tags_bytes-IsByte (tag ∷ tags) v =
    ++-IsByte (string_bytes tag.key) _ (string_bytes-IsByte tag.key v.0.key_bytes) (
      ++-IsByte (string_bytes tag.value) _ (string_bytes-IsByte tag.value v.0.value_bytes)
        (tags_bytes-IsByte tags v.1))

pub series_bytes-IsByte : (s : SeriesKey) → IsSeries s → All IsByte (series_bytes s)
unfolding series_bytes
series_bytes-IsByte s v =
    ++-IsByte (string_bytes s.measurement) _ (string_bytes-IsByte s.measurement v.measurement_bytes)
      (++-IsByte (u32 (length s.tags)) _ (u32-IsByte (length s.tags))
        (tags_bytes-IsByte s.tags v.tags_valid))

write_tags-eq-ok :
    (tags : List Tag) (writer writer' : ByteWriter)
    → All IsTag tags
    → write_tags writer tags ≡ ok writer'
    → writer' ≡ writer ++ tags_bytes tags
unfolding write_tags
write_tags-eq-ok [] writer writer' v h = ground (arith, append-nil writer)
write_tags-eq-ok (tag ∷ tags) writer writer' v h =
    let (w1, h1, e1) = >>=-eq-ok _ (write_string writer tag.key) h in
    let (w2, h2, e2) = >>=-eq-ok _ (write_string w1 tag.value) h1 in
    let key =
      write_string-string_bytes writer tag.key v.0.key_bytes
        (write_string-eq-ok writer w1 tag.key e1) in
    let value =
      write_string-string_bytes w1 tag.value v.0.value_bytes
        (write_string-eq-ok w1 w2 tag.value e2) in
    let e1' : w1 ≡ writer ++ string_bytes tag.key = cc (key, e1) in
    let e2' : w2 ≡ w1 ++ string_bytes tag.value = cc (value, e2) in
    write_tags-eq-ok tags w2 writer' v.1 h2 ∙ rw (e2', e1') (simp append_assoc)

-- Whenever a canonical series key is written, it is written in the documented layout.
pub write_series_key-eq-ok :
    (s : SeriesKey) (writer writer' : ByteWriter)
    → IsSeries s
    → write_series_key writer s ≡ ok writer'
    → writer' ≡ writer ++ series_bytes s
unfolding write_series_key series_bytes
write_series_key-eq-ok s writer writer' v h =
    let (w1, h1, e1) = >>=-eq-ok _ (write_string writer s.measurement) h in
    let (few, h2) = >>-eq-ok (ltb (2 ^ 32 - 1) (length s.tags)) _ _ h1 in
    let short : length s.tags < 2 ^ 32 = omega (arith, ltb→le (2 ^ 32 - 1) (length s.tags) few) in
    let name =
      write_string-string_bytes writer s.measurement v.measurement_bytes
        (write_string-eq-ok writer w1 s.measurement e1) in
    let e1' : w1 ≡ writer ++ string_bytes s.measurement = cc (name, e1) in
    write_tags-eq-ok s.tags _ writer' v.tags_valid h2
    ∙ rw (mod-eq_of_lt short, write_u32-u32, e1') (simp append_assoc)
