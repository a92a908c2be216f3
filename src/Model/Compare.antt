-- ===== src/Model/Compare.antt =====
-- The types of the model and their defaulted `<=>`: field by field, in the order of declaration.
use Prim.Native.Nat.{Ordering}
use Prim.Native.Nat.Ordering.{lt, eq}
use chronostore.Common.{ℕ, ◌≡◌, arith, List}
use chronostore.Order.{
  Ord, ℤ, then_by, flip, compare_list, list_ord, nat_ord, int_ord, compare_list_self,
  compare_list-eq, compare_list-swap, compare_list_trans,
}

-- A sequence of bytes: a `std::string`, or a `std::vector<std::uint8_t>`.
abbrev pub Bytes : Type 0
Bytes = List ℕ

pub record Tag : Type 0 where
  pub key : Bytes
  pub value : Bytes

abbrev pub compare_tag : Tag → Tag → Ordering
compare_tag s t = then_by (compare_list s.key t.key) (compare_list s.value t.value)

pub compare_tag_self : (a : Tag) → compare_tag a a ≡ eq
compare_tag_self a = ground (arith, compare_list_self a.key, compare_list_self a.value)

pub compare_tag-eq : (a b : Tag) → compare_tag a b ≡ eq → a ≡ b
compare_tag-eq a b h = ground (arith, compare_list-eq a.key b.key, compare_list-eq a.value b.value)

pub compare_tag-swap : (a b : Tag) → compare_tag b a ≡ flip (compare_tag a b)
compare_tag-swap a b =
    ground (arith, compare_list-swap a.key b.key, compare_list-swap a.value b.value)

pub compare_tag_trans :
    (a b c : Tag) → compare_tag a b ≡ lt → compare_tag b c ≡ lt → compare_tag a c ≡ lt
compare_tag_trans a b c h k = ground (
  arith,
  compare_list-eq a.key b.key,
  compare_list-eq b.key c.key,
  compare_list_trans a.key b.key c.key,
  compare_list_trans a.value b.value c.value,
)

instance abbrev pub tag_ord : Ord Tag
tag_ord = record {
  cmp = compare_tag;
  cmp_self = compare_tag_self;
  eq_of_cmp = compare_tag-eq;
  cmp_swap = compare_tag-swap;
  lt_trans = compare_tag_trans;
}

pub record SeriesKey : Type 0 where
  pub measurement : Bytes
  pub tags : List Tag

abbrev pub compare_series : SeriesKey → SeriesKey → Ordering
compare_series s t = then_by (compare_list s.measurement t.measurement) (compare_list s.tags t.tags)

pub compare_series_self : (a : SeriesKey) → compare_series a a ≡ eq
compare_series_self a = ground (arith, compare_list_self a.measurement, compare_list_self a.tags)

pub compare_series-eq : (a b : SeriesKey) → compare_series a b ≡ eq → a ≡ b
compare_series-eq a b h =
    ground (arith, compare_list-eq a.measurement b.measurement, compare_list-eq a.tags b.tags)

pub compare_series-swap : (a b : SeriesKey) → compare_series b a ≡ flip (compare_series a b)
compare_series-swap a b =
    ground (arith, compare_list-swap a.measurement b.measurement, compare_list-swap a.tags b.tags)

pub compare_series_trans :
    (a b c : SeriesKey)
    → compare_series a b ≡ lt
    → compare_series b c ≡ lt
    → compare_series a c ≡ lt
compare_series_trans a b c h k = ground (
  arith,
  compare_list-eq a.measurement b.measurement,
  compare_list-eq b.measurement c.measurement,
  compare_list_trans a.measurement b.measurement c.measurement,
  compare_list_trans a.tags b.tags c.tags,
)

instance abbrev pub series_ord : Ord SeriesKey
series_ord = record {
  cmp = compare_series;
  cmp_self = compare_series_self;
  eq_of_cmp = compare_series-eq;
  cmp_swap = compare_series-swap;
  lt_trans = compare_series_trans;
}

-- Nanoseconds since the epoch, compared as signed integers.
abbrev pub Timestamp : Type 0
Timestamp = ℤ

-- The value is the bit pattern of the `double`.
pub record Sample : Type 0 where
  pub timestamp : Timestamp
  pub value : ℕ
