-- ===== src/Model.antt =====
-- include/chronostore/model.hpp and src/model.cpp: tags, series keys, timestamps and samples.
-- A `std::string` is the list of its bytes. A timestamp is the integer of its nanoseconds. A
-- `double` is its IEEE 754 bit pattern, which is what every format stores.
mod Compare
pub mod Canonical
pub use Compare.*
use chronostore.Common.{
  ℕ, ◌/◌, ◌%◌, ◌^◌, ◌<◌, ◌≡◌, ◌≢◌, Bool, true, false, not, ◌||◌, List, [], ◌∷◌, All, Outcome, ok,
  throw_if, ◌>>=◌, ◌>>◌, ◌!=◌,
}
use chronostore.Order.{ℤ, pos, negsuc, is_eq, is_lt, list_ord, nat_ord}
use chronostore.Order.Sort.{sort}
use chronostore.Errors.{Exception, invalid_argument}

abbrev pub is_empty {ℓ} : {A : Type ℓ} → List A → Bool
is_empty [] = true
is_empty (x ∷ xs) = false

-- The constructor of `Tag`.
unfoldable pub make_tag : Bytes → Bytes → Outcome Exception Tag
make_tag key value = do
  throw_if (is_empty key) invalid_argument
  ok (record { key = key; value = value })

-- The loop of `SeriesKey`'s constructor over neighbours: two equal keys side by side.
unfoldable pub has_duplicate_key : List Tag → Bool
has_duplicate_key [] = false
has_duplicate_key (previous ∷ []) = false
has_duplicate_key (previous ∷ current ∷ rest) =
    is_eq previous.key current.key || has_duplicate_key (current ∷ rest)

-- The constructor of `SeriesKey`.
unfoldable pub make_series_key : Bytes → List Tag → Outcome Exception SeriesKey
unfolding sort has_duplicate_key
make_series_key measurement tags = do
  throw_if (is_empty measurement) invalid_argument
  let sorted = sort tags
  throw_if (has_duplicate_key sorted) invalid_argument
  ok (record { measurement = measurement; tags = sorted })

-- `std::isfinite`: the eleven bits of the exponent are not all set.
unfoldable pub is_finite : ℕ → Bool
is_finite bits = bits / 2 ^ 52 % 2 ^ 11 != 2047

-- The constructor of `Sample`.
unfoldable pub make_sample : Timestamp → ℕ → Outcome Exception Sample
unfolding is_finite
make_sample timestamp value = do
  throw_if (not (is_finite value)) invalid_argument
  ok (record { timestamp = timestamp; value = value })

abbrev pub IsByte : ℕ → Type 0
IsByte b = b < 256

-- A value that fits `std::int64_t`.
abbrev pub IsInt64 : Timestamp → Type 0
IsInt64 (pos n) = n < 2 ^ 63
IsInt64 (negsuc n) = n < 2 ^ 63

pub record IsTag (t : Tag) : Type 0 where
  pub key_bytes : All IsByte t.key
  pub value_bytes : All IsByte t.value
  pub key_nonempty : is_empty t.key ≡ false

-- Keys strictly increase from each tag to the next.
abbrev pub KeysIncrease : List Tag → Type 0
KeysIncrease [] = Unit
KeysIncrease (s ∷ []) = Unit
KeysIncrease (s ∷ t ∷ ts) = (is_lt s.key t.key ≡ true) × KeysIncrease (t ∷ ts)

-- What every constructed series key satisfies.
pub record IsSeries (s : SeriesKey) : Type 0 where
  pub measurement_bytes : All IsByte s.measurement
  pub measurement_nonempty : is_empty s.measurement ≡ false
  pub tags_valid : All IsTag s.tags
  pub keys_increase : KeysIncrease s.tags

-- What every constructed sample satisfies.
pub record IsSample (s : Sample) : Type 0 where
  pub timestamp_fits : IsInt64 s.timestamp
  pub value_fits : s.value < 2 ^ 64
  pub value_finite : is_finite s.value ≡ true
