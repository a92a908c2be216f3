-- ===== src/SegmentFile/Lookup.antt =====
-- A search through blocks, without an index, for comparison with `SegmentReader::get`.
pub mod Get
pub mod File
use chronostore.Common.{
  ℕ, ◌+◌, ◌≡◌, refl, sym, ap, ◌∙◌, arith, ◌⊎◌, inl, inr, Bool, true, false, ◌||◌, ◌&&◌, Option,
  none, some, List, [], ◌∷◌, length, if◌then◌else◌, All, Outcome, ok, Bool-cases,
}
use chronostore.Order.{
  is_lt, is_le, is_eq, int_ord, compare_ℤ-eq, compare_ℤ-self, compare_ℤ-swap, compare_ℤ-trans,
}
use chronostore.Model.{
  SeriesKey, Timestamp, Sample, series_ord, compare_series-eq, compare_series-swap,
  compare_series_self, compare_series_trans,
}
use chronostore.SegmentBlock
use chronostore.SegmentBlock.{
  SegmentBlock, front_timestamp, back_timestamp, first_timestamp, last_timestamp,
}
use chronostore.SegmentFile.Reader.{samples_from, sample_at}

-- The sample at a timestamp, by a search from the front.
abbrev pub find_at : Timestamp → List Sample → Option Sample
find_at at [] = none
find_at at (x ∷ xs) = if is_eq x.timestamp at then some x else find_at at xs

module _ (at : Timestamp) where
  pub none_before :
      (x : Sample) (xs : List Sample)
      → SegmentBlock.has_disorder (x ∷ xs) ≡ false
      → is_lt at x.timestamp ≡ true
      → find_at at (x ∷ xs) ≡ none
  unfolding SegmentBlock.has_disorder
  none_before x [] h l = ground (arith, compare_ℤ-swap at x.timestamp)
  none_before x (y ∷ ys) h l = ground (
    arith,
    compare_ℤ-swap at x.timestamp,
    compare_ℤ-swap x.timestamp y.timestamp,
    compare_ℤ-trans at x.timestamp y.timestamp,
    none_before y ys,
  )

  pub none_after :
      (x : Sample) (xs : List Sample)
      → SegmentBlock.has_disorder (x ∷ xs) ≡ false
      → is_lt (back_timestamp (x ∷ xs)) at ≡ true
      → (is_lt x.timestamp at ≡ true) × (find_at at (x ∷ xs) ≡ none)
  unfolding SegmentBlock.has_disorder
  none_after x [] h l = (l, ground arith)
  none_after x (y ∷ ys) h l = ground (
    arith,
    compare_ℤ-swap x.timestamp y.timestamp,
    compare_ℤ-trans x.timestamp y.timestamp at,
    none_after y ys,
  )

  -- `lower_bound` and the test behind it search ordered samples.
  pub sample_at-find_at :
      (xs : List Sample) → SegmentBlock.has_disorder xs ≡ false → sample_at at xs ≡ find_at at xs
  unfolding sample_at samples_from SegmentBlock.has_disorder
  sample_at-find_at [] h = refl
  sample_at-find_at (x ∷ []) h = ground arith
  sample_at-find_at (x ∷ y ∷ ys) h = ground (
    arith,
    compare_ℤ-swap x.timestamp at,
    compare_ℤ-swap x.timestamp y.timestamp,
    compare_ℤ-trans at x.timestamp y.timestamp,
    none_before y ys,
    sample_at-find_at (y ∷ ys),
  )

-- The first answer, or the second where there is none.
abbrev pub or_else : Option Sample → Option Sample → Option Sample
or_else (some x) other = some x
or_else none other = other

abbrev pub found_in : SegmentBlock → SeriesKey → Timestamp → Option Sample
found_in b s at = if is_eq b.series s then find_at at b.samples else none

-- The sample of a series at a timestamp, by a search through all the blocks.
abbrev pub lookup : List SegmentBlock → SeriesKey → Timestamp → Option Sample
lookup [] s at = none
lookup (b ∷ bs) s at = or_else (found_in b s at) (lookup bs s at)
