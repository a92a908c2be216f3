-- ===== src/SegmentBlock.antt =====
-- src/segment_block.cpp: up to 256 samples of one series, in increasing order of time.
use chronostore.Common.{
  ℕ, Bool, false, ◌||◌, List, [], ◌∷◌, length, ltb, Outcome, ok, throw_if, ◌>>◌,
}
use chronostore.Order.{pos, is_le, int_ord}
use chronostore.Errors.{Exception, invalid_argument, length_error}
use chronostore.Model.{SeriesKey, Timestamp, Sample, is_empty}

abbrev pub max_samples_per_segment_block : ℕ
max_samples_per_segment_block = 256

pub record SegmentBlock : Type 0 where
  pub series : SeriesKey
  pub samples : List Sample

-- The loop over neighbours: a timestamp that is not after the one before it.
unfoldable pub has_disorder : List Sample → Bool
has_disorder [] = false
has_disorder (previous ∷ []) = false
has_disorder (previous ∷ current ∷ rest) =
    is_le current.timestamp previous.timestamp || has_disorder (current ∷ rest)

-- The constructor of `SegmentBlock`.
unfoldable pub make_segment_block : SeriesKey → List Sample → Outcome Exception SegmentBlock
unfolding has_disorder
make_segment_block series samples = do
  throw_if (is_empty samples) invalid_argument
  throw_if (ltb max_samples_per_segment_block (length samples)) length_error
  throw_if (has_disorder samples) invalid_argument
  ok (record { series = series; samples = samples })

unfoldable pub sample_count : SegmentBlock → ℕ
sample_count block = length block.samples

-- `samples_.front()` and `samples_.back()`. A constructed block is not empty; for an empty one the
-- code has no behaviour, and zero stands here.
abbrev pub front_timestamp : List Sample → Timestamp
front_timestamp [] = pos 0
front_timestamp (sample ∷ samples) = sample.timestamp

abbrev pub back_timestamp : List Sample → Timestamp
back_timestamp [] = pos 0
back_timestamp (sample ∷ []) = sample.timestamp
back_timestamp (sample ∷ next ∷ samples) = back_timestamp (next ∷ samples)

unfoldable pub first_timestamp : SegmentBlock → Timestamp
first_timestamp block = front_timestamp block.samples

unfoldable pub last_timestamp : SegmentBlock → Timestamp
last_timestamp block = back_timestamp block.samples
