-- ===== src/StorageEngine/Blocks.antt =====
-- How a flush of src/storage_engine.cpp cuts the samples of a series into blocks.
use chronostore.Common.{
  ℕ, zero, suc, ◌≤◌, ◌≡◌, refl, arith, false, List, [], ◌∷◌, ◌++◌, length, length-take, length-drop,
  take, drop, take-append-drop, All, ok, ltb-false,
}
use chronostore.Model.{SeriesKey, Sample}
use chronostore.SegmentBlock.{SegmentBlock, has_disorder, make_segment_block}
use chronostore.StorageEngine.{blocks_of_samples}

take-nil : (n : ℕ) → take {A = Sample} n [] ≡ []
take-nil zero = refl
take-nil (suc n) = refl

has_disorder-take :
    (n : ℕ) (xs : List Sample) → has_disorder xs ≡ false → has_disorder (take n xs) ≡ false
unfolding has_disorder
has_disorder-take zero xs h = refl
has_disorder-take (suc n) [] h = refl
has_disorder-take (suc n) (x ∷ []) h = rw (take-nil n) refl
has_disorder-take (suc zero) (x ∷ y ∷ ys) h = refl
has_disorder-take (suc (suc n)) (x ∷ y ∷ ys) h = ground (arith, has_disorder-take (suc n) (y ∷ ys))

has_disorder-tail :
    (x : Sample) (xs : List Sample) → has_disorder (x ∷ xs) ≡ false → has_disorder xs ≡ false
unfolding has_disorder
has_disorder-tail x [] h = refl
has_disorder-tail x (y ∷ ys) h = ground arith

has_disorder-drop :
    (n : ℕ) (xs : List Sample) → has_disorder xs ≡ false → has_disorder (drop n xs) ≡ false
has_disorder-drop zero xs h = h
has_disorder-drop (suc n) [] h = h
has_disorder-drop (suc n) (x ∷ xs) h = has_disorder-drop n xs (has_disorder-tail x xs h)

make_segment_block_lem :
    (series : SeriesKey) (x : Sample) (xs : List Sample)
    → length (x ∷ xs) ≤ 256
    → has_disorder (x ∷ xs) ≡ false
    → make_segment_block series (x ∷ xs) ≡ ok (record { series = series; samples = x ∷ xs })
unfolding make_segment_block
make_segment_block_lem series x xs short ordered =
    rw (ltb-false 256 (length (x ∷ xs)) short, ordered) refl

-- The samples of blocks, one block after the other.
abbrev pub all_samples : List SegmentBlock → List Sample
all_samples [] = []
all_samples (block ∷ blocks) = block.samples ++ all_samples blocks

-- A block of the series that its constructor accepts.
abbrev pub IsBlockOf : SeriesKey → SegmentBlock → Type 0
IsBlockOf series block =
    (block.series ≡ series) × (make_segment_block series block.samples ≡ ok block)

-- The samples of a series in increasing order of time are cut into blocks that the constructor of
-- `SegmentBlock` accepts, and whose samples, put together, are those of the series.
pub blocks_of_samples_lem :
    (fuel : ℕ) (series : SeriesKey) (samples : List Sample)
    → has_disorder samples ≡ false
    → length samples ≤ fuel
    → (blocks : List SegmentBlock) × (blocks_of_samples fuel series samples ≡ ok blocks)
      × (all_samples blocks ≡ samples)
      × All (IsBlockOf series) blocks
unfolding blocks_of_samples
blocks_of_samples_lem fuel series [] h f = ([], refl, refl, tt)
blocks_of_samples_lem zero series (x ∷ xs) h f = absurd (omega arith)
blocks_of_samples_lem (suc fuel) series (x ∷ xs) h f =
    let left = drop 256 (x ∷ xs) in
    let (blocks, cut, together, valid) =
      blocks_of_samples_lem fuel series left (has_disorder-drop 256 (x ∷ xs) h)
        (omega (arith, length-drop 256 (x ∷ xs))) in
    let made =
      make_segment_block_lem series x (take 255 xs) (omega (arith, length-take 255 xs))
        (has_disorder-take 256 (x ∷ xs) h) in
    (
      record { series = series; samples = take 256 (x ∷ xs) } ∷ blocks,
      rw (made, cut) refl,
      rw together (take-append-drop 256 (x ∷ xs)),
      ((refl, made), valid),
    )
