-- ===== src/StorageEngine/Flushed.antt =====
-- The blocks that src/storage_engine.cpp makes of the table in memory.
pub mod Constructed
pub mod Returns
pub mod Answers
pub mod Counted
use chronostore.Common.{
  ℕ, ◌≤◌, ◌≡◌, refl, sym, ap, ◌∙◌, arith, Bool, true, false, Option, none, some, List, [], ◌∷◌,
  ◌++◌, if◌then◌else◌, length, All, All-append, ok,
}
use mathlib.Core.List.{map}
use chronostore.Order.{Ord, ◌≺◌, is_eq, int_ord, compare_ℤ-swap, compare_ℤ-eq, compare_ℤ-trans}
use chronostore.OrderedMap.{Map, find, IsSorted}
use chronostore.Model.{
  SeriesKey, Timestamp, Sample, series_ord, compare_series-swap, compare_series-eq,
  compare_series_trans,
}
use chronostore.MemTable
use chronostore.MemTable.{MemTable, MemTableSeriesSnapshot, SamplesByTimestamp, sample_of, snapshot}
use chronostore.MemTable.Valid
use chronostore.OrderedMap.Nested.{IsNested, nested, inner}
use chronostore.MemTable.Get.{to_sample, get-nested}
use chronostore.SegmentBlock
use chronostore.SegmentBlock.{SegmentBlock}
use chronostore.SegmentFile.Lookup.{find_at, or_else, found_in, lookup}
use chronostore.StorageEngine.{blocks_of_samples, blocks_from_snapshots}
use chronostore.StorageEngine.Blocks.{all_samples, IsBlockOf, blocks_of_samples_lem}

or_else_assoc : (a b c : Option Sample) → or_else (or_else a b) c ≡ or_else a (or_else b c)
or_else_assoc none b c = refl
or_else_assoc (some x) b c = refl

or_else-if :
    (same : Bool) (a b : Option Sample)
    → or_else (if same then a else none) (if same then b else none)
      ≡ (if same then or_else a b else none)
or_else-if true a b = refl
or_else-if false a b = refl

find_at-append :
    (at : Timestamp) (xs ys : List Sample)
    → find_at at (xs ++ ys) ≡ or_else (find_at at xs) (find_at at ys)
find_at-append at [] ys = refl
find_at-append at (x ∷ xs) ys = ground (arith, find_at-append at xs ys)

if_none : (b : Bool) → ◌≡◌ {A = Option Sample} none (if b then none else none)
if_none true = refl
if_none false = refl

module _ (s : SeriesKey) (at : Timestamp) where
  lookup-append :
      (bs cs : List SegmentBlock)
      → lookup (bs ++ cs) s at ≡ or_else (lookup bs s at) (lookup cs s at)
  lookup-append [] cs = refl
  lookup-append (b ∷ bs) cs =
      ap (or_else (found_in b s at)) (lookup-append bs cs)
      ∙ sym (or_else_assoc (found_in b s at) (lookup bs s at) (lookup cs s at))

  -- Blocks of one series hold its samples.
  lookup-blocks :
      (series : SeriesKey) (blocks : List SegmentBlock)
      → All (IsBlockOf series) blocks
      → lookup blocks s at ≡ (if is_eq series s then find_at at (all_samples blocks) else none)
  lookup-blocks series [] v = if_none (is_eq series s)
  lookup-blocks series (b ∷ bs) v =
      rw (lookup-blocks series bs v.1, v.0.0, find_at-append at b.samples (all_samples bs))
        (or_else-if (is_eq series s) (find_at at b.samples) (find_at at (all_samples bs)))

  -- The sample among the series of a snapshot.
  abbrev lookup_series : List MemTableSeriesSnapshot → Option Sample
  lookup_series [] = none
  lookup_series (snapshot ∷ snapshots) =
      or_else (if is_eq snapshot.series s then find_at at snapshot.samples else none)
        (lookup_series snapshots)

abbrev pub IsOrderedSeries : MemTableSeriesSnapshot → Type 0
IsOrderedSeries snapshot = SegmentBlock.has_disorder snapshot.samples ≡ false

-- Ordered series are always cut into blocks, and the blocks hold exactly the samples.
pub blocks_from_snapshots_lem :
    (snapshots : List MemTableSeriesSnapshot)
    → All IsOrderedSeries snapshots
    → (blocks : List SegmentBlock) × (blocks_from_snapshots snapshots ≡ ok blocks)
      × ((s : SeriesKey) (at : Timestamp) → lookup blocks s at ≡ lookup_series s at snapshots)
unfolding blocks_from_snapshots
blocks_from_snapshots_lem [] v = ([], refl, λ s at. refl)
blocks_from_snapshots_lem (snapshot ∷ snapshots) v =
    let (blocks, cut, together, valid) =
      blocks_of_samples_lem (length snapshot.samples) snapshot.series snapshot.samples v.0
        (omega arith) in
    let (rest, cut_rest, found) = blocks_from_snapshots_lem snapshots v.1 in
    (
      blocks ++ rest,
      rw (cut, cut_rest) refl,
      λ s at.
          lookup-append s at blocks rest
          ∙ rw (lookup-blocks s at snapshot.series blocks valid, together, found s at) refl,
    )

-- The sample of a table in memory, by a search through its entries.
module _ (at : Timestamp) where
  find_at-above :
      (m : SamplesByTimestamp) → All (λ p. at ≺ p.0) m → find_at at (map sample_of m) ≡ none
  find_at-above [] h = refl
  find_at-above ((t, v) ∷ m) h = ground (arith, compare_ℤ-swap at t, find_at-above m h.1)

  above-All :
      (t : Timestamp) (m : SamplesByTimestamp)
      → at ≺ t
      → All (λ p. t ≺ p.0) m
      → All (λ p. at ≺ p.0) m
  above-All t [] h a = tt
  above-All t (p ∷ m) h a = (compare_ℤ-trans at t p.0 h a.0, above-All t m h a.1)

  find_at-sample_of :
      (m : SamplesByTimestamp)
      → IsSorted m
      → find_at at (map sample_of m) ≡ to_sample at (find at m)
  unfolding find
  find_at-sample_of [] h = refl
  find_at-sample_of ((t, v) ∷ m) h = ground (
    arith,
    compare_ℤ-swap at t,
    compare_ℤ-eq t at,
    find_at-above m,
    above-All t m,
    find_at-sample_of m h.1,
  )

-- The same at both levels.
module _ {K : Type 0} ⦃o : Ord K⦄ (s : K) (at : Timestamp) where
  abbrev lookup_map : Map K SamplesByTimestamp → Option Sample
  lookup_map [] = none
  lookup_map ((k, n) ∷ m) =
      or_else (if is_eq k s then find_at at (map sample_of n) else none) (lookup_map m)

  lookup_map-above : (m : Map K SamplesByTimestamp) → All (λ p. s ≺ p.0) m → lookup_map m ≡ none
  lookup_map-above [] h = refl
  lookup_map-above ((k, n) ∷ m) h = ground (arith, o.cmp_swap s k, lookup_map-above m h.1)

  below-All :
      (k : K) (m : Map K SamplesByTimestamp) → s ≺ k → All (λ p. k ≺ p.0) m → All (λ p. s ≺ p.0) m
  below-All k [] h a = tt
  below-All k (p ∷ m) h a = (o.lt_trans s k p.0 h a.0, below-All k m h a.1)

  lookup_map-nested :
      (m : Map K SamplesByTimestamp)
      → IsSorted m
      → IsNested m
      → lookup_map m ≡ to_sample at (nested s at m)
  unfolding nested inner find
  lookup_map-nested [] h l = refl
  lookup_map-nested ((k, n) ∷ m) h l = ground (
    arith,
    o.cmp_swap s k,
    o.eq_of_cmp s k,
    lookup_map-above m,
    below-All k m,
    find_at-sample_of at n,
    lookup_map-nested m h.1 l.2,
  )

lookup_series-snapshot :
    (s : SeriesKey) (at : Timestamp) (m : Map SeriesKey SamplesByTimestamp) (n : ℕ)
    → lookup_series s at (snapshot (record { table = m; sample_count = n })) ≡ lookup_map s at m
unfolding snapshot
lookup_series-snapshot s at [] n = refl
lookup_series-snapshot s at (p ∷ m) n =
    ap (or_else (if is_eq p.0 s then find_at at (map sample_of p.1) else none))
      (lookup_series-snapshot s at m n)

-- The series of a valid table are searched to what `get` answers.
lookup_series-get :
    (t : MemTable) (s : SeriesKey) (at : Timestamp)
    → Valid.IsValid t
    → lookup_series s at (snapshot t) ≡ MemTable.get t s at
lookup_series-get t s at v =
    lookup_series-snapshot s at t.table t.sample_count
    ∙ lookup_map-nested s at t.table v.sorted v.levels
    ∙ sym (get-nested t s at)

sorted_samples :
    (m : SamplesByTimestamp) → IsSorted m → SegmentBlock.has_disorder (map sample_of m) ≡ false
unfolding SegmentBlock.has_disorder
sorted_samples [] h = refl
sorted_samples (p ∷ []) h = refl
sorted_samples (p ∷ q ∷ m) h = ground (arith, compare_ℤ-swap p.0 q.0, sorted_samples (q ∷ m) h.1)

pub ordered_snapshot :
    (m : Map SeriesKey SamplesByTimestamp) (n : ℕ)
    → IsNested m
    → All IsOrderedSeries (snapshot (record { table = m; sample_count = n }))
unfolding snapshot
ordered_snapshot [] n l = tt
ordered_snapshot (p ∷ m) n l = (sorted_samples p.1 l.0, ordered_snapshot m n l.2)

-- The samples of a valid table in memory are always cut into blocks, and a search through the
-- blocks finds, at every series and timestamp, the sample that the table has, and no other.
pub blocks_from_snapshots-get :
    (t : MemTable)
    → Valid.IsValid t
    → (blocks : List SegmentBlock) × (blocks_from_snapshots (snapshot t) ≡ ok blocks)
      × ((s : SeriesKey) (at : Timestamp) → lookup blocks s at ≡ MemTable.get t s at)
blocks_from_snapshots-get t v =
    let (blocks, cut, found) =
      blocks_from_snapshots_lem (snapshot t) (ordered_snapshot t.table t.sample_count v.levels) in
    (blocks, cut, λ s at. found s at ∙ lookup_series-get t s at v)
