-- ===== src/StorageEngine/Flushed/Constructed.antt =====
-- Tables of constructed series keys and samples, and the blocks of their flush.
use chronostore.Common.{
  ℕ, ◌≡◌, sym, arith, List, [], ◌∷◌, ◌++◌, length, All, All-append, All-append_parts, ok, >>=-eq-ok,
}
use mathlib.Core.List.{map}
use mathlib.Core.Path.{subst}
use chronostore.Order.{Ord, int_ord}
use chronostore.OrderedMap.{Map, find, assign}
use chronostore.OrderedMap.Nested.{inner}
use chronostore.Model.{SeriesKey, Timestamp, Sample, series_ord, IsSeries, IsSample}
use chronostore.MemTable
use chronostore.MemTable.{MemTable, MemTableSeriesSnapshot, SamplesByTimestamp, sample_of, snapshot}
use chronostore.MemTable.Valid
use chronostore.MemTable.Get.{table-put}
use chronostore.SegmentBlock.{SegmentBlock, make_segment_block}
use chronostore.SegmentBlockCodec.Layout.{IsBlock}
use chronostore.StorageEngine.{blocks_of_samples, blocks_from_snapshots}
use chronostore.StorageEngine.Blocks.{all_samples, IsBlockOf, blocks_of_samples_lem}
use chronostore.StorageEngine.Flushed.{IsOrderedSeries, ordered_snapshot}

abbrev IsSeriesEntry : SeriesKey × SamplesByTimestamp → Type 0
IsSeriesEntry (series, samples) = IsSeries series × All (λ p. IsSample (sample_of p)) samples

-- Every key and every sample of the table was constructed.
pub record IsConstructed (t : MemTable) : Type 0 where
  pub entries : All IsSeriesEntry t.table

module _ {ℓ κ μ} {K : Type ℓ} {V : Type κ} ⦃o : Ord K⦄ (P : K × V → Type μ) where
  All-assign_entry : (k : K) (v : V) (m : Map K V) → P (k, v) → All P m → All P (assign k v m)
  unfolding assign
  All-assign_entry k v [] p h = (p, tt)
  All-assign_entry k v ((j, w) ∷ m) p h = ground (arith, All-assign_entry k v m p h.1)

-- The inner map at any key holds what all inner maps hold.
inner_samples {ℓ} :
    {K : Type ℓ} ⦃o : Ord K⦄ (Q : K → Type 0) (P : Timestamp × ℕ → Type 0) (k : K)
    (m : Map K SamplesByTimestamp)
    → All (λ e. Q e.0 × All P e.1) m
    → All P (inner k m)
unfolding inner find
inner_samples Q P k [] h = tt
inner_samples Q P k ((j, n) ∷ m) h = ground (arith, inner_samples Q P k m h.1)

-- `put` of a constructed key and sample keeps it so.
pub put-IsConstructed :
    (t : MemTable) (series : SeriesKey) (sample : Sample)
    → IsConstructed t
    → IsSeries series
    → IsSample sample
    → IsConstructed (MemTable.put t series sample)
put-IsConstructed t series sample c v s =
    let samples = inner_samples IsSeries (λ p. IsSample (sample_of p)) series t.table c.entries in
    record {
      entries = rw (table-put t series sample) (
          All-assign_entry IsSeriesEntry series _ t.table
            (
              v,
              All-assign_entry (λ p. IsSample (sample_of p)) sample.timestamp sample.value _ s
                  samples,
            )
            c.entries);
    }

valid_blocks :
    (series : SeriesKey) (blocks : List SegmentBlock)
    → IsSeries series
    → All IsSample (all_samples blocks)
    → All (IsBlockOf series) blocks
    → All IsBlock blocks
valid_blocks series [] v s b = tt
valid_blocks series (block ∷ blocks) v s b =
    let (here, rest) = All-append_parts IsSample block.samples (all_samples blocks) s in
    (
      record {
        series_valid = rw (b.0.0) v;
        samples_valid = here;
        constructed =
            subst (λ key. make_segment_block key block.samples ≡ ok block) (sym b.0.0) b.0.1;
      },
      valid_blocks series blocks v rest b.1,
    )

abbrev IsConstructedSeries : MemTableSeriesSnapshot → Type 0
IsConstructedSeries snapshot = IsSeries snapshot.series × All IsSample snapshot.samples

blocks_from_snapshots-IsBlock :
    (snapshots : List MemTableSeriesSnapshot) (blocks : List SegmentBlock)
    → All IsOrderedSeries snapshots
    → All IsConstructedSeries snapshots
    → blocks_from_snapshots snapshots ≡ ok blocks
    → All IsBlock blocks
unfolding blocks_from_snapshots
blocks_from_snapshots-IsBlock [] blocks v c h =
    let none_cut : [] ≡ blocks = cc h in subst (All IsBlock) none_cut tt
blocks_from_snapshots-IsBlock (snapshot ∷ snapshots) blocks v c h =
    let (cut, e, together, valid) =
      blocks_of_samples_lem (length snapshot.samples) snapshot.series snapshot.samples v.0
        (omega arith) in
    let (first, h1, e1) =
      >>=-eq-ok _ (blocks_of_samples (length snapshot.samples) snapshot.series snapshot.samples)
        h in
    let (rest, h2, e2) = >>=-eq-ok _ (blocks_from_snapshots snapshots) h1 in
    let blocks_valid = valid_blocks snapshot.series cut c.0.0 (rw together c.0.1) valid in
    let rest_valid = blocks_from_snapshots-IsBlock snapshots rest v.1 c.1 e2 in
    let same : cut ++ rest ≡ blocks = cc (e, e1, h2) in
    subst (All IsBlock) same (All-append IsBlock cut rest blocks_valid rest_valid)

map_samples :
    (n : SamplesByTimestamp) → All (λ p. IsSample (sample_of p)) n → All IsSample (map sample_of n)
map_samples [] h = tt
map_samples (p ∷ n) h = (h.0, map_samples n h.1)

constructed_snapshot :
    (m : Map SeriesKey SamplesByTimestamp) (n : ℕ)
    → All IsSeriesEntry m
    → All IsConstructedSeries (snapshot (record { table = m; sample_count = n }))
unfolding snapshot
constructed_snapshot [] n c = tt
constructed_snapshot (p ∷ m) n c = ((c.0.0, map_samples p.1 c.0.1), constructed_snapshot m n c.1)

-- The blocks of a valid table of constructed keys and samples are constructed.
pub blocks_from_snapshots-snapshot-IsBlock :
    (t : MemTable) (blocks : List SegmentBlock)
    → Valid.IsValid t
    → IsConstructed t
    → blocks_from_snapshots (snapshot t) ≡ ok blocks
    → All IsBlock blocks
blocks_from_snapshots-snapshot-IsBlock t blocks v c h =
    blocks_from_snapshots-IsBlock (snapshot t) blocks
      (ordered_snapshot t.table t.sample_count v.levels)
      (constructed_snapshot t.table t.sample_count c.entries) h
