-- ===== src/StorageEngine/Flushed/Counted.antt =====
-- The count of the new segment of a flush.
use chronostore.Common.{
  ℕ, ◌+◌, ◌≡◌, refl, sym, ap, ◌∙◌, arith, List, [], ◌∷◌, ◌++◌, length, length-append, All, ok,
  >>=-eq-ok,
}
use mathlib.Core.List.{map}
use chronostore.Order.{int_ord}
use chronostore.OrderedMap.{Map}
use chronostore.OrderedMap.Nested.{total}
use chronostore.Model.{SeriesKey, series_ord}
use chronostore.MemTable.{MemTableSeriesSnapshot, SamplesByTimestamp, sample_of, snapshot}
use chronostore.MemTable.Valid
use chronostore.SegmentBlock.{SegmentBlock}
use chronostore.SegmentFile.RoundTrip.{reader_of, open_segment-segment_bytes}
use chronostore.SegmentFile.Write.File.{write_segment_file-eq-ok}
use chronostore.SegmentFile.Write.Layout.{count_of}
use chronostore.StorageEngine.{StorageEngine, blocks_of_samples, blocks_from_snapshots}
use chronostore.StorageEngine.Blocks.{all_samples, blocks_of_samples_lem}
use chronostore.StorageEngine.Flushed.{IsOrderedSeries, ordered_snapshot}
use chronostore.StorageEngine.Flushed.Constructed.{
  IsConstructed, blocks_from_snapshots-snapshot-IsBlock,
}
use chronostore.StorageEngine.Flushed.Returns.{IsFlushed}

count_of-all_samples : (blocks : List SegmentBlock) → count_of blocks ≡ length (all_samples blocks)
count_of-all_samples [] = refl
count_of-all_samples (block ∷ blocks) =
    omega (arith, length-append block.samples (all_samples blocks), count_of-all_samples blocks)

count_of-append : (bs cs : List SegmentBlock) → count_of (bs ++ cs) ≡ count_of bs + count_of cs
count_of-append [] cs = omega arith
count_of-append (b ∷ bs) cs = omega (arith, count_of-append bs cs)

abbrev series_total : List MemTableSeriesSnapshot → ℕ
series_total [] = 0
series_total (snapshot ∷ snapshots) = length snapshot.samples + series_total snapshots

count_of-blocks_from_snapshots :
    (snapshots : List MemTableSeriesSnapshot) (blocks : List SegmentBlock)
    → All IsOrderedSeries snapshots
    → blocks_from_snapshots snapshots ≡ ok blocks
    → count_of blocks ≡ series_total snapshots
unfolding blocks_from_snapshots
count_of-blocks_from_snapshots [] blocks v h =
    let none_cut : [] ≡ blocks = cc h in sym (ap count_of none_cut)
count_of-blocks_from_snapshots (snapshot ∷ snapshots) blocks v h =
    let (cut, e, together, valid) =
      blocks_of_samples_lem (length snapshot.samples) snapshot.series snapshot.samples v.0
        (omega arith) in
    let (first, h1, e1) =
      >>=-eq-ok _ (blocks_of_samples (length snapshot.samples) snapshot.series snapshot.samples)
        h in
    let (rest, h2, e2) = >>=-eq-ok _ (blocks_from_snapshots snapshots) h1 in
    let same : cut ++ rest ≡ blocks = cc (e, e1, h2) in
    omega (
      arith,
      ap count_of same,
      count_of-append cut rest,
      count_of-all_samples cut,
      ap length together,
      count_of-blocks_from_snapshots snapshots rest v.1 e2,
    )

length-map_samples : (n : SamplesByTimestamp) → length (map sample_of n) ≡ length n
length-map_samples [] = refl
length-map_samples (p ∷ n) = omega (arith, length-map_samples n)

series_total-snapshot :
    (m : Map SeriesKey SamplesByTimestamp) (n : ℕ)
    → series_total (snapshot (record { table = m; sample_count = n })) ≡ total m
unfolding snapshot total
series_total-snapshot [] n = refl
series_total-snapshot (p ∷ m) n = omega (arith, length-map_samples p.1, series_total-snapshot m n)

-- The reader that a flush adds counts the samples of the table.
pub sample_count-new_segment :
    (e next : StorageEngine)
    → (f : IsFlushed e next) → Valid.IsValid e.memtable
    → IsConstructed e.memtable
    → f.segment.reader.sample_count ≡ e.memtable.sample_count
sample_count-new_segment e next f v c =
    let blocks = f.prepared.cut_blocks in
    let cut = f.prepared.blocks_cut in
    let valid = blocks_from_snapshots-snapshot-IsBlock e.memtable blocks v c cut in
    let (file, layout, _) =
      write_segment_file-eq-ok blocks f.bytes f.prepared.metadata valid f.prepared.file_written in
    let reopened = open_segment-segment_bytes blocks file in
    let reader : f.segment.reader ≡ reader_of blocks = cc (f.opened, layout, reopened) in
    rw reader (
      count_of-blocks_from_snapshots (snapshot e.memtable) blocks
        (ordered_snapshot e.memtable.table e.memtable.sample_count v.levels) cut
      ∙ series_total-snapshot e.memtable.table e.memtable.sample_count
      ∙ sym v.counted)
