-- ===== src/SegmentFile/Write/Entries.antt =====
-- The index entries that `write_segment_file` makes, and the checks of the reader.
use chronostore.Common.{
  ℕ, ◌+◌, ◌-◌, ◌*◌, ◌^◌, ◌<◌, ◌≤◌, ◌≡◌, refl, arith, Bool, false, Option, none, some, List, [], ◌∷◌,
  length, All, ok, >>-eq-ok, ◌||◌, ltb, ltb-false, !=_self, ==_above,
}
use chronostore.Order.{is_lt, int_ord, compare_ℤ-self, compare_ℤ-swap, compare_ℤ-trans}
use chronostore.Model.{Sample, series_ord, IsSample, IsInt64, is_empty}
use chronostore.SegmentBlock
use chronostore.SegmentBlock.{
  SegmentBlock, make_segment_block, front_timestamp, back_timestamp, first_timestamp,
  last_timestamp, sample_count,
}
use chronostore.SegmentBlockCodec.{max_segment_block_payload_size}
use chronostore.SegmentBlockCodec.Layout.{
  IsBlock, payload_bytes, block_bytes, length-block_bytes, sample_count_bounds,
}
use chronostore.SegmentFile.{SegmentIndexEntry}
use chronostore.SegmentFile.Index.{
  is_invalid_entry, is_out_of_order, validate_entries, validate_index,
}
use chronostore.SegmentFile.Index.Layout.{IsEntry}
use chronostore.SegmentFile.Write.{has_disorder}

-- A constructed block whose payload is within the limit.
abbrev pub IsEncodable : SegmentBlock → Type 0
IsEncodable block = IsBlock block × (length (payload_bytes block) ≤ max_segment_block_payload_size)

abbrev pub entry_of : ℕ → SegmentBlock → SegmentIndexEntry
entry_of offset block = record {
  series = block.series;
  first_timestamp = first_timestamp block;
  last_timestamp = last_timestamp block;
  block_offset = offset;
  block_size = length (block_bytes block);
  sample_count = length block.samples;
}

-- The entries of blocks that lie one behind the other, from an offset on.
abbrev pub entries_of : ℕ → List SegmentBlock → List SegmentIndexEntry
entries_of offset [] = []
entries_of offset (block ∷ blocks) =
    entry_of offset block ∷ entries_of (offset + length (block_bytes block)) blocks

-- Where the last of the blocks ends.
abbrev pub end_of : ℕ → List SegmentBlock → ℕ
end_of offset [] = offset
end_of offset (block ∷ blocks) = end_of (offset + length (block_bytes block)) blocks

pub length-entries_of :
    (offset : ℕ) (blocks : List SegmentBlock) → length (entries_of offset blocks) ≡ length blocks
length-entries_of offset [] = refl
length-entries_of offset (block ∷ blocks) =
    omega (arith, length-entries_of (offset + length (block_bytes block)) blocks)

pub end_of_bounds :
    (offset : ℕ) (blocks : List SegmentBlock)
    → All IsEncodable blocks
    → (offset ≤ end_of offset blocks)
      × (end_of offset blocks ≤ offset + length blocks * (24 + 16 * 1024 * 1024))
end_of_bounds offset [] v = omega arith
end_of_bounds offset (block ∷ blocks) v = omega (
  arith,
  length-block_bytes block,
  v.0.1,
  end_of_bounds (offset + length (block_bytes block)) blocks v.1,
)

or_false : (a b c : Bool) → (a || b || c) ≡ false → ((a || b) ≡ false) × (c ≡ false)
or_false a b c h = ground arith

-- Ordered samples end no earlier than they begin.
pub ends_in_order :
    (samples : List Sample)
    → SegmentBlock.has_disorder samples ≡ false
    → is_lt (back_timestamp samples) (front_timestamp samples) ≡ false
unfolding SegmentBlock.has_disorder
ends_in_order [] h = refl
ends_in_order (x ∷ []) h = ground (arith, compare_ℤ-self x.timestamp)
ends_in_order (x ∷ y ∷ ys) h =
    let back = back_timestamp (y ∷ ys) in
    ground (
      arith,
      ends_in_order (y ∷ ys),
      compare_ℤ-swap x.timestamp y.timestamp,
      compare_ℤ-trans back x.timestamp y.timestamp,
    )

pub ordered_samples :
    (block : SegmentBlock) → IsBlock block → SegmentBlock.has_disorder block.samples ≡ false
unfolding make_segment_block
ordered_samples block v =
    let (_, h) = >>-eq-ok (is_empty block.samples) _ _ v.constructed in
    let (_, k) = >>-eq-ok (ltb 256 (length block.samples)) _ _ h in
    (>>-eq-ok (SegmentBlock.has_disorder block.samples) _ _ k).0

front_fits : (samples : List Sample) → All IsSample samples → IsInt64 (front_timestamp samples)
front_fits [] v = omega arith
front_fits (x ∷ xs) v = v.0.timestamp_fits

back_fits : (samples : List Sample) → All IsSample samples → IsInt64 (back_timestamp samples)
back_fits [] v = omega arith
back_fits (x ∷ []) v = v.0.timestamp_fits
back_fits (x ∷ y ∷ ys) v = back_fits (y ∷ ys) v.1

pub entries_of-IsEntry :
    (offset : ℕ) (blocks : List SegmentBlock)
    → All IsEncodable blocks
    → end_of offset blocks < 2 ^ 64
    → All IsEntry (entries_of offset blocks)
unfolding first_timestamp last_timestamp
entries_of-IsEntry offset [] v h = tt
entries_of-IsEntry offset (block ∷ blocks) v h =
    let next = offset + length (block_bytes block) in
    let few = sample_count_bounds block v.0.0 in
    (
      record {
        series_valid = v.0.0.series_valid;
        first_fits = front_fits block.samples v.0.0.samples_valid;
        last_fits = back_fits block.samples v.0.0.samples_valid;
        offset_fits = omega (arith, end_of_bounds next blocks v.1);
        size_fits = omega (arith, length-block_bytes block, v.0.1);
        count_fits = omega arith;
      },
      entries_of-IsEntry next blocks v.1 h,
    )

valid_entry :
    (index_offset offset : ℕ) (block : SegmentBlock)
    → IsEncodable block
    → offset + length (block_bytes block) ≤ index_offset
    → is_invalid_entry offset index_offset (entry_of offset block) ≡ false
unfolding is_invalid_entry first_timestamp last_timestamp
valid_entry index_offset offset block v h =
    let few = sample_count_bounds block v.0 in
    let size = length-block_bytes block in
    rw (
      !=_self offset,
      ltb-false index_offset offset (omega arith),
      ==_above (length (block_bytes block)) 0 (omega arith),
      ==_above (length block.samples) 0 few.0,
      ltb-false 256 (length block.samples) few.1,
      ends_in_order block.samples (ordered_samples block v.0),
    )

-- The first block may follow the previous entry, and the blocks are in order.
abbrev IsOrderedAfter : Option SegmentIndexEntry → List SegmentBlock → Type 0
IsOrderedAfter previous [] = Unit
IsOrderedAfter previous (block ∷ blocks) =
    ((offset : ℕ) → is_out_of_order previous (entry_of offset block) ≡ false)
    × (has_disorder (block ∷ blocks) ≡ false)

ordered_after :
    (offset : ℕ) (block : SegmentBlock) (blocks : List SegmentBlock)
    → has_disorder (block ∷ blocks) ≡ false
    → IsOrderedAfter (some (entry_of offset block)) blocks
unfolding has_disorder is_out_of_order
ordered_after offset block [] h = tt
ordered_after offset block (next ∷ blocks) h =
    let (in_order, rest) =
      or_false (is_lt next.series block.series) _ (has_disorder (next ∷ blocks)) h in
    (λ at. in_order, rest)

validate_entries-entries_of :
    (index_offset offset : ℕ) (previous : Option SegmentIndexEntry) (blocks : List SegmentBlock)
    → All IsEncodable blocks
    → IsOrderedAfter previous blocks
    → end_of offset blocks ≡ index_offset
    → validate_entries index_offset offset previous (entries_of offset blocks) ≡ ok tt
unfolding validate_entries
validate_entries-entries_of index_offset offset previous [] v o h = rw (h, !=_self index_offset)
validate_entries-entries_of index_offset offset previous (block ∷ blocks) v o h =
    let next = offset + length (block_bytes block) in
    let bounds = end_of_bounds next blocks v.1 in
    rw (
      valid_entry index_offset offset block v.0 (omega arith),
      ltb-false (index_offset - offset) (length (block_bytes block)) (omega arith),
      o.0 offset,
      validate_entries-entries_of index_offset next (some (entry_of offset block)) blocks v.1
          (ordered_after offset block blocks o.1) h,
    )

-- The index that the writer makes of ordered blocks is accepted by the reader's checks.
pub validate_index-entries_of :
    (blocks : List SegmentBlock)
    → All IsEncodable blocks
    → has_disorder blocks ≡ false
    → validate_index (entries_of 32 blocks) (end_of 32 blocks) ≡ ok tt
unfolding validate_index is_out_of_order
validate_index-entries_of [] v h = validate_entries-entries_of 32 32 none [] v tt refl
validate_index-entries_of (block ∷ blocks) v h =
    validate_entries-entries_of (end_of 32 (block ∷ blocks)) 32 none (block ∷ blocks) v
      (λ offset. refl, h) refl
