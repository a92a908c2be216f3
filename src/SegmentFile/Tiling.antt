-- ===== src/SegmentFile/Tiling.antt =====
-- The checks of `validate_index` of src/segment_file.cpp.
use chronostore.Common.{ℕ, ◌+◌, ◌≤◌, ◌≡◌, arith, false, Option, none, some, List, [], ◌∷◌, ok}
use chronostore.Order.{is_lt, int_ord}
use chronostore.SegmentFile.{SegmentIndexEntry}
use chronostore.SegmentFile.Index.{validate_entries, validate_index, is_invalid_entry}

-- Each block begins where the one before it ends, the last one ends at the index, and each entry
-- counts from 1 to 256 samples and its last timestamp is not before the first.
abbrev pub IsTiling : ℕ → ℕ → List SegmentIndexEntry → Type 0
IsTiling index_offset offset [] = offset ≡ index_offset
IsTiling index_offset offset (entry ∷ entries) =
    (entry.block_offset ≡ offset)
    × (entry.sample_count ≤ 256)
    × (1 ≤ entry.sample_count)
    × (is_lt entry.last_timestamp entry.first_timestamp ≡ false)
    × IsTiling index_offset (offset + entry.block_size) entries

tiling :
    (index_offset offset : ℕ) (previous : Option SegmentIndexEntry)
    (entries : List SegmentIndexEntry)
    → validate_entries index_offset offset previous entries ≡ ok tt
    → IsTiling index_offset offset entries
unfolding validate_entries is_invalid_entry
tiling index_offset offset previous [] h = ground arith
tiling index_offset offset previous (entry ∷ entries) h =
    ground (arith, tiling index_offset (offset + entry.block_size) (some entry) entries)

-- The entries of an index that passes its checks describe blocks that tile the bytes from the end
-- of the header, at 32, to the index, with 1 to 256 samples each.
pub validate_index-IsTiling :
    (entries : List SegmentIndexEntry) (index_offset : ℕ)
    → validate_index entries index_offset ≡ ok tt
    → IsTiling index_offset 32 entries
unfolding validate_index
validate_index-IsTiling entries index_offset h = tiling index_offset 32 none entries h
