-- ===== src/Examples/Segment.antt =====
-- The segment index and the manifest on concrete inputs.
use chronostore.Common.{refl, List, [], ◌∷◌}
use chronostore.Order.{pos}
use chronostore.SegmentFile.{SegmentIndexEntry}
use chronostore.SegmentFile.Index.{
  validate_index, validate_entries, is_invalid_entry, is_out_of_order,
}
use chronostore.SegmentFile.Tiling.{IsTiling, validate_index-IsTiling}
use chronostore.Examples.{cpu}
use chronostore.Common.{◌≡◌, some, ok}
use chronostore.Model.{Bytes}
use chronostore.ByteCodec.{
  read_u16, read_u32, read_u64, read_u8, read_unsigned, can_read, remaining, advance,
  decode_unsigned, read_string, read_characters,
}
use chronostore.Crc32c.{crc32c, add_bytes, add_byte, shift_bits, shift_bit}
use chronostore.Manifest.{
  ManifestState, load_manifest, decode_manifest, read_manifest_header, read_filenames, revalidate,
  validate_state, validate_names, valid_segment_filename, has_character, extension, from_last_dot,
  is_among,
}
use chronostore.Manifest.Valid.{IsSegmentList, load_manifest-IsSegmentList}

abbrev two_entries : List SegmentIndexEntry
two_entries =
    record {
      series = cpu;
      first_timestamp = pos 10;
      last_timestamp = pos 19;
      block_offset = 32;
      block_size = 92;
      sample_count = 2;
    }
    ∷ record {
      series = cpu;
      first_timestamp = pos 20;
      last_timestamp = pos 20;
      block_offset = 124;
      block_size = 76;
      sample_count = 1;
    }
    ∷ []

validate_index-IsTiling_example : IsTiling 200 32 two_entries
validate_index-IsTiling_example =
    validate_index-IsTiling two_entries 200
      (unfold validate_index validate_entries is_invalid_entry is_out_of_order in refl)

-- One segment, "a.cst".
abbrev one_segment : ManifestState
one_segment = record {
  generation = 1;
  logical_sample_count = 3;
  segment_files = (97 ∷ 46 ∷ 99 ∷ 115 ∷ 116 ∷ []) ∷ [];
}

abbrev one_segment_bytes : Bytes
one_segment_bytes =
    67 ∷ 83 ∷ 77 ∷ 70 ∷ 1 ∷ 0 ∷ 0 ∷ 0 ∷ 1 ∷ 0 ∷ 0 ∷ 0 ∷ 0 ∷ 0 ∷ 0 ∷ 0 ∷ 3 ∷ 0 ∷ 0 ∷ 0 ∷ 0 ∷ 0 ∷ 0
    ∷ 0 ∷ 1 ∷ 0 ∷ 0 ∷ 0 ∷ 9 ∷ 0 ∷ 0 ∷ 0 ∷ 246 ∷ 255 ∷ 255 ∷ 255 ∷ 5 ∷ 0 ∷ 0 ∷ 0 ∷ 97 ∷ 46 ∷ 99 ∷ 115
    ∷ 116 ∷ 217 ∷ 47 ∷ 135 ∷ 185 ∷ []

one_segment_decoded : decode_manifest one_segment_bytes ≡ ok one_segment
unfolding decode_manifest read_manifest_header read_u16 read_u32 read_u64 read_u8 read_unsigned
    can_read remaining advance decode_unsigned read_string read_characters read_filenames revalidate
    validate_state validate_names valid_segment_filename has_character extension from_last_dot
    is_among crc32c add_bytes add_byte shift_bits shift_bit
one_segment_decoded = refl

one_segment_loaded : load_manifest (some one_segment_bytes) ≡ ok one_segment
unfolding load_manifest
one_segment_loaded = one_segment_decoded

load_manifest-IsSegmentList_example : IsSegmentList one_segment.segment_files
load_manifest-IsSegmentList_example =
    load_manifest-IsSegmentList (some one_segment_bytes) one_segment one_segment_loaded
