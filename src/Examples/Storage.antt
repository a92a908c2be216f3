-- ===== src/Examples/Storage.antt =====
-- A segment file of one block.
use chronostore.Common.{◌≡◌, refl, arith, [], ◌∷◌, Outcome, ok}
use chronostore.Common.{some, ◌++◌, length}
use chronostore.Order.{pos}
use chronostore.Errors.{Exception, SegmentBlockDecodeError}
use chronostore.Model.{Bytes}
use chronostore.ByteCodec.{
  write_unsigned, write_u8, write_u16, write_u32, write_u64, write_bytes, write_characters,
  write_string,
}
use chronostore.Crc32c.{crc32c, add_bytes, add_byte, shift_bits, shift_bit}
use chronostore.SeriesCodec.{timestamp_bits, write_tags, write_series_key}
use chronostore.SegmentBlock
use chronostore.SegmentBlock.{
  SegmentBlock, make_segment_block, first_timestamp, last_timestamp, sample_count,
}
use chronostore.SegmentBlockCodec.{encode_segment_block, encode_payload, write_frame, write_samples}
use chronostore.SegmentBlockCodec.Layout.{IsBlock}
use chronostore.SegmentFile.{SegmentFileMetadata, encode_header, encode_footer}
use chronostore.SegmentBlockCodec.{decode_segment_block}
use chronostore.SegmentBlockCodec.RoundTrip.{decode_segment_block-encode_segment_block}
use chronostore.Manifest.{
  ManifestState, encode_manifest, load_manifest, validate_state, validate_names,
  valid_segment_filename, has_character, extension, from_last_dot, is_among, write_filenames,
  write_manifest,
}
use chronostore.Manifest.RoundTrip.{IsManifest, load_manifest-encode_manifest}
use chronostore.SegmentFile.Lookup.{lookup}
use chronostore.SegmentFile.Lookup.File.{get-write_segment_file}
use chronostore.SegmentFile.Stored.{blocks-write_segment_file}
use chronostore.SegmentFile.Reader
use chronostore.SegmentFile.Reader.{SegmentReader, open_segment}
use chronostore.SegmentFile.Index.{encode_index, write_index, write_entries}
use chronostore.SegmentFile.Write.{has_disorder, validate_blocks, write_blocks, write_segment_file}
use chronostore.Examples.{cpu, sample_one, cpu-IsSeries, sample_one-IsSample}

abbrev pub one_block : SegmentBlock
one_block = record { series = cpu; samples = sample_one ∷ [] }

pub one_block-IsBlock : IsBlock one_block
unfolding make_segment_block SegmentBlock.has_disorder
one_block-IsBlock = record {
  series_valid = cpu-IsSeries;
  samples_valid = (sample_one-IsSample, tt);
  constructed = refl;
}

abbrev answer_of : Outcome Exception (Bytes × SegmentFileMetadata) → Bytes × SegmentFileMetadata
answer_of (ok answer) = answer
answer_of (Outcome.throw x) = ([], record { file_size = 0; sample_count = 0; block_count = 0 })

abbrev pub one_file : Bytes × SegmentFileMetadata
one_file = answer_of (write_segment_file (one_block ∷ []))

pub one_file_written : write_segment_file (one_block ∷ []) ≡ ok one_file
unfolding write_segment_file validate_blocks has_disorder write_blocks encode_segment_block
    encode_payload write_samples write_series_key write_tags write_frame write_string
    write_characters write_unsigned write_u8 write_u16 write_u32 write_u64 write_bytes
    timestamp_bits sample_count first_timestamp last_timestamp encode_index write_entries
    write_index encode_header encode_footer crc32c add_bytes add_byte shift_bits shift_bit
one_file_written = refl

blocks-write_segment_file_example :
    (reader : SegmentReader) × (open_segment one_file.0 ≡ ok reader)
    × (Reader.blocks reader ≡ ok (one_block ∷ []))
    × (reader.sample_count ≡ one_file.1.sample_count)
    × (Reader.block_count reader ≡ one_file.1.block_count)
    × (reader.file_size ≡ one_file.1.file_size)
blocks-write_segment_file_example =
    blocks-write_segment_file (one_block ∷ []) one_file.0 one_file.1 (one_block-IsBlock, tt)
      one_file_written

get-write_segment_file_example :
    (reader : SegmentReader) × (open_segment one_file.0 ≡ ok reader)
    × (Reader.get reader cpu (pos 10) ≡ ok (lookup (one_block ∷ []) cpu (pos 10)))
get-write_segment_file_example =
    get-write_segment_file (one_block ∷ []) one_file.0 one_file.1 cpu (pos 10)
      (one_block-IsBlock, tt) one_file_written

abbrev bytes_of : Outcome Exception Bytes → Bytes
bytes_of (ok bytes) = bytes
bytes_of (Outcome.throw x) = []

abbrev one_block_bytes : Bytes
one_block_bytes = bytes_of (encode_segment_block one_block)

one_block_encoded : encode_segment_block one_block ≡ ok one_block_bytes
unfolding encode_segment_block encode_payload write_samples write_series_key write_tags write_frame
    write_string write_characters write_unsigned write_u8 write_u16 write_u32 write_u64 write_bytes
    timestamp_bits sample_count crc32c add_bytes add_byte shift_bits shift_bit
one_block_encoded = refl

decode_segment_block_example : decode_segment_block (one_block_bytes ++ (7 ∷ [])) ≡ record {
  block = some one_block;
  error = SegmentBlockDecodeError.none;
  bytes_consumed = length one_block_bytes;
}
decode_segment_block_example =
    decode_segment_block-encode_segment_block one_block one_block_bytes (7 ∷ []) one_block-IsBlock
      one_block_encoded

abbrev two_segments : ManifestState
two_segments = record {
  generation = 2;
  logical_sample_count = 3;
  segment_files = (97 ∷ 46 ∷ 99 ∷ 115 ∷ 116 ∷ []) ∷ (98 ∷ 46 ∷ 99 ∷ 115 ∷ 116 ∷ []) ∷ [];
}

abbrev two_segments_bytes : Bytes
two_segments_bytes = bytes_of (encode_manifest two_segments)

two_segments_encoded : encode_manifest two_segments ≡ ok two_segments_bytes
unfolding encode_manifest validate_state validate_names valid_segment_filename has_character
    extension from_last_dot is_among write_filenames write_manifest write_string write_characters
    write_unsigned write_u8 write_u16 write_u32 write_u64 write_bytes crc32c add_bytes add_byte
    shift_bits shift_bit
two_segments_encoded = refl

two_segments-IsManifest : IsManifest two_segments
two_segments-IsManifest = record {
  generation_fits = omega arith;
  count_fits = omega arith;
  name_bytes = (omega arith, (omega arith, tt));
}

load_manifest_example : load_manifest (some two_segments_bytes) ≡ ok two_segments
load_manifest_example =
    load_manifest-encode_manifest two_segments two_segments_bytes two_segments-IsManifest
      two_segments_encoded
