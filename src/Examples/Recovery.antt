-- ===== src/Examples/Recovery.antt =====
-- An engine that is written to, flushed and opened again.
use chronostore.Common.{◌-◌, ◌^◌, ◌≡◌, refl, ap, arith, List, [], ◌++◌, Outcome, ok, throw, some}
use chronostore.Order.{pos}
use chronostore.WalFile.{WalDurability, opened_wal, buffered, sync_on_append}
use chronostore.StorageEngine.{
  remove_file, StorageEngine, put, contains, contains_in, contains_in_segments,
  contains_in_reversed, ensure_usable,
}
use chronostore.Common.{false}
use chronostore.Errors.{WalDecodeError}
use chronostore.WalRecord.{decode_frame}
use chronostore.StorageEngine.Durable.Atomic.{IsAtomic, put-IsAtomic}
use chronostore.StorageEngine.Recover.{open_engine, no_errors}
use chronostore.StorageEngine.ReadYourWrites.{put-eq-ok}
use chronostore.StorageEngine.Sound.{IsSound}
use chronostore.StorageEngine.Sound.Reach.{
  Reach, start, later, put_returns, new_engine-IsSound, Reach-IsSound, IsSameAnswers, restart,
}
use chronostore.StorageEngine.Flush.{flush, flush_samples}
use chronostore.Examples.Wal.{empty_log}
use chronostore.ByteCodec.{
  write_unsigned, write_u8, write_u16, write_u32, write_u64, write_bytes, write_characters,
  write_string, read_string, read_characters, read_unsigned, can_read, advance, decode_unsigned,
  remaining, read_u8, read_u16, read_u32, read_u64,
}
use chronostore.Model.{SeriesKey, Timestamp, make_tag, make_series_key, has_duplicate_key}
use chronostore.Order.Sort.{sort}
use chronostore.Errors.{Exception}
use chronostore.OrderedMap.{assign}
use chronostore.OrderedMap.Nested.{inner}
use chronostore.Crc32c.{crc32c, add_bytes, add_byte, shift_bits, shift_bit}
use chronostore.SeriesCodec.{
  timestamp_bits, timestamp_of_bits, write_tags, write_series_key, read_series_key,
  read_ordered_tags, breaks_order,
}
use chronostore.SegmentBlock
use chronostore.SegmentBlock.{
  SegmentBlock, make_segment_block, first_timestamp, last_timestamp, sample_count,
}
use chronostore.SegmentBlockCodec.{encode_segment_block, encode_payload, write_frame, write_samples}
use chronostore.SegmentFile.{
  encode_header, encode_footer, decode_header, decode_footer, read_header_fields,
  read_footer_fields,
}
use chronostore.SegmentFile.Index.{
  encode_index, write_index, write_entries, decode_index, read_index_header, read_entries,
  read_entry, validate_index, validate_entries, is_invalid_entry, is_out_of_order,
}
use chronostore.SegmentFile.Write.{has_disorder, validate_blocks, write_blocks, write_segment_file}
use chronostore.SegmentFile.Reader.{open_segment, read_file_bytes, count_samples}
use chronostore.SegmentFile.Lookup.{lookup}
use chronostore.Manifest.{
  encode_manifest, validate_state, validate_names, valid_segment_filename, has_character, extension,
  from_last_dot, is_among, write_filenames, write_manifest,
}
use chronostore.WalFile
use chronostore.StorageEngine.{blocks_from_snapshots, blocks_of_samples}
use chronostore.StorageEngine.Flush.{
  add_segment, prepare_segment, next_segment_filename, decimal, write_segment, store_manifest,
  flush_manifest,
}
use chronostore.StorageEngine.Flushed.{blocks_from_snapshots-get}
use chronostore.StorageEngine.Flushed.Answers.{get-flush}
use chronostore.StorageEngine.Flushed.Constructed.{IsConstructed, put-IsConstructed}
use chronostore.StorageEngine.Query
use chronostore.MemTable.Valid
use chronostore.MemTable
use chronostore.OrderedMap.{find}
use chronostore.StorageEngine.Sound.Reach.{new_engine}
use chronostore.Examples.{cpu, sample_one, cpu-IsSeries, sample_one-IsSample}
use chronostore.Examples.Engine.{good, bad}
use chronostore.Examples.Wal.{appended}

abbrev first : StorageEngine
first = new_engine sync_on_append

abbrev written : StorageEngine
written = (put good first cpu sample_one).0

put_returned : put good first cpu sample_one ≡ (written, ok tt)
unfolding put ensure_usable contains contains_in contains_in_segments contains_in_reversed
    MemTable.get find
put_returned = ground (arith, appended)

reached : Reach first written
reached =
    later start (put_returns good cpu sample_one cpu-IsSeries sample_one-IsSample put_returned)

first-IsSound : IsSound first
first-IsSound = new_engine-IsSound sync_on_append

written-IsSound : IsSound written
written-IsSound = Reach-IsSound reached first-IsSound

Reach-IsSound_example : IsSound written
Reach-IsSound_example = Reach-IsSound reached first-IsSound

written_usable : written.failed ≡ false
written_usable =
    let (_, _, _, usable, _, _, _) = put-eq-ok good first cpu sample_one written put_returned in
    usable

nothing_torn : decode_frame [] ≡ throw WalDecodeError.incomplete_record
unfolding decode_frame
nothing_torn = refl

restart_example :
    (opened : StorageEngine) × (open_engine no_errors written.directory
        (some (written.wal_writer.file ++ []))
        sync_on_append
      ≡ some (ok opened))
    × IsSameAnswers written opened
restart_example =
    restart written sync_on_append sync_on_append [] reached written_usable nothing_torn
      (omega (arith, written-IsSound.durable.log_size, written-IsSound.durable.log_fits))

-- The put fails after five bytes of the record.
put-IsAtomic_example : IsAtomic (put bad first cpu sample_one).0 first cpu sample_one sync_on_append
put-IsAtomic_example =
    put-IsAtomic bad first cpu sample_one sync_on_append first-IsSound.durable cpu-IsSeries
      sample_one-IsSample

-- The samples of the engine in memory, with nothing else.
abbrev pub filled : StorageEngine
filled = record {
  memtable = MemTable.put MemTable.new cpu sample_one;
  manifest = first.manifest;
  segments = [];
  wal_writer = empty_log;
  logical_sample_count = 1;
  failed = false;
  directory = first.directory;
}

abbrev emptied : StorageEngine
emptied = (flush good filled).0

flush_ok : (flush good filled).1 ≡ ok tt
unfolding flush flush_samples add_segment prepare_segment next_segment_filename decimal
    write_segment store_manifest remove_file flush_manifest blocks_from_snapshots blocks_of_samples
    make_segment_block SegmentBlock.has_disorder ensure_usable MemTable.empty MemTable.put
    MemTable.snapshot find assign inner write_segment_file validate_blocks has_disorder write_blocks
    encode_segment_block encode_payload write_samples write_series_key write_tags write_frame
    write_string write_characters write_unsigned write_u8 write_u16 write_u32 write_u64 write_bytes
    timestamp_bits sample_count first_timestamp last_timestamp encode_index write_entries
    write_index encode_header encode_footer crc32c add_bytes add_byte shift_bits shift_bit
    open_segment read_file_bytes count_samples decode_header decode_footer read_header_fields
    read_footer_fields decode_index read_index_header read_entries read_entry validate_index
    validate_entries is_invalid_entry is_out_of_order read_series_key read_ordered_tags breaks_order
    timestamp_of_bits make_tag make_series_key has_duplicate_key sort read_string read_characters
    read_unsigned can_read advance decode_unsigned remaining read_u8 read_u16 read_u32 read_u64
    encode_manifest validate_state validate_names valid_segment_filename has_character extension
    from_last_dot is_among write_filenames write_manifest WalFile.reset WalFile.ensure_usable
flush_ok = refl

flush_returned : flush good filled ≡ (emptied, ok tt)
flush_returned = ap (λ (a : Outcome Exception (Unit {0})). (emptied, a)) flush_ok

filled-IsValid : Valid.IsValid filled.memtable
filled-IsValid = Valid.put-IsValid MemTable.new cpu sample_one Valid.new-IsValid

filled-IsConstructed : IsConstructed filled.memtable
filled-IsConstructed =
    put-IsConstructed MemTable.new cpu sample_one (record { entries = tt }) cpu-IsSeries
      sample_one-IsSample

get-flush_example : Query.get emptied cpu (pos 10) ≡ Query.get filled cpu (pos 10)
get-flush_example =
    get-flush good filled emptied cpu (pos 10) filled-IsValid filled-IsConstructed flush_returned

blocks_from_snapshots-get_example :
    (blocks : List SegmentBlock) × (blocks_from_snapshots (MemTable.snapshot filled.memtable)
      ≡ ok blocks)
    × ((s : SeriesKey) (at : Timestamp) → lookup blocks s at ≡ MemTable.get filled.memtable s at)
blocks_from_snapshots-get_example = blocks_from_snapshots-get filled.memtable filled-IsValid

-- No name is left for another segment.
abbrev exhausted : StorageEngine
exhausted = record {
  memtable = filled.memtable;
  manifest = record { generation = 2 ^ 64 - 1; logical_sample_count = 0; segment_files = [] };
  segments = [];
  wal_writer = empty_log;
  logical_sample_count = 1;
  failed = false;
  directory = first.directory;
}

abbrev stopped : StorageEngine
stopped = (flush good exhausted).0
