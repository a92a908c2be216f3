-- ===== src/Examples/Engine.antt =====
-- The engine on concrete inputs.
use chronostore.Common.{
  Option, suc, ◌≡◌, ◌%◌, ◌^◌, ◌⊎◌, refl, arith, List, [], ◌∷◌, Bool, true, false, ◌&&◌, All, none,
  some, ok, throw, if◌then◌else◌,
}
use chronostore.Order.{pos, is_eq, int_ord}
use chronostore.OrderedMap.{find}
use chronostore.Errors.{system_error}
use chronostore.Model.{Sample, series_ord}
use chronostore.MemTable
use chronostore.WalFile.{SystemCalls, append, sync, write_record}
use chronostore.WalFile
use chronostore.SegmentBlock.{SegmentBlock, has_disorder}
use chronostore.StorageEngine.{
  StorageEngine, Answers, AtomicWrite, put, contains, contains_in, contains_in_segments,
  contains_in_reversed, ensure_usable, blocks_of_samples,
}
use chronostore.StorageEngine.Query
use chronostore.StorageEngine.ReadYourWrites.{sample_count-put, get-put_engine}
use chronostore.StorageEngine.Failure.{put_throws}
use chronostore.StorageEngine.Blocks.{blocks_of_samples_lem, all_samples, IsBlockOf}
use chronostore.Examples.{cpu, sample_one, sample_two}
use chronostore.Examples.Wal.{
  put_one, encode_put_one, put_one_length, appended, all_succeed, empty_log,
}

abbrev pub good : Answers
good = record {
  wal_calls = all_succeed;
  segment_write = AtomicWrite.written;
  manifest_write = AtomicWrite.written;
}

-- The disk is full after five bytes.
abbrev pub bad : Answers
bad = record {
  wal_calls = record {
    write_failure = some (5, system_error);
    sync_succeeds = true;
    truncate_succeeds = true;
  };
  segment_write = AtomicWrite.written;
  manifest_write = AtomicWrite.written;
}

abbrev engine_of : Bool → StorageEngine
engine_of failed = record {
  memtable = MemTable.new;
  manifest = record { generation = 0; logical_sample_count = 0; segment_files = [] };
  segments = [];
  wal_writer = empty_log;
  logical_sample_count = 0;
  failed = failed;
  directory = record { files = []; manifest_file = none; temporaries = [] };
}

nothing_there : contains (engine_of false) cpu sample_one.timestamp ≡ ok false
unfolding contains contains_in contains_in_segments contains_in_reversed MemTable.get find
nothing_there = refl

abbrev after : StorageEngine
after = (put good (engine_of false) cpu sample_one).0

abbrev after_failure : StorageEngine
after_failure = (put bad (engine_of false) cpu sample_one).0

put_returns : put good (engine_of false) cpu sample_one ≡ (after, ok tt)
unfolding put ensure_usable contains contains_in contains_in_segments contains_in_reversed
    MemTable.get find
put_returns = ground (arith, appended)

not_appended : (append bad.wal_calls empty_log put_one).1 ≡ throw system_error
unfolding append WalFile.ensure_usable write_record
not_appended = ground (arith, encode_put_one, put_one_length)

put_fails : put bad (engine_of false) cpu sample_one ≡ (after_failure, throw system_error)
unfolding put ensure_usable contains contains_in contains_in_segments contains_in_reversed
    MemTable.get find
put_fails = ground (arith, not_appended)

get-put_engine_example : Query.get after cpu (pos 10) ≡ (
    if is_eq cpu cpu && is_eq sample_one.timestamp (pos 10)
    then ok (some sample_one)
    else Query.get (engine_of false) cpu (pos 10))
get-put_engine_example =
    get-put_engine good (engine_of false) cpu sample_one after cpu (pos 10) put_returns

put_throws_example :
    (after_failure.memtable ≡ MemTable.new)
    × (after_failure.logical_sample_count ≡ 0)
    × (after_failure.segments ≡ [])
    × ((after_failure ≡ engine_of false) ⊎ (after_failure.failed ≡ true))
put_throws_example =
    put_throws bad (engine_of false) after_failure cpu sample_one system_error put_fails

blocks_example :
    (blocks : List SegmentBlock) × (blocks_of_samples 2 cpu (sample_one ∷ sample_two ∷ [])
      ≡ ok blocks)
    × (all_samples blocks ≡ sample_one ∷ sample_two ∷ [])
    × All (IsBlockOf cpu) blocks
blocks_example =
    blocks_of_samples_lem 2 cpu (sample_one ∷ sample_two ∷ []) (unfold has_disorder in refl)
      (omega arith)

sample_count-put_example :
    (found : Option Sample) × (Query.get (engine_of false) cpu sample_one.timestamp ≡ ok found)
    × (Query.sample_count after ≡ ok (elim found [ none ↦ suc 0 % 2 ^ 64 | some there ↦ 0 ]))
sample_count-put_example =
    sample_count-put good (engine_of false) cpu sample_one after 0 put_returns
      (unfold Query.sample_count ensure_usable in refl)
