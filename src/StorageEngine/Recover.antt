-- ===== src/StorageEngine/Recover.antt =====
-- src/storage_engine.cpp: `recover` and the constructor. What the system answers is a parameter, but
-- files are read without an error. The answer is `none` only where the replay runs out of fuel. Where
-- the constructor throws, the files that it leaves are no part of the answer.
use chronostore.Common.{
  ℕ, suc, ◌+◌, ◌%◌, ◌^◌, Bool, true, false, not, ◌||◌, ◌&&◌, Option, none, some, List, [], ◌∷◌,
  ◌++◌, take, ltb, ◌!=◌, if◌then◌else◌, Outcome, ok, throw, throw_if, demand, ◌>>=◌, ◌>>◌,
}
use chronostore.Order.{is_eq, list_ord, nat_ord}
use chronostore.OrderedMap.{Map, find}
use chronostore.Errors.{Exception, runtime_error, system_error, manifest_format_error}
use chronostore.Model.{Bytes, is_empty}
use chronostore.MemTable
use chronostore.MemTable.{MemTable}
use chronostore.WalRecord.{WalPutRecord}
use chronostore.WalRecovery.{WalReplayResult, RepairCalls, repair_fine, replay_wal, repair_wal_tail}
use chronostore.WalFile
use chronostore.WalFile.{WalDurability, OpenCalls, SystemCalls, open_wal, opens_fine, calls_fine}
use chronostore.Manifest.{ManifestState, load_manifest, extension, segment_extension, is_among}
use chronostore.SegmentFile.Reader.{SegmentReader, open_segment}
use chronostore.StorageEngine.{Directory, StorageEngine, contains_in}
use chronostore.StorageEngine.Flush.{segment_prefix}

-- The answers of the system while an engine is constructed: to the listing of the directory, to the
-- question whether there is a log, to the creation of one, to the repair and to the writer.
pub record OpenAnswers : Type 0 where
  pub lists : Bool
  pub inspects : Bool
  pub creator : OpenCalls
  pub creator_calls : SystemCalls
  pub repair : RepairCalls
  pub writer : OpenCalls

-- No call fails.
abbrev pub no_errors : OpenAnswers
no_errors = record {
  lists = true;
  inspects = true;
  creator = opens_fine;
  creator_calls = calls_fine;
  repair = repair_fine;
  writer = opens_fine;
}

pub record RecoveryState : Type 0 where
  pub memtable : MemTable
  pub manifest : ManifestState
  pub segments : List SegmentReader
  pub logical_sample_count : ℕ
  pub wal_size : ℕ

-- The loop that opens the segments of the manifest; a file that is missing cannot be inspected.
unfoldable pub open_segments :
    Map Bytes Bytes
    → List SegmentReader
    → ℕ
    → List Bytes
    → Outcome Exception (List SegmentReader × ℕ)
open_segments files segments physical_segment_samples [] = ok (segments, physical_segment_samples)
open_segments files segments physical_segment_samples (filename ∷ filenames) = do
  file ← demand system_error (find filename files)
  segment ← open_segment file
  open_segments files (segments ++ (segment ∷ []))
      ((physical_segment_samples + segment.sample_count) % 2 ^ 64) filenames

-- ".tmp"
abbrev pub temporary_extension : Bytes
temporary_extension = 46 ∷ 116 ∷ 109 ∷ 112 ∷ []

-- `filename.starts_with("segment-")`
unfoldable pub has_segment_prefix : Bytes → Bool
has_segment_prefix filename = is_eq (take 8 filename) segment_prefix

-- `orphan_segment || stale_temporary`
unfoldable pub is_leftover : List Bytes → Bytes → Bool
unfolding has_segment_prefix
is_leftover live_segments filename =
    is_eq (extension filename) segment_extension
      && has_segment_prefix filename
      && not (is_among filename live_segments)
    || has_segment_prefix filename && is_eq (extension filename) temporary_extension

-- The loop over the directory.
unfoldable pub remove_leftovers : List Bytes → Map Bytes Bytes → Map Bytes Bytes
unfolding is_leftover
remove_leftovers live_segments [] = []
remove_leftovers live_segments ((filename, bytes) ∷ files) =
    elim (is_leftover live_segments filename) [
      | true ↦ remove_leftovers live_segments files
      | false ↦ (filename, bytes) ∷ remove_leftovers live_segments files
    ]

-- The loop over the directory again, for the temporary files.
unfoldable pub remove_temporaries : List Bytes → Map Bytes Bytes → Map Bytes Bytes
unfolding is_leftover
remove_temporaries live_segments [] = []
remove_temporaries live_segments ((filename, bytes) ∷ files) =
    elim (is_leftover live_segments (filename ++ temporary_extension)) [
      | true ↦ remove_temporaries live_segments files
      | false ↦ (filename, bytes) ∷ remove_temporaries live_segments files
    ]

-- The table and the count that the callback changes.
pub record Counted : Type 0 where
  pub memtable : MemTable
  pub logical_sample_count : ℕ

-- The callback.
unfoldable pub replay_put : List SegmentReader → Counted → WalPutRecord → Outcome Exception Counted
replay_put segments recovered put = do
  already_exists ← contains_in recovered.memtable segments put.series put.sample.timestamp
  ok (record {
    memtable = MemTable.put recovered.memtable put.series put.sample;
    logical_sample_count =
        if already_exists
        then recovered.logical_sample_count
        else suc recovered.logical_sample_count % 2 ^ 64;
  })

-- `recover` up to the log: the manifest, the segments and the check of the counts.
unfoldable pub recover_segments : Bool → Directory → Outcome Exception RecoveryState
unfolding open_segments
recover_segments lists directory = do
  manifest ← load_manifest directory.manifest_file
  (segments, physical_segment_samples) ← open_segments directory.files [] 0 manifest.segment_files
  throw_if (not lists) system_error
  throw_if
      (ltb physical_segment_samples manifest.logical_sample_count
        || is_empty segments && manifest.logical_sample_count != 0)
      manifest_format_error
  ok (record {
    memtable = MemTable.new;
    manifest = manifest;
    segments = segments;
    logical_sample_count = manifest.logical_sample_count;
    wal_size = 0;
  })

-- The statements after the replay, with the file that the repair leaves.
unfoldable pub repaired :
    RepairCalls
    → Bytes
    → RecoveryState
    → WalReplayResult
    → Counted
    → Outcome Exception (RecoveryState × Bytes)
repaired calls wal recovered result counted = do
  wal ← repair_wal_tail calls wal result
  ok (
    record {
      memtable = counted.memtable;
      manifest = recovered.manifest;
      segments = recovered.segments;
      logical_sample_count = counted.logical_sample_count;
      wal_size = result.valid_bytes;
    },
    wal,
  )

-- The creation of a log where there is none.
unfoldable pub create_log : OpenAnswers → RecoveryState → Outcome Exception (RecoveryState × Bytes)
create_log answers recovered = do
  writer ← open_wal answers.creator [] WalDurability.buffered
  (WalFile.sync answers.creator_calls writer).1
  ok (recovered, [])

-- `recover`, on the log's content, if the file exists.
unfoldable pub recover :
    OpenAnswers → Directory → Option Bytes → Option (Outcome Exception (RecoveryState × Bytes))
unfolding recover_segments replay_put repaired create_log
recover answers directory wal = elim (recover_segments answers.lists directory) [
  | throw e ↦ some (throw e)
  | ok recovered ↦ elim answers.inspects [
    | false ↦ some (throw system_error)
    | true ↦ elim wal [
      | none ↦ some (create_log answers recovered)
      | some wal ↦
          elim (replay_wal (replay_put recovered.segments) wal (record {
            memtable = recovered.memtable;
            logical_sample_count = recovered.logical_sample_count;
          })) [
            | none ↦ none
            | some (throw e) ↦ some (throw e)
            | some (ok (result, counted)) ↦
                some (repaired answers.repair wal recovered result counted)
          ]
    ]
  ]
]

-- The constructor, with the directory that `recover` leaves.
unfoldable pub construct :
    OpenCalls → Directory → WalDurability → RecoveryState × Bytes → Outcome Exception StorageEngine
unfolding remove_leftovers remove_temporaries
construct calls directory durability (recovered, wal) =
    open_wal calls wal durability >>= λ wal_writer.
    throw_if (wal_writer.size_bytes != recovered.wal_size) runtime_error
    >> ok (record {
      memtable = recovered.memtable;
      manifest = recovered.manifest;
      segments = recovered.segments;
      wal_writer = wal_writer;
      logical_sample_count = recovered.logical_sample_count;
      failed = false;
      directory = record {
        files = remove_leftovers recovered.manifest.segment_files directory.files;
        manifest_file = directory.manifest_file;
        temporaries = remove_temporaries recovered.manifest.segment_files directory.temporaries;
      };
    })

unfoldable pub open_engine :
    OpenAnswers
    → Directory
    → Option Bytes
    → WalDurability
    → Option (Outcome Exception StorageEngine)
unfolding recover construct
open_engine answers directory wal durability = elim (recover answers directory wal) [
  | none ↦ none
  | some (throw e) ↦ some (throw e)
  | some (ok recovered) ↦ some (construct answers.writer directory durability recovered)
]
