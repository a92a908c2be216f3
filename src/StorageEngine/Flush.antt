-- ===== src/StorageEngine/Flush.antt =====
-- src/storage_engine.cpp: `flush`, and the writing of a new segment and a new
-- manifest, which `compact` does too.
use chronostore.Common.{
  ℕ, zero, suc, ◌+◌, ◌-◌, ◌/◌, ◌%◌, ◌^◌, true, false, some, List, [], ◌∷◌, ◌++◌, ◌==◌, Outcome, ok,
  throw, throw_if, ◌>>=◌, ◌>>◌,
}
use chronostore.Order.{int_ord, list_ord, nat_ord}
use chronostore.OrderedMap.{assign}
use chronostore.Errors.{Exception, overflow_error}
use chronostore.Model.{Bytes, series_ord}
use chronostore.MemTable
use chronostore.MemTable.{MemTableSeriesSnapshot, SamplesByTimestamp, sample_of}
use chronostore.WalFile
use chronostore.WalFile.{WalWriter}
use chronostore.Manifest.{ManifestState, encode_manifest, segment_extension}
use chronostore.SegmentBlock.{SegmentBlock}
use chronostore.SegmentFile.Write.{write_segment_file}
use chronostore.SegmentFile.Reader.{SegmentReader, open_segment}
use chronostore.StorageEngine.{
  Directory, AtomicWrite, written, failed_before_rename, failed_after_rename, remove_file,
  with_temporary, Answers, StorageEngine, ensure_usable, fail, with_wal, blocks_from_snapshots,
}

-- "segment-"
abbrev pub segment_prefix : Bytes
segment_prefix = 115 ∷ 101 ∷ 103 ∷ 109 ∷ 101 ∷ 110 ∷ 116 ∷ 45 ∷ []

-- The last decimal digits of a number, padded by zeros.
unfoldable pub decimal : ℕ → ℕ → Bytes → Bytes
decimal zero n digits = digits
decimal (suc width) n digits = decimal width (n / 10) ((48 + n % 10) ∷ digits)

-- A 64-bit number has at most 20 digits, which is the width set.
unfoldable pub next_segment_filename : ManifestState → Outcome Exception Bytes
unfolding decimal
next_segment_filename manifest =
    throw_if (manifest.generation == 2 ^ 64 - 1) overflow_error
    >> ok (segment_prefix ++ (decimal 20 (suc manifest.generation) [] ++ segment_extension))

-- `atomic_write_file` on a segment, and on the manifest.
unfoldable pub write_segment :
    AtomicWrite → Directory → Bytes → Bytes → Directory × Outcome Exception (Unit {0})
write_segment answer directory filename bytes =
    let changed : Directory = record {
      files = assign filename bytes directory.files;
      manifest_file = directory.manifest_file;
      temporaries = remove_file filename directory.temporaries;
    } in
    elim answer [
      | written ↦ (changed, ok tt)
      | failed_before_rename exception temporary ↦
          (with_temporary directory filename temporary, throw exception)
      | failed_after_rename exception ↦ (changed, throw exception)
    ]

-- "MANIFEST"
abbrev pub manifest_filename : Bytes
manifest_filename = 77 ∷ 65 ∷ 78 ∷ 73 ∷ 70 ∷ 69 ∷ 83 ∷ 84 ∷ []

unfoldable pub store_manifest :
    AtomicWrite → Directory → ManifestState → Directory × Outcome Exception (Unit {0})
store_manifest answer directory state = elim (encode_manifest state) [
  | throw e ↦ (directory, throw e)
  | ok encoded ↦
      let changed : Directory = record {
        files = directory.files;
        manifest_file = some encoded;
        temporaries = remove_file manifest_filename directory.temporaries;
      } in
      elim answer [
        | written ↦ (changed, ok tt)
        | failed_before_rename exception temporary ↦
            (with_temporary directory manifest_filename temporary, throw exception)
        | failed_after_rename exception ↦ (changed, throw exception)
      ]
]

-- A segment that has been written and opened again, with its name.
pub record NewSegment : Type 0 where
  pub filename : Bytes
  pub reader : SegmentReader

-- The name and the bytes of the new file.
unfoldable pub prepare_segment :
    ManifestState → Outcome Exception (List SegmentBlock) → Outcome Exception (Bytes × Bytes)
unfolding next_segment_filename
prepare_segment manifest blocks = do
  blocks ← blocks
  filename ← next_segment_filename manifest
  (bytes, metadata) ← write_segment_file blocks
  ok (filename, bytes)

-- The statements that `flush` and `compact` share: the name, the file and the reader. The file that
-- the reader opens is the one just written.
unfoldable pub add_segment :
    AtomicWrite
    → Directory
    → ManifestState
    → Outcome Exception (List SegmentBlock)
    → Directory × Outcome Exception NewSegment
unfolding prepare_segment write_segment
add_segment answer directory manifest blocks = elim (prepare_segment manifest blocks) [
  | throw e ↦ (directory, throw e)
  | ok (filename, bytes) ↦
      let (changed, answer) = write_segment answer directory filename bytes in
      elim answer [
        | throw e ↦ (changed, throw e)
        | ok _ ↦ (
          changed,
          open_segment bytes >>= λ reader. ok (record { filename = filename; reader = reader }),
        )
      ]
]

-- The state of `flush` once the manifest is stored.
abbrev flushed : StorageEngine → Directory → ManifestState → NewSegment → StorageEngine
flushed e directory next segment = record {
  memtable = e.memtable;
  manifest = next;
  segments = e.segments ++ (segment.reader ∷ []);
  wal_writer = e.wal_writer;
  logical_sample_count = e.logical_sample_count;
  failed = e.failed;
  directory = directory;
}

abbrev with_memtable_clear : StorageEngine → WalWriter → StorageEngine
with_memtable_clear e wal_writer = record {
  memtable = MemTable.clear e.memtable;
  manifest = e.manifest;
  segments = e.segments;
  wal_writer = wal_writer;
  logical_sample_count = e.logical_sample_count;
  failed = e.failed;
  directory = e.directory;
}

-- The manifest that `flush` stores.
unfoldable pub flush_manifest : StorageEngine → Bytes → ManifestState
flush_manifest e filename = record {
  generation = suc e.manifest.generation % 2 ^ 64;
  logical_sample_count = e.logical_sample_count;
  segment_files = e.manifest.segment_files ++ (filename ∷ []);
}

-- `flush` where the table in memory is not empty.
unfoldable pub flush_samples :
    Answers → StorageEngine → StorageEngine × Outcome Exception (Unit {0})
unfolding add_segment store_manifest flush_manifest
flush_samples answers e =
    let blocks = blocks_from_snapshots (MemTable.snapshot e.memtable) in
    let (directory, answer) = add_segment answers.segment_write e.directory e.manifest blocks in
    elim answer [
      | throw exception ↦ fail e e.wal_writer directory exception
      | ok segment ↦
          let next = flush_manifest e segment.filename in
          let (directory, answer) = store_manifest answers.manifest_write directory next in
          elim answer [
            | throw exception ↦ fail e e.wal_writer directory exception
            | ok _ ↦
                let e = flushed e directory next segment in
                let (wal_writer, answer) = WalFile.reset answers.wal_calls e.wal_writer in
                elim answer [
                  | throw exception ↦ fail e wal_writer e.directory exception
                  | ok _ ↦ (with_memtable_clear e wal_writer, ok tt)
                ]
          ]
    ]

unfoldable pub flush : Answers → StorageEngine → StorageEngine × Outcome Exception (Unit {0})
unfolding flush_samples
flush answers e = elim (ensure_usable e) [
  | throw exception ↦ (e, throw exception)
  | ok _ ↦ elim (MemTable.empty e.memtable) [
    | false ↦ flush_samples answers e
    | true ↦
        let (wal_writer, answer) = WalFile.sync answers.wal_calls e.wal_writer in
        elim answer [
          | throw exception ↦ fail e wal_writer e.directory exception
          | ok _ ↦ (with_wal e wal_writer, ok tt)
        ]
  ]
]
