-- ===== src/StorageEngine/Flushed/Returns.antt =====
-- The steps of `flush` of src/storage_engine.cpp where it returns.
use chronostore.Common.{
  ◌≡◌, inl, inr, refl, sym, ap, ◌∙◌, arith, some, List, [], ◌∷◌, ◌++◌, Outcome, ok, throw,
  >>=-eq-ok,
}
use mathlib.Core.Path.{subst}
use chronostore.Order.{list_ord, nat_ord}
use chronostore.OrderedMap.{assign}
use chronostore.Errors.{Exception}
use chronostore.Model.{Bytes}
use chronostore.MemTable
use chronostore.WalFile.Outcomes.{emptied, reset_outcome}
use chronostore.Manifest.{ManifestState, encode_manifest}
use chronostore.SegmentBlock.{SegmentBlock}
use chronostore.SegmentFile.{SegmentFileMetadata}
use chronostore.SegmentFile.Write.{write_segment_file}
use chronostore.SegmentFile.Reader.{SegmentReader, open_segment}
use chronostore.StorageEngine.{
  Directory, remove_file, AtomicWrite, written, failed_before_rename, failed_after_rename, Answers,
  StorageEngine, blocks_from_snapshots,
}
use chronostore.StorageEngine.Flush.{
  NewSegment, next_segment_filename, write_segment, store_manifest, prepare_segment,
  manifest_filename, add_segment, flush_manifest, flush_samples,
}

abbrev pub with_segment : Directory → Bytes → Bytes → Directory
with_segment directory filename bytes = record {
  files = assign filename bytes directory.files;
  manifest_file = directory.manifest_file;
  temporaries = remove_file filename directory.temporaries;
}

-- The steps that lead to a new segment.
pub record IsPrepared (manifest : ManifestState) (blocks : Outcome Exception (List SegmentBlock))
    (filename bytes : Bytes) : Type 0 where
  pub cut_blocks : List SegmentBlock
  pub metadata : SegmentFileMetadata
  pub blocks_cut : blocks ≡ ok cut_blocks
  pub named : next_segment_filename manifest ≡ ok filename
  pub file_written : write_segment_file cut_blocks ≡ ok (bytes, metadata)

prepare_segment-eq-ok :
    (manifest : ManifestState) (blocks : Outcome Exception (List SegmentBlock))
    (filename bytes : Bytes)
    → prepare_segment manifest blocks ≡ ok (filename, bytes)
    → IsPrepared manifest blocks filename bytes
unfolding prepare_segment
prepare_segment-eq-ok manifest blocks filename bytes h =
    let (cut, h1, e1) = >>=-eq-ok _ blocks h in
    let (name, h2, e2) = >>=-eq-ok _ (next_segment_filename manifest) h1 in
    let ((content, metadata), h3, e3) = >>=-eq-ok _ (write_segment_file cut) h2 in
    record {
      cut_blocks = cut;
      metadata = metadata;
      blocks_cut = e1;
      named = cc (e2, h3);
      file_written = cc (e3, h3);
    }

add_segment-eq-ok :
    (answer : AtomicWrite) (directory changed : Directory) (manifest : ManifestState)
    (blocks : Outcome Exception (List SegmentBlock)) (segment : NewSegment)
    → add_segment answer directory manifest blocks ≡ (changed, ok segment)
    → (bytes : Bytes) × IsPrepared manifest blocks segment.filename bytes
      × (open_segment bytes ≡ ok segment.reader)
      × (changed ≡ with_segment directory segment.filename bytes)
unfolding add_segment write_segment
add_segment-eq-ok answer directory changed manifest blocks segment h =
    by_prepared (prepare_segment manifest blocks) refl answer h
  where
    by_prepared :
        (prepared : Outcome Exception (Bytes × Bytes))
        → prepare_segment manifest blocks ≡ prepared
        → (answer : AtomicWrite)
        → add_segment answer directory manifest blocks ≡ (changed, ok segment)
        → (bytes : Bytes) × IsPrepared manifest blocks segment.filename bytes
          × (open_segment bytes ≡ ok segment.reader)
          × (changed ≡ with_segment directory segment.filename bytes)
    by_prepared (throw x) e answer h = absurd (ground arith)
    by_prepared (ok p) e (failed_before_rename x left) h = absurd (ground arith)
    by_prepared (ok p) e (failed_after_rename x) h = absurd (ground arith)
    by_prepared (ok (filename, bytes)) e written h = by_reader (open_segment bytes) refl
      where
        by_reader :
            (o : Outcome Exception SegmentReader)
            → open_segment bytes ≡ o
            → (bytes : Bytes) × IsPrepared manifest blocks segment.filename bytes
              × (open_segment bytes ≡ ok segment.reader)
              × (changed ≡ with_segment directory segment.filename bytes)
        by_reader (throw x) r = absurd (ground arith)
        by_reader (ok reader) r =
            let name : filename ≡ segment.filename = ground arith in
            let read : reader ≡ segment.reader = ground arith in
            let stored : with_segment directory filename bytes ≡ changed = ground arith in
            (
              bytes,
              subst (λ f. IsPrepared manifest blocks f bytes) name
                  (prepare_segment-eq-ok manifest blocks filename bytes e),
              r ∙ ap ok read,
              sym stored ∙ ap (λ f. with_segment directory f bytes) name,
            )

abbrev with_manifest : Directory → Bytes → Directory
with_manifest directory encoded = record {
  files = directory.files;
  manifest_file = some encoded;
  temporaries = remove_file manifest_filename directory.temporaries;
}

store_manifest-eq-ok :
    (answer : AtomicWrite) (directory changed : Directory) (state : ManifestState)
    → store_manifest answer directory state ≡ (changed, ok tt)
    → (encoded : Bytes) × (encode_manifest state ≡ ok encoded)
      × (changed ≡ with_manifest directory encoded)
unfolding store_manifest
store_manifest-eq-ok answer directory changed state h =
    by_encoding (encode_manifest state) refl answer h
  where
    by_encoding :
        (encoding : Outcome Exception Bytes)
        → encode_manifest state ≡ encoding
        → (answer : AtomicWrite) → store_manifest answer directory state ≡ (changed, ok tt)
        → (encoded : Bytes) × (encode_manifest state ≡ ok encoded)
          × (changed ≡ with_manifest directory encoded)
    by_encoding (throw x) e answer h = absurd (ground arith)
    by_encoding (ok encoded) e written h = (encoded, e, ground arith)
    by_encoding (ok encoded) e (failed_before_rename x left) h = absurd (ground arith)
    by_encoding (ok encoded) e (failed_after_rename x) h = absurd (ground arith)

-- The engine after a flush of samples: an empty table and log, and a segment more.
abbrev pub after_flush : StorageEngine → NewSegment → Bytes → Bytes → StorageEngine
after_flush e segment bytes encoded = record {
  memtable = MemTable.clear e.memtable;
  manifest = flush_manifest e segment.filename;
  segments = e.segments ++ (segment.reader ∷ []);
  wal_writer = emptied e.wal_writer;
  logical_sample_count = e.logical_sample_count;
  failed = e.failed;
  directory = record {
    files = assign segment.filename bytes e.directory.files;
    manifest_file = some encoded;
    temporaries =
        remove_file manifest_filename (remove_file segment.filename e.directory.temporaries);
  };
}

-- The flush that has stored a segment and a manifest.
pub record IsFlushed (e next : StorageEngine) : Type 0 where
  pub segment : NewSegment
  pub bytes : Bytes
  pub encoded : Bytes
  pub prepared :
      IsPrepared e.manifest
        (blocks_from_snapshots (MemTable.snapshot e.memtable))
        segment.filename
        bytes
  pub opened : open_segment bytes ≡ ok segment.reader
  pub manifest_encoded : encode_manifest (flush_manifest e segment.filename) ≡ ok encoded
  pub result : next ≡ after_flush e segment bytes encoded

-- Where `flush` of samples returns, it has gone through all its steps.
pub flush_samples-eq-ok :
    (answers : Answers) (e next : StorageEngine)
    → flush_samples answers e ≡ (next, ok tt)
    → IsFlushed e next
unfolding flush_samples
flush_samples-eq-ok answers e next h =
    by_segment
      (add_segment answers.segment_write e.directory e.manifest
        (blocks_from_snapshots (MemTable.snapshot e.memtable)))
      refl
  where
    by_manifest :
        (directory : Directory) (segment : NewSegment)
        → add_segment answers.segment_write e.directory e.manifest
            (blocks_from_snapshots (MemTable.snapshot e.memtable))
          ≡ (directory, ok segment)
        → (stored : Directory × Outcome Exception (Unit {0}))
        → store_manifest answers.manifest_write directory (flush_manifest e segment.filename)
          ≡ stored
        → IsFlushed e next
    by_manifest directory segment a (stored, throw x) m = absurd (ground arith)
    by_manifest directory segment a (stored, ok u) m =
        let (bytes, prepared, opened, changed) =
          add_segment-eq-ok answers.segment_write e.directory directory e.manifest _ segment a in
        let (encoded, encoding, kept) =
          store_manifest-eq-ok answers.manifest_write directory stored _ m in
        record {
          segment = segment;
          bytes = bytes;
          encoded = encoded;
          prepared = prepared;
          opened = opened;
          manifest_encoded = encoding;
          result = elim (reset_outcome answers.wal_calls e.wal_writer) [
            | inl emptied ↦ ground (arith, changed, kept)
            | inr (x, thrown, file) ↦ absurd (ground (arith, thrown))
          ];
        }

    by_segment :
        (added : Directory × Outcome Exception NewSegment)
        → add_segment answers.segment_write e.directory e.manifest
            (blocks_from_snapshots (MemTable.snapshot e.memtable))
          ≡ added
        → IsFlushed e next
    by_segment (directory, throw x) a = absurd (ground arith)
    by_segment (directory, ok segment) a =
        by_manifest directory segment a
          (store_manifest answers.manifest_write directory (flush_manifest e segment.filename)) refl
