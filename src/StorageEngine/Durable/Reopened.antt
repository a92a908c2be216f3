-- ===== src/StorageEngine/Durable/Reopened.antt =====
-- The directory that `recover` of src/storage_engine.cpp leaves, recovered again.
use chronostore.Common.{
  true, ℕ, ◌≡◌, refl, sym, false, ◌||◌, ◌&&◌, List, [], All, Outcome, ok, >>=-eq-ok, >>-eq-ok,
  throw_if, ◌>>◌, ltb, ◌!=◌, length,
}
use chronostore.Order.{list_ord, nat_ord}
use chronostore.Errors.{Exception, manifest_format_error}
use chronostore.Model.{is_empty}
use chronostore.MemTable
use chronostore.Manifest.{ManifestState, validate_state, load_manifest, max_manifest_segments}
use chronostore.Manifest.Valid.{load_manifest-validate_state}
use chronostore.SegmentFile.Reader.{SegmentReader}
use chronostore.WalFile.{WalDurability}
use chronostore.StorageEngine.{Directory, StorageEngine}
use chronostore.StorageEngine.Durable.{IsDurable, stored_of, counted_of, reopened}
use mathlib.Core.Path.{subst}
use chronostore.StorageEngine.Recover.{
  RecoveryState, open_segments, is_leftover, remove_leftovers, remove_temporaries, recover_segments,
}
use chronostore.StorageEngine.Durable.Leftovers.{
  open_segments-remove_leftovers, All-among, names_valid, live_names,
}

names_kept :
    (state : ManifestState)
    → validate_state state ≡ ok tt
    → All (λ name. is_leftover state.segment_files name ≡ false) state.segment_files
unfolding validate_state
names_kept state h =
    let (_, h') = >>-eq-ok (ltb max_manifest_segments (length state.segment_files)) _ _ h in
    live_names _ _ (All-among state.segment_files) (names_valid [] state.segment_files h')

-- The directory as `recover` leaves it.
abbrev pub cleaned : Directory → ManifestState → Directory
cleaned directory manifest = record {
  files = remove_leftovers manifest.segment_files directory.files;
  manifest_file = directory.manifest_file;
  temporaries = remove_temporaries manifest.segment_files directory.temporaries;
}

-- What follows the two calls in `recover_segments`.
rest_of : ManifestState → List SegmentReader → ℕ → Outcome Exception RecoveryState
rest_of manifest segments physical_segment_samples =
    throw_if
      (ltb physical_segment_samples manifest.logical_sample_count
        || is_empty segments && manifest.logical_sample_count != 0)
      manifest_format_error
    >> ok (record {
      memtable = MemTable.new;
      manifest = manifest;
      segments = segments;
      logical_sample_count = manifest.logical_sample_count;
      wal_size = 0;
    })

rest_of-manifest :
    (manifest : ManifestState) (segments : List SegmentReader) (count : ℕ) (stored : RecoveryState)
    → rest_of manifest segments count ≡ ok stored
    → stored.manifest ≡ manifest
unfolding rest_of
rest_of-manifest manifest segments count stored h =
    let test =
      ltb count manifest.logical_sample_count
      || is_empty segments && manifest.logical_sample_count != 0 in
    let (_, same) = >>-eq-ok test manifest_format_error _ h in cc (same)

cleaned_by :
    (directory : Directory) (stored : RecoveryState) (manifest : ManifestState)
    (segments : List SegmentReader) (count : ℕ)
    → load_manifest directory.manifest_file ≡ ok manifest
    → open_segments directory.files [] 0 manifest.segment_files ≡ ok (segments, count)
    → rest_of manifest segments count ≡ ok stored
    → recover_segments true (cleaned directory manifest) ≡ ok stored
unfolding recover_segments rest_of
cleaned_by directory stored manifest segments count e1 e2 h =
    let kept =
      names_kept manifest (load_manifest-validate_state directory.manifest_file manifest e1) in
    let opened =
      open_segments-remove_leftovers manifest.segment_files directory.files [] 0
        manifest.segment_files (segments, count) kept e2 in
    rw (e1, opened) h

-- A directory that is recovered is recovered to the same state after its cleaning.
pub recover_segments-cleaned :
    (directory : Directory) (stored : RecoveryState)
    → recover_segments true directory ≡ ok stored
    → recover_segments true (cleaned directory stored.manifest) ≡ ok stored
unfolding recover_segments rest_of
recover_segments-cleaned directory stored h =
    let (manifest, h1, e1) = >>=-eq-ok _ (load_manifest directory.manifest_file) h in
    let (opened, h2, e2) =
      >>=-eq-ok _ (open_segments directory.files [] 0 manifest.segment_files) h1 in
    subst (λ m. recover_segments true (cleaned directory m) ≡ ok stored)
      (sym (rest_of-manifest manifest opened.0 opened.1 stored h2))
      (cleaned_by directory stored manifest opened.0 opened.1 e1 e2 h2)

-- The engine that the constructor makes of the files of a durable engine is durable.
pub reopened-IsDurable :
    (e : StorageEngine) (durability : WalDurability) (d : IsDurable e)
    → IsDurable (reopened e.directory durability (stored_of e) (counted_of e) d.records)
reopened-IsDurable e durability d = record {
  records = d.records;
  records_written = d.records_written;
  log_frames = refl;
  log_size = refl;
  log_fits = d.log_fits;
  log_replayed = d.log_replayed;
  directory_recovers = recover_segments-cleaned e.directory (stored_of e) d.directory_recovers;
}
