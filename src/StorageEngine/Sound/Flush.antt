-- ===== src/StorageEngine/Sound/Flush.antt =====
-- `flush` of src/storage_engine.cpp and the invariant of the engine.
use chronostore.Common.{
  true, ℕ, zero, suc, ◌+◌, ◌%◌, ◌^◌, ◌<◌, ◌≤◌, ◌≡◌, inl, inr, refl, sym, arith, false, ◌||◌, ◌&&◌,
  List, [], ◌∷◌, ◌++◌, All, All-append, ok, ltb, ltb-false, ◌!=◌, ◌==◌, >>=-eq-ok, >>-eq-ok, ◌>>◌,
  throw_if, ◌-◌,
}
use chronostore.Errors.{manifest_format_error}
use mathlib.Core.Path.{subst}
use chronostore.Model.{Bytes, IsByte, is_empty}
use chronostore.ByteCodec.Layout.{++-IsByte}
use chronostore.MemTable
use chronostore.MemTable.Valid.{clear-IsValid}
use chronostore.Manifest.{ManifestState, segment_extension, load_manifest}
use chronostore.Manifest.Layout.{encode_manifest-eq-ok}
use chronostore.Manifest.RoundTrip.{IsManifest, load_manifest-encode_manifest}
use chronostore.SegmentFile.Reader.{SegmentReader}
use chronostore.StorageEngine.{StorageEngine, Answers}
use chronostore.StorageEngine.Durable.{stored_of}
use chronostore.StorageEngine.Flush.{
  decimal, next_segment_filename, segment_prefix, flush, flush_manifest,
}
use chronostore.StorageEngine.Flushed.Answers.{flush-eq-ok}
use chronostore.StorageEngine.Flushed.Counted.{sample_count-new_segment}
use chronostore.StorageEngine.Flushed.Returns.{IsFlushed, after_flush}
use chronostore.StorageEngine.Recover.{recover_segments, open_segments}
use chronostore.StorageEngine.Sound.{IsSound, physical}
use chronostore.StorageEngine.Sound.Segments.{
  fresh-validate_state, open_segments-append, open_segments-physical, physical-append,
}

decimal-IsByte :
    (width n : ℕ) (digits : Bytes) → All IsByte digits → All IsByte (decimal width n digits)
unfolding decimal
decimal-IsByte zero n digits h = h
decimal-IsByte (suc width) n digits h =
    decimal-IsByte width _ ((48 + n % 10) ∷ digits) (omega arith, h)

next_segment_filename-IsByte :
    (manifest : ManifestState) (name : Bytes)
    → next_segment_filename manifest ≡ ok name
    → All IsByte name
unfolding next_segment_filename
next_segment_filename-IsByte manifest name h =
    let (_, made) = >>-eq-ok (manifest.generation == 2 ^ 64 - 1) _ _ h in
    let same : segment_prefix ++ (decimal 20 (suc manifest.generation) [] ++ segment_extension)
        ≡ name =
      cc made in
    subst (All IsByte) same (
      ++-IsByte segment_prefix (decimal 20 (suc manifest.generation) [] ++ segment_extension)
        (omega arith)
        (++-IsByte (decimal 20 (suc manifest.generation) []) segment_extension
          (decimal-IsByte 20 (suc manifest.generation) [] tt) (omega arith)))

found_segments :
    (e : StorageEngine) (manifest : ManifestState) (segments : List SegmentReader) (counted : ℕ)
    → (throw_if
          (ltb counted manifest.logical_sample_count
            || is_empty segments && manifest.logical_sample_count != 0)
          manifest_format_error
        >> ok (record {
          memtable = MemTable.new;
          manifest = manifest;
          segments = segments;
          logical_sample_count = manifest.logical_sample_count;
          wal_size = 0;
        }))
      ≡ ok (stored_of e)
    → (manifest ≡ e.manifest) × (segments ≡ e.segments)
found_segments e manifest segments counted h =
    let (_, made) =
      >>-eq-ok
        (ltb counted manifest.logical_sample_count
          || is_empty segments && manifest.logical_sample_count != 0)
        _ _ h in
    (cc made, cc made)

-- What the recovery of a directory has found.
recover_segments-eq-ok :
    (e : StorageEngine)
    → recover_segments true e.directory ≡ ok (stored_of e)
    → (counted : ℕ) × (open_segments e.directory.files [] 0 e.manifest.segment_files
        ≡ ok (e.segments, counted))
unfolding recover_segments
recover_segments-eq-ok e h =
    let (manifest, h1, e1) = >>=-eq-ok _ (load_manifest e.directory.manifest_file) h in
    let ((segments, counted), h2, e2) =
      >>=-eq-ok _ (open_segments e.directory.files [] 0 manifest.segment_files) h1 in
    let (manifest_found, segments_found) = found_segments e manifest segments counted h2 in
    (counted, cc (e2, manifest_found, segments_found))

flush_manifest-IsManifest :
    (e : StorageEngine) (name : Bytes)
    → IsSound e
    → All IsByte name
    → IsManifest (flush_manifest e name)
unfolding flush_manifest
flush_manifest-IsManifest e name v b = record {
  generation_fits = omega arith;
  count_fits = v.count_fits;
  name_bytes = All-append (All IsByte) e.manifest.segment_files _ v.name_bytes (b, tt);
}

not_empty :
    (segments : List SegmentReader) (segment : SegmentReader)
    → is_empty (segments ++ (segment ∷ [])) ≡ false
not_empty [] segment = refl
not_empty (s ∷ segments) segment = refl

-- The directory that a flush leaves is recovered to the engine that it leaves.
flushed_recovers :
    (e next : StorageEngine)
    → (f : IsFlushed e next) → IsSound e
    → physical e.segments + e.memtable.sample_count < 2 ^ 64
    → recover_segments true (after_flush e f.segment f.bytes f.encoded).directory
      ≡ ok (stored_of (after_flush e f.segment f.bytes f.encoded))
unfolding recover_segments
flushed_recovers e next f v fits =
    let name = f.segment.filename in
    let manifest = flush_manifest e name in
    let fine =
      flush_manifest-IsManifest e name v
        (next_segment_filename-IsByte e.manifest name f.prepared.named) in
    let loaded = load_manifest-encode_manifest manifest f.encoded fine f.manifest_encoded in
    let (_, valid, _, _) =
      encode_manifest-eq-ok manifest f.encoded fine.name_bytes f.manifest_encoded in
    let fresh =
      fresh-validate_state e.manifest.segment_files name manifest (unfold flush_manifest in refl)
        valid in
    let (counted, opened) = recover_segments-eq-ok e v.durable.directory_recovers in
    let stored =
      open_segments-append e.directory.files name f.bytes f.segment.reader e.manifest.segment_files
        [] e.segments 0 counted f.opened fresh opened in
    let counts =
      open_segments-physical e.directory.files e.manifest.segment_files [] e.segments 0 counted refl
        opened in
    let added = sample_count-new_segment e next f v.memory_valid v.memory_constructed in
    let total = (counted + f.segment.reader.sample_count) % 2 ^ 64 in
    let enough : e.logical_sample_count ≤ total = omega (arith, v.covered, counts, added) in
    unfold flush_manifest in
    rw (
      loaded,
      stored,
      ltb-false total e.logical_sample_count enough,
      not_empty e.segments f.segment.reader,
    )

flushed-IsSound :
    (e next : StorageEngine)
    → (f : IsFlushed e next) → IsSound e
    → physical e.segments + e.memtable.sample_count < 2 ^ 64
    → IsSound (after_flush e f.segment f.bytes f.encoded)
unfolding flush_manifest MemTable.clear
flushed-IsSound e next f v fits =
    let name = f.segment.filename in
    let name_fine = next_segment_filename-IsByte e.manifest name f.prepared.named in
    let added = sample_count-new_segment e next f v.memory_valid v.memory_constructed in
    record {
      durable = record {
        records = [];
        records_written = tt;
        log_frames = refl;
        log_size = refl;
        log_fits = omega arith;
        log_replayed = refl;
        directory_recovers = flushed_recovers e next f v fits;
      };
      memory_valid = clear-IsValid e.memtable;
      memory_constructed = record { entries = tt };
      count_fits = v.count_fits;
      name_bytes = All-append (All IsByte) e.manifest.segment_files _ v.name_bytes (name_fine, tt);
      covered = omega (arith, v.covered, added, physical-append e.segments f.segment.reader);
    }

-- Where a flush returns, the invariant holds again, if the segments and the table in memory hold
-- fewer than 2 ^ 64 samples.
pub flush-IsSound :
    (answers : Answers) (e next : StorageEngine)
    → IsSound e
    → physical e.segments + e.memtable.sample_count < 2 ^ 64
    → flush answers e ≡ (next, ok tt)
    → IsSound next
flush-IsSound answers e next v fits h = elim (flush-eq-ok answers e next h) [
  | inl same ↦ subst IsSound (sym same) v
  | inr f ↦ subst IsSound (sym f.result) (flushed-IsSound e next f v fits)
]
