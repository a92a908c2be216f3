-- ===== src/StorageEngine/Sound/Segments.antt =====
-- A directory of src/storage_engine.cpp with one segment more.
use chronostore.Common.{
  ℕ, ◌+◌, ◌%◌, ◌^◌, ◌≡◌, refl, sym, ap, ◌∙◌, arith, Bool, false, not, ◌||◌, some, List, [], ◌∷◌,
  ◌++◌, length, All, ok, demand, ltb, >>=-eq-ok, >>-eq-ok,
}
use chronostore.Order.{is_eq, list_ord, nat_ord, is_eq_self}
use chronostore.OrderedMap.{Map, find, assign}
use chronostore.OrderedMap.Lookup.{find-assign}
use chronostore.Model.{Bytes}
use chronostore.Manifest.{
  ManifestState, validate_state, validate_names, valid_segment_filename, is_among,
  max_manifest_segments,
}
use chronostore.SegmentFile.Reader.{SegmentReader, open_segment}
use chronostore.StorageEngine.Recover.{open_segments}
use chronostore.StorageEngine.Sound.{physical}

or_false : (a b : Bool) → (a || b) ≡ false → (a ≡ false) × (b ≡ false)
or_false a b h = ground arith

-- A name that passes the check of the manifest behind others is none of them.
fresh_name :
    (names seen : List Bytes) (name : Bytes)
    → validate_names seen (names ++ (name ∷ [])) ≡ ok tt
    → (is_among name seen ≡ false) × All (λ other. is_eq name other ≡ false) names
unfolding validate_names
fresh_name [] seen name h =
    let (fine, _) = >>-eq-ok (not (valid_segment_filename name) || is_among name seen) _ _ h in
    ((or_false _ _ fine).1, tt)
fresh_name (other ∷ names) seen name h =
    let (_, h') = >>-eq-ok (not (valid_segment_filename other) || is_among other seen) _ _ h in
    let (unseen, rest) = fresh_name names (other ∷ seen) name h' in
    let (differs, unseen') = or_false (is_eq name other) _ (unfold is_among in unseen) in
    (unseen', (differs, rest))

pub fresh-validate_state :
    (names : List Bytes) (name : Bytes) (state : ManifestState)
    → state.segment_files ≡ names ++ (name ∷ [])
    → validate_state state ≡ ok tt
    → All (λ other. is_eq name other ≡ false) names
unfolding validate_state
fresh-validate_state names name state e h =
    let (_, h') = >>-eq-ok (ltb max_manifest_segments (length state.segment_files)) _ _ h in
    (fresh_name names [] name (rw e at h')).1

module _ (files : Map Bytes Bytes) (name bytes : Bytes) where
  find-assign_fresh :
      (other : Bytes)
      → is_eq name other ≡ false
      → find other (assign name bytes files) ≡ find other files
  find-assign_fresh other h = find-assign name other bytes files ∙ rw h refl

  find-assign_same : find name (assign name bytes files) ≡ some bytes
  find-assign_same = find-assign name name bytes files ∙ rw (is_eq_self name) refl

  -- The segments of a longer list of names.
  pub open_segments-append :
      (reader : SegmentReader) (names : List Bytes) (before segments : List SegmentReader)
      (count counted : ℕ)
      → open_segment bytes ≡ ok reader
      → All (λ other. is_eq name other ≡ false) names
      → open_segments files before count names ≡ ok (segments, counted)
      → open_segments (assign name bytes files) before count (names ++ (name ∷ []))
        ≡ ok (segments ++ (reader ∷ []), (counted + reader.sample_count) % 2 ^ 64)
  unfolding open_segments
  open_segments-append reader [] before segments count counted o fresh h =
      rw (find-assign_same, o) (cc h)
  open_segments-append reader (other ∷ names) before segments count counted o fresh h =
      let (file, h1, e1) = >>=-eq-ok _ (demand _ (find other files)) h in
      let (segment, h2, e2) = >>=-eq-ok _ (open_segment file) h1 in
      rw (find-assign_fresh other fresh.0, e1, e2)
        (open_segments-append reader names (before ++ (segment ∷ [])) segments _ counted o fresh.1
          h2)

pub physical-append :
    (segments : List SegmentReader) (segment : SegmentReader)
    → physical (segments ++ (segment ∷ [])) ≡ physical segments + segment.sample_count
physical-append [] segment = omega arith
physical-append (s ∷ segments) segment = omega (arith, physical-append segments segment)

-- The count of the recovery is that of the segments, where it fits.
pub open_segments-physical :
    (files : Map Bytes Bytes) (names : List Bytes) (before segments : List SegmentReader)
    (count counted : ℕ)
    → count ≡ physical before % 2 ^ 64
    → open_segments files before count names ≡ ok (segments, counted)
    → counted ≡ physical segments % 2 ^ 64
unfolding open_segments
open_segments-physical files [] before segments count counted c h =
    let same : before ≡ segments = cc h in
    let as_many : count ≡ counted = cc h in sym as_many ∙ c ∙ ap (λ t. physical t % 2 ^ 64) same
open_segments-physical files (name ∷ names) before segments count counted c h =
    let (file, h1, e1) = >>=-eq-ok _ (demand _ (find name files)) h in
    let (segment, h2, e2) = >>=-eq-ok _ (open_segment file) h1 in
    open_segments-physical files names (before ++ (segment ∷ [])) segments _ counted
      (omega (arith, physical-append before segment, c)) h2
