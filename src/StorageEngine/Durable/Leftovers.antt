-- ===== src/StorageEngine/Durable/Leftovers.antt =====
-- The cleaning of the directory in `recover` of src/storage_engine.cpp, and the files of the manifest.
use chronostore.Common.{
  ℕ, ◌≡◌, refl, arith, Bool, true, false, not, ◌||◌, ◌&&◌, Option, none, some, List, [], ◌∷◌, ◌++◌,
  All, ok, demand, >>=-eq-ok, >>-eq-ok, All-imp,
}
use chronostore.Order.{is_eq, list_ord, nat_ord, is_eq_self, is_eq→eq}
use chronostore.OrderedMap.{Map, find}
use chronostore.OrderedMap.Lookup.{find_behind, find_in_front}
use chronostore.Errors.{system_error}
use chronostore.Model.{Bytes, is_empty}
use chronostore.Manifest.{
  validate_names, valid_segment_filename, is_among, extension, segment_extension, has_character,
}
use chronostore.SegmentFile.Reader.{SegmentReader, open_segment}
use chronostore.StorageEngine.Recover.{
  open_segments, is_leftover, has_segment_prefix, remove_leftovers, temporary_extension,
}

module _ (live : List Bytes) where
  -- A file that is no leftover stays.
  find-remove_leftovers :
      (name bytes : Bytes) (files : Map Bytes Bytes)
      → is_leftover live name ≡ false
      → find name files ≡ some bytes
      → find name (remove_leftovers live files) ≡ some bytes
  unfolding remove_leftovers
  find-remove_leftovers name bytes [] kept h = h
  find-remove_leftovers name bytes ((other, content) ∷ files) kept h =
      by_kind _ refl (find-remove_leftovers name bytes files kept)
    where
      Kept : Type 0
      Kept = find name (remove_leftovers live ((other, content) ∷ files)) ≡ some bytes

      Rest : Type 0
      Rest = find name files ≡ some bytes → find name (remove_leftovers live files) ≡ some bytes

      by_name :
          is_leftover live other ≡ true → (same : Bool) → is_eq name other ≡ same → Rest → Kept
      by_name leftover true same rest =
          let kept' = rw (is_eq→eq name other same) at kept in absurd (cc (leftover, kept'))
      by_name leftover false differs rest =
          rw (remove_leftovers, leftover)
            (rest (find_behind name other content bytes files h differs))

      by_kind : (leftover : Bool) → is_leftover live other ≡ leftover → Rest → Kept
      by_kind true leftover rest = by_name leftover _ refl rest
      by_kind false stays rest =
          rw (remove_leftovers, stays) (find_in_front name other content bytes files _ h rest)

  found :
      (file : Option Bytes) {bytes : Bytes}
      → demand system_error file ≡ ok bytes
      → file ≡ some bytes
  found none h = cc
  found (some file) h = cc (h)

  pub open_segments-remove_leftovers :
      (files : Map Bytes Bytes) (before : List SegmentReader) (count : ℕ) (names : List Bytes)
      (opened : List SegmentReader × ℕ)
      → All (λ name. is_leftover live name ≡ false) names
      → open_segments files before count names ≡ ok opened
      → open_segments (remove_leftovers live files) before count names ≡ ok opened
  unfolding open_segments
  open_segments-remove_leftovers files before count [] opened kept h = h
  open_segments-remove_leftovers files before count (name ∷ names) opened kept h =
      let (file, h1, e1) = >>=-eq-ok _ (demand _ (find name files)) h in
      let (segment, h2, e2) = >>=-eq-ok _ (open_segment file) h1 in
      let kept_file = find-remove_leftovers name file files kept.0 (found (find name files) e1) in
      rw (kept_file, e2)
        (open_segments-remove_leftovers files (before ++ (segment ∷ [])) _ names opened kept.1 h2)

neither : (a b c d : Bool) → c ≡ true → d ≡ false → ((a && b && not c) || (b && d)) ≡ false
neither a b c d h k = ground arith

both : (a b : Bool) → (a && b) ≡ true → b ≡ true
both a b h = ground arith

-- A name of a valid manifest is no leftover.
live_name :
    (live : List Bytes) (name : Bytes)
    → is_among name live ≡ true
    → valid_segment_filename name ≡ true
    → is_leftover live name ≡ false
unfolding is_leftover valid_segment_filename
live_name live name among valid =
    let same : extension name ≡ segment_extension =
      is_eq→eq (extension name) segment_extension
        (both (not (is_empty name || has_character 47 name || has_character 92 name)) _ valid) in
    let other : is_eq (extension name) temporary_extension ≡ false = rw same refl in
    neither (is_eq (extension name) segment_extension) (has_segment_prefix name)
      (is_among name live) _ among other

either : (a b : Bool) → b ≡ true → (a || b) ≡ true
either a b h = ground arith

pub All-among : (names : List Bytes) → All (λ name. is_among name names ≡ true) names
unfolding is_among
All-among [] = tt
All-among (name ∷ names) = (
  rw (is_eq_self name) refl,
  All-imp _ _ (λ other among. either (is_eq other name) (is_among other names) among) names
      (All-among names),
)

pub names_valid :
    (seen names : List Bytes)
    → validate_names seen names ≡ ok tt
    → All (λ name. valid_segment_filename name ≡ true) names
unfolding validate_names
names_valid seen [] h = tt
names_valid seen (name ∷ names) h =
    let (fine, h') = >>-eq-ok (not (valid_segment_filename name) || is_among name seen) _ _ h in
    (first_valid _ _ fine, names_valid (name ∷ seen) names h')
  where
    first_valid : (a b : Bool) → (not a || b) ≡ false → a ≡ true
    first_valid a b h = ground arith

pub live_names :
    (live names : List Bytes)
    → All (λ name. is_among name live ≡ true) names
    → All (λ name. valid_segment_filename name ≡ true) names
    → All (λ name. is_leftover live name ≡ false) names
live_names live [] among valid = tt
live_names live (name ∷ names) among valid =
    (live_name live name among.0 valid.0, live_names live names among.1 valid.1)
