-- ===== src/Manifest/Valid.antt =====
-- The manifests that src/manifest.cpp loads.
use chronostore.Common.{
  ℕ, ◌+◌, ◌≤◌, ◌≡◌, ◌≢◌, refl, ap, arith, ==_self, Bool, true, false, not, ◌||◌, ◌&&◌, ◌==◌, Option,
  none, some, List, [], ◌∷◌, length, All, All-imp, ltb, ltb→le, ok, >>-eq-ok,
}
use chronostore.Order.{is_eq, is_eq_self, is_eq→eq, list_ord, nat_ord}
use chronostore.Model.{Bytes, is_empty}
use chronostore.Manifest.{
  ManifestState, validate_state, validate_names, valid_segment_filename, has_character, extension,
  segment_extension, is_among, max_manifest_segments, max_manifest_payload_size,
  manifest_header_size, manifest_checksum_size, decode_manifest, load_manifest, revalidate,
}

revalidate-eq-ok :
    (state decoded : ManifestState)
    → revalidate state ≡ ok decoded
    → (state ≡ decoded) × (validate_state state ≡ ok tt)
unfolding revalidate
revalidate-eq-ok state decoded h = ground arith

validated :
    (state decoded : ManifestState) → revalidate state ≡ ok decoded → validate_state decoded ≡ ok tt
validated state decoded h = let (same, valid) = revalidate-eq-ok state decoded h in cc (same, valid)

decode_manifest-validate_state :
    (bytes : Bytes) (state : ManifestState)
    → decode_manifest bytes ≡ ok state
    → validate_state state ≡ ok tt
unfolding decode_manifest
decode_manifest-validate_state bytes state h =
    ground (arith, λ (s : ManifestState). validated s state)

pub load_manifest-validate_state :
    (file : Option Bytes) (state : ManifestState)
    → load_manifest file ≡ ok state
    → validate_state state ≡ ok tt
unfolding load_manifest validate_state
load_manifest-validate_state none state h =
    let same : (record { generation = 0; logical_sample_count = 0; segment_files = [] }) ≡ state =
      cc (h) in
    rw (← same) refl
load_manifest-validate_state (some bytes) state h =
    let (_, h') =
      >>-eq-ok
        (ltb (max_manifest_payload_size + manifest_header_size + manifest_checksum_size)
          (length bytes))
        _ _ h in
    decode_manifest-validate_state bytes state h'

-- No `/` and no `\`, and the extension ".cst".
abbrev pub IsPlainName : Bytes → Type 0
IsPlainName name =
    All (λ character. (character ≢ 47) × (character ≢ 92)) name
    × (extension name ≡ segment_extension)

abbrev pub IsDistinct : List Bytes → Type 0
IsDistinct [] = Unit {0}
IsDistinct (name ∷ names) = All (λ other. name ≢ other) names × IsDistinct names

pub record IsSegmentList (names : List Bytes) : Type 0 where
  pub count_bounded : length names ≤ 100000
  pub names_plain : All IsPlainName names
  pub names_distinct : IsDistinct names

or_false : (a b : Bool) → (a || b) ≡ false → (a ≡ false) × (b ≡ false)
or_false a b h = ground arith

is_other : (a b : ℕ) → (a == b) ≡ false → a ≢ b
is_other a b h = λ same. absurd (ground (arith, ==_self b))

no_separators :
    (name : Bytes)
    → has_character 47 name ≡ false
    → has_character 92 name ≡ false
    → All (λ character. (character ≢ 47) × (character ≢ 92)) name
unfolding has_character
no_separators [] h k = tt
no_separators (c ∷ name) h k =
    let (slash, slashes) = or_false (c == 47) (has_character 47 name) h in
    let (backslash, backslashes) = or_false (c == 92) (has_character 92 name) k in
    ((is_other c 47 slash, is_other c 92 backslash), no_separators name slashes backslashes)

conditions :
    (a b c d : Bool) → (not (a || b || c) && d) ≡ true → (b ≡ false) × (c ≡ false) × (d ≡ true)
conditions a b c d h = ground arith

valid-IsPlainName : (name : Bytes) → valid_segment_filename name ≡ true → IsPlainName name
unfolding valid_segment_filename
valid-IsPlainName name h =
    let (slash, backslash, suffix) =
      conditions (is_empty name) (has_character 47 name) (has_character 92 name)
        (is_eq (extension name) segment_extension) h in
    (no_separators name slash backslash, is_eq→eq (extension name) segment_extension suffix)

is_eq-≢ : (name other : Bytes) → is_eq name other ≡ false → other ≢ name
is_eq-≢ name other h = λ same. cc (h, is_eq_self name, ap (is_eq name) same)

checked : (a b : Bool) → (not a || b) ≡ false → (a ≡ true) × (b ≡ false)
checked a b h = ground arith

-- The names that pass the loop, with respect to those seen before.
record IsChecked (seen names : List Bytes) : Type 0 where
  plain : All IsPlainName names
  distinct : IsDistinct names
  unseen : All (λ name. is_among name seen ≡ false) names

validate_names-IsChecked :
    (seen names : List Bytes) → validate_names seen names ≡ ok tt → IsChecked seen names
unfolding validate_names is_among
validate_names-IsChecked seen [] h = record { plain = tt; distinct = tt; unseen = tt }
validate_names-IsChecked seen (name ∷ names) h =
    let (fine, h') = >>-eq-ok (not (valid_segment_filename name) || is_among name seen) _ _ h in
    let (valid, unseen) = checked (valid_segment_filename name) (is_among name seen) fine in
    let rest = validate_names-IsChecked (name ∷ seen) names h' in
    let parts =
      All-imp _ _ (λ other fresh. or_false (is_eq other name) (is_among other seen) fresh) names
        rest.unseen in
    record {
      plain = (valid-IsPlainName name valid, rest.plain);
      distinct =
          (All-imp _ _ (λ other fresh. is_eq-≢ other name fresh.0) names parts, rest.distinct);
      unseen = (unseen, All-imp _ _ (λ other fresh. fresh.1) names parts);
    }

-- A manifest that is loaded, or the empty one where there is no file, lists at most 100000 names, no
-- two of them equal, and each without `/` and `\` and with the extension ".cst".
pub load_manifest-IsSegmentList :
    (file : Option Bytes) (state : ManifestState)
    → load_manifest file ≡ ok state
    → IsSegmentList state.segment_files
unfolding validate_state
load_manifest-IsSegmentList file state h =
    let (short, named) =
      >>-eq-ok (ltb max_manifest_segments (length state.segment_files)) _ _
        (load_manifest-validate_state file state h) in
    let names = validate_names-IsChecked [] state.segment_files named in
    record {
      count_bounded = ltb→le _ _ short;
      names_plain = names.plain;
      names_distinct = names.distinct;
    }
