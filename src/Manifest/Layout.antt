-- ===== src/Manifest/Layout.antt =====
-- The documented layout of a manifest file, and the encoder of src/manifest.cpp.
use chronostore.Common.{
  ℕ, ◌+◌, ◌^◌, ◌<◌, ◌≤◌, ◌≡◌, refl, ap, ◌∙◌, arith, List, [], ◌∷◌, ◌++◌, append-nil, append_assoc,
  All, length, length-append, ltb, ok, >>=-eq-ok, >>-eq-ok, ltb→le,
}
use native.Mathlib.Nat.{mod-eq_of_lt}
use chronostore.Model.{Bytes, IsByte}
use chronostore.ByteCodec.{ByteWriter, write_string}
use chronostore.ByteCodec.Layout.{
  u16, u32, u64, string_bytes, length-u32, length-string_bytes, ++-IsByte, string_bytes-IsByte,
  byte_rules,
}
use chronostore.ByteCodec.Write.{write_laws, write_string-string_bytes, write_string-eq-ok}
use chronostore.Crc32c.{crc32c}
use chronostore.Manifest.{
  ManifestState, manifest_magic, manifest_version, manifest_flags, max_manifest_payload_size,
  max_manifest_segments, inverted_size, validate_state, write_filenames, write_manifest,
  encode_manifest,
}

abbrev pub filenames_bytes : List Bytes → Bytes
filenames_bytes [] = []
filenames_bytes (filename ∷ filenames) = string_bytes filename ++ filenames_bytes filenames

unfoldable pub header_bytes : ManifestState → ℕ → Bytes
header_bytes state size =
    u32 manifest_magic
    ++ (u16 manifest_version
        ++ (u16 manifest_flags
            ++ (u64 state.generation
                ++ (u64 state.logical_sample_count
                    ++ (u32 (length state.segment_files)
                        ++ (u32 size ++ u32 (inverted_size size)))))))

unfoldable pub protected_bytes : ManifestState → Bytes
protected_bytes state =
    let payload = filenames_bytes state.segment_files in
    header_bytes state (length payload) ++ payload

unfoldable pub manifest_bytes : ManifestState → Bytes
manifest_bytes state = protected_bytes state ++ u32 (crc32c (protected_bytes state))

pub length-header_bytes : (state : ManifestState) (size : ℕ) → length (header_bytes state size) ≡ 36
unfolding header_bytes u16 u32 u64
length-header_bytes state size = refl

pub length-protected_bytes :
    (state : ManifestState)
    → length (protected_bytes state) ≡ 36 + length (filenames_bytes state.segment_files)
unfolding protected_bytes
length-protected_bytes state =
    let payload = filenames_bytes state.segment_files in
    omega (
      arith,
      length-append (header_bytes state (length payload)) payload,
      length-header_bytes state (length payload),
    )

pub length-manifest_bytes :
    (state : ManifestState)
    → length (manifest_bytes state) ≡ 40 + length (filenames_bytes state.segment_files)
unfolding manifest_bytes
length-manifest_bytes state =
    let stored = crc32c (protected_bytes state) in
    omega (
      arith,
      length-append (protected_bytes state) (u32 stored),
      length-protected_bytes state,
      length-u32 stored,
    )

filenames_bytes-IsByte :
    (names : List Bytes) → All (All IsByte) names → All IsByte (filenames_bytes names)
filenames_bytes-IsByte [] v = tt
filenames_bytes-IsByte (name ∷ names) v =
    ++-IsByte (string_bytes name) _ (string_bytes-IsByte name v.0)
      (filenames_bytes-IsByte names v.1)

pub protected_bytes-IsByte :
    (state : ManifestState)
    → All (All IsByte) state.segment_files
    → All IsByte (protected_bytes state)
unfolding protected_bytes header_bytes
protected_bytes-IsByte state v = search (byte_rules, filenames_bytes-IsByte) depth 12

-- Every name of a list that lays out in fewer than 2 ^ 32 bytes is that short too.
pub filename_fits :
    (name : Bytes) (names : List Bytes)
    → length (filenames_bytes (name ∷ names)) < 2 ^ 32
    → (length name < 2 ^ 32) × (length (filenames_bytes names) < 2 ^ 32)
filename_fits name names h =
    omega
      (arith, length-append (string_bytes name) (filenames_bytes names), length-string_bytes name)

segments_bound :
    (state : ManifestState)
    → validate_state state ≡ ok tt
    → length state.segment_files ≤ max_manifest_segments
unfolding validate_state
segments_bound state h =
    ltb→le max_manifest_segments (length state.segment_files) (>>-eq-ok _ _ _ h).0

write_filenames-eq-ok :
    (names : List Bytes) (writer writer' : ByteWriter)
    → All (All IsByte) names
    → write_filenames writer names ≡ ok writer'
    → writer' ≡ writer ++ filenames_bytes names
unfolding write_filenames
write_filenames-eq-ok [] writer writer' v h = ground (arith, append-nil writer)
write_filenames-eq-ok (name ∷ names) writer writer' v h =
    let (w, h', e) = >>=-eq-ok _ (write_string writer name) h in
    let written = write_string-string_bytes writer name v.0 (write_string-eq-ok writer w name e) in
    let e' : w ≡ writer ++ string_bytes name = cc (written, e) in
    write_filenames-eq-ok names w writer' v.1 h' ∙ rw e' (simp append_assoc)

write_manifest-manifest_bytes :
    (state : ManifestState)
    → length state.segment_files < 2 ^ 32
    → length (filenames_bytes state.segment_files) < 2 ^ 32
    → write_manifest state (filenames_bytes state.segment_files) ≡ manifest_bytes state
unfolding write_manifest manifest_bytes protected_bytes header_bytes
write_manifest-manifest_bytes state few short =
    rw (mod-eq_of_lt few, mod-eq_of_lt short) (simp write_laws)

-- Whenever a manifest whose names are bytes is encoded, it passed the checks and is laid out as
-- documented, in 40 bytes and a payload of 16 MiB at most.
pub encode_manifest-eq-ok :
    (state : ManifestState) (bytes : Bytes)
    → All (All IsByte) state.segment_files
    → encode_manifest state ≡ ok bytes
    → (bytes ≡ manifest_bytes state)
      × (validate_state state ≡ ok tt)
      × (length (filenames_bytes state.segment_files) ≤ max_manifest_payload_size)
      × (length state.segment_files ≤ max_manifest_segments)
unfolding encode_manifest
encode_manifest-eq-ok state bytes v h =
    let (_, h1, valid) = >>=-eq-ok _ (validate_state state) h in
    let (payload, h2, written) = >>=-eq-ok _ (write_filenames [] state.segment_files) h1 in
    let (small, h3) = >>-eq-ok (ltb max_manifest_payload_size (length payload)) _ _ h2 in
    let laid = write_filenames-eq-ok state.segment_files [] payload v written in
    let few = segments_bound state valid in
    let fits = ltb→le max_manifest_payload_size (length payload) small in
    let laid' : payload ≡ filenames_bytes state.segment_files = laid in
    let size = ap length laid' in
    let written = write_manifest-manifest_bytes state (omega arith) (omega arith) in
    (cc (h3, laid', written), valid, omega arith, few)
