-- ===== src/Manifest/RoundTrip.antt =====
-- The encoder and the decoder of src/manifest.cpp, one after the other.
use chronostore.Common.{
  ℕ, ◌+◌, ◌-◌, ◌^◌, ◌<◌, ◌≤◌, ◌≡◌, refl, arith, List, [], ◌∷◌, ◌++◌, append-nil, append_assoc, All,
  length, take, drop, take-append_of, drop-append_of, ok, some, ltb-false, !=_self, !=_equal,
}
use chronostore.Model.{Bytes, IsByte}
use chronostore.Bits.{xor_lt}
use chronostore.ByteCodec.{reader_of, remaining, read_u32}
use chronostore.ByteCodec.Layout.{u16, u32, u64}
use chronostore.ByteCodec.Read.{reader_at, read_u16-u16, read_u32-u32, read_u64-u64}
use chronostore.ByteCodec.Strings.{read_string-string_bytes}
use chronostore.Crc32c.{crc32c}
use chronostore.Crc32c.Detect.{crc32c-lt}
use chronostore.Manifest.{
  ManifestState, ManifestHeader, manifest_magic, manifest_version, manifest_flags,
  max_manifest_payload_size, max_manifest_segments, inverted_size, validate_state,
  read_manifest_header, read_filenames, revalidate, encode_manifest, decode_manifest, load_manifest,
}
use chronostore.Manifest.Layout.{
  filenames_bytes, header_bytes, protected_bytes, manifest_bytes, length-header_bytes,
  length-protected_bytes, length-manifest_bytes, protected_bytes-IsByte, filename_fits,
  encode_manifest-eq-ok,
}

-- The two numbers of a manifest are 64-bit words, and its names are bytes.
pub record IsManifest (state : ManifestState) : Type 0 where
  pub generation_fits : state.generation < 2 ^ 64
  pub count_fits : state.logical_sample_count < 2 ^ 64
  pub name_bytes : All (All IsByte) state.segment_files

abbrev end_of_names : ℕ → List Bytes → ℕ
end_of_names position [] = position
end_of_names position (name ∷ names) = end_of_names (position + 4 + length name) names

read_filenames-filenames_bytes :
    (names before : List Bytes) (position : ℕ)
    → All (All IsByte) names
    → length (filenames_bytes names) < 2 ^ 32
    → read_filenames (length names) before (reader_at position (filenames_bytes names))
      ≡ some (before ++ names, reader_at (end_of_names position names) [])
unfolding read_filenames
read_filenames-filenames_bytes [] before position v h = rw append-nil
read_filenames-filenames_bytes (name ∷ names) before position v h =
    let fits = filename_fits name names h in
    rw (
      read_string-string_bytes name position (filenames_bytes names) v.0 fits.0,
      read_filenames-filenames_bytes names (before ++ (name ∷ [])) _ v.1 fits.1,
      append_assoc before (name ∷ []) names,
    )

abbrev header_of : ManifestState → ℕ → ManifestHeader
header_of state size = record {
  magic = manifest_magic;
  version = manifest_version;
  flags = manifest_flags;
  generation = state.generation;
  logical_sample_count = state.logical_sample_count;
  segment_count = length state.segment_files;
  payload_size = size;
  inverted = inverted_size size;
}

read_manifest_header-header_bytes :
    (state : ManifestState) (size : ℕ) (rest : Bytes)
    → IsManifest state
    → length state.segment_files < 2 ^ 32
    → size < 2 ^ 32
    → read_manifest_header (reader_of (header_bytes state size ++ rest))
      ≡ some (header_of state size)
unfolding read_manifest_header header_bytes
read_manifest_header-header_bytes state size rest v few h = rw (
  append_assoc (u32 manifest_magic) _ rest,
  read_u32-u32 manifest_magic 0 _ (omega arith),
  append_assoc (u16 manifest_version) _ rest,
  read_u16-u16 manifest_version _ _ (omega arith),
  append_assoc (u16 manifest_flags) _ rest,
  read_u16-u16 manifest_flags _ _ (omega arith),
  append_assoc (u64 state.generation) _ rest,
  read_u64-u64 state.generation _ _ v.generation_fits,
  append_assoc (u64 state.logical_sample_count) _ rest,
  read_u64-u64 state.logical_sample_count _ _ v.count_fits,
  append_assoc (u32 (length state.segment_files)) _ rest,
  read_u32-u32 (length state.segment_files) _ _ few,
  append_assoc (u32 size) _ rest,
  read_u32-u32 size _ _ h,
  read_u32-u32 (inverted_size size) _ rest (xor_lt 32 size 0xFFFFFFFF h (omega arith)),
)

module _ (state : ManifestState) where
  abbrev payload : Bytes
  payload = filenames_bytes state.segment_files

  abbrev stored : Bytes
  stored = u32 (crc32c (protected_bytes state))

  header_in_front :
      manifest_bytes state ≡ header_bytes state (length payload) ++ (payload ++ stored)
  unfolding manifest_bytes protected_bytes
  header_in_front = append_assoc (header_bytes state (length payload)) payload stored

  take-payload : take (length payload) (drop 36 (manifest_bytes state)) ≡ payload
  take-payload =
      rw (header_in_front, drop-append_of 36 _ (payload ++ stored) (length-header_bytes state _))
        (take-append_of _ payload stored refl)

  take_protected : take (36 + length payload) (manifest_bytes state) ≡ protected_bytes state
  unfolding manifest_bytes
  take_protected = take-append_of _ (protected_bytes state) stored (length-protected_bytes state)

  drop_protected : drop (36 + length payload) (manifest_bytes state) ≡ stored
  unfolding manifest_bytes
  drop_protected = drop-append_of _ (protected_bytes state) stored (length-protected_bytes state)

  protected_size : length (manifest_bytes state) - 4 ≡ 36 + length payload
  protected_size = omega (arith, length-manifest_bytes state)

  stored_read :
      crc32c (protected_bytes state) < 2 ^ 32
      → read_u32 (reader_of stored) ≡ some (crc32c (protected_bytes state), reader_at 4 [])
  stored_read h = rw append-nil at (read_u32-u32 (crc32c (protected_bytes state)) 0 [] h)

  revalidate_valid : validate_state state ≡ ok tt → revalidate state ≡ ok state
  unfolding revalidate
  revalidate_valid h = ground (arith, h)

  decode_manifest-manifest_bytes :
      IsManifest state
      → validate_state state ≡ ok tt
      → length payload ≤ max_manifest_payload_size
      → length state.segment_files ≤ max_manifest_segments
      → decode_manifest (manifest_bytes state) ≡ ok state
  unfolding decode_manifest remaining
  decode_manifest-manifest_bytes v valid small few =
      let long = length-manifest_bytes state in
      let crc = crc32c-lt (protected_bytes state) (protected_bytes-IsByte state v.name_bytes) in
      let header =
        read_manifest_header-header_bytes state (length payload) (payload ++ stored) v (omega arith)
          (omega arith) in
      let without_checksum : 40 + length payload - 4 ≡ 36 + length payload = omega arith in
      rw (
        ltb-false (length (manifest_bytes state)) 40 (omega arith),
        header_in_front,
        header,
        ← header_in_front,
        ltb-false max_manifest_segments (length state.segment_files) few,
        ltb-false max_manifest_payload_size (length payload) small,
        !=_self (inverted_size (length payload)),
        long,
        !=_equal (40 + length payload) (36 + length payload + 4) (omega arith),
        without_checksum,
        drop_protected,
        stored_read crc,
        take_protected,
        !=_self (crc32c (protected_bytes state)),
        take-payload,
        read_filenames-filenames_bytes state.segment_files [] 0 v.name_bytes (omega arith),
        revalidate_valid valid,
      )

-- A manifest that the encoder accepts, whose numbers are 64-bit words and whose names are bytes, is
-- decoded to itself.
pub decode_manifest-encode_manifest :
    (state : ManifestState) (bytes : Bytes)
    → IsManifest state
    → encode_manifest state ≡ ok bytes
    → decode_manifest bytes ≡ ok state
decode_manifest-encode_manifest state bytes v e =
    let (layout, valid, small, few) = encode_manifest-eq-ok state bytes v.name_bytes e in
    rw layout (decode_manifest-manifest_bytes state v valid small few)

-- Such a manifest, stored as the manifest file, is loaded again.
pub load_manifest-encode_manifest :
    (state : ManifestState) (bytes : Bytes)
    → IsManifest state
    → encode_manifest state ≡ ok bytes
    → load_manifest (some bytes) ≡ ok state
unfolding load_manifest
load_manifest-encode_manifest state bytes v e =
    let (layout, valid, small, few) = encode_manifest-eq-ok state bytes v.name_bytes e in
    let long : length bytes ≡ 40 + length (filenames_bytes state.segment_files) =
      rw layout (length-manifest_bytes state) in
    rw (ltb-false (max_manifest_payload_size + 36 + 4) (length bytes) (omega arith))
      (decode_manifest-encode_manifest state bytes v e)
