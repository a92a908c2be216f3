-- ===== src/Manifest.antt =====
-- src/manifest.cpp: the list of the live segments, its checks and its file format.
pub mod Valid
pub mod Layout
pub mod RoundTrip
use Prim.Native.Nat.{bit_xor}
use chronostore.Common.{
  ℕ, zero, suc, ◌+◌, ◌-◌, ◌*◌, ◌%◌, ◌^◌, Bool, true, false, not, ◌||◌, ◌&&◌, Option, none, some,
  List, [], ◌∷◌, ◌++◌, length, take, drop, ltb, ◌==◌, ◌!=◌, Outcome, ok, throw, throw_if, demand,
  ◌>>=◌, ◌>>◌,
}
use chronostore.Common.Optional.{◌>>=◌ as ◌>>=?◌}
use chronostore.Order.{is_eq, list_ord, nat_ord}
use chronostore.Errors.{Exception, invalid_argument, length_error, manifest_format_error}
use chronostore.Model.{Bytes, is_empty}
use chronostore.ByteCodec.{
  ByteWriter, ByteReader, reader_of, remaining, write_u16, write_u32, write_u64, write_bytes,
  write_string, read_u16, read_u32, read_u64, read_string,
}
use chronostore.Crc32c.{crc32c}

pub record ManifestState : Type 0 where
  pub generation : ℕ
  pub logical_sample_count : ℕ
  pub segment_files : List Bytes

-- Little-endian bytes spell "CSMF".
abbrev pub manifest_magic : ℕ
manifest_magic = 0x464D5343

abbrev pub manifest_version : ℕ
manifest_version = 1

abbrev pub manifest_flags : ℕ
manifest_flags = 0

abbrev pub manifest_header_size : ℕ
manifest_header_size = 36

abbrev pub manifest_checksum_size : ℕ
manifest_checksum_size = 4

abbrev pub max_manifest_payload_size : ℕ
max_manifest_payload_size = 16 * 1024 * 1024

abbrev pub max_manifest_segments : ℕ
max_manifest_segments = 100000

-- `filename.find(character) != npos`
unfoldable pub has_character : ℕ → Bytes → Bool
has_character character [] = false
has_character character (c ∷ name) = c == character || has_character character name

-- The part of a name from its last dot on.
unfoldable pub from_last_dot : Bytes → Option Bytes
from_last_dot [] = none
from_last_dot (c ∷ name) = elim (from_last_dot name) [
  | some suffix ↦ some suffix
  | none ↦ elim (c == 46) [ true ↦ some (c ∷ name) | false ↦ none ]
]

-- `path.extension()` of a path that is a file name: a dot in front begins no extension. The answer
-- for the name `..` is a dot here, where the library's is empty; neither is `.cst`.
unfoldable pub extension : Bytes → Bytes
unfolding from_last_dot
extension [] = []
extension (c ∷ name) = elim (from_last_dot name) [ none ↦ [] | some suffix ↦ suffix ]

-- ".cst"
abbrev pub segment_extension : Bytes
segment_extension = 46 ∷ 99 ∷ 115 ∷ 116 ∷ []

-- On a POSIX system a path without `/` is its own file name and has no parent.
unfoldable pub valid_segment_filename : Bytes → Bool
unfolding has_character extension
valid_segment_filename filename =
    not (is_empty filename || has_character 47 filename || has_character 92 filename)
    && is_eq (extension filename) segment_extension

-- `unique_names.contains(filename)`
unfoldable pub is_among : Bytes → List Bytes → Bool
is_among name [] = false
is_among name (other ∷ names) = is_eq name other || is_among name names

-- The loop over the names, with those seen before.
unfoldable pub validate_names : List Bytes → List Bytes → Outcome Exception (Unit {0})
unfolding valid_segment_filename is_among
validate_names unique_names [] = ok tt
validate_names unique_names (filename ∷ filenames) =
    throw_if (not (valid_segment_filename filename) || is_among filename unique_names)
      invalid_argument
    >> validate_names (filename ∷ unique_names) filenames

unfoldable pub validate_state : ManifestState → Outcome Exception (Unit {0})
unfolding validate_names
validate_state state =
    throw_if (ltb max_manifest_segments (length state.segment_files)) length_error
    >> validate_names [] state.segment_files

unfoldable pub write_filenames : ByteWriter → List Bytes → Outcome Exception ByteWriter
write_filenames payload [] = ok payload
write_filenames payload (filename ∷ filenames) = do
  payload ← write_string payload filename
  write_filenames payload filenames

abbrev pub inverted_size : ℕ → ℕ
inverted_size payload_size = bit_xor payload_size 0xFFFFFFFF

-- The header, the payload and the checksum.
unfoldable pub write_manifest : ManifestState → Bytes → ByteWriter
write_manifest state payload =
    let payload_size = length payload % 2 ^ 32 in
    let writer = write_u32 [] manifest_magic in
    let writer = write_u16 writer manifest_version in
    let writer = write_u16 writer manifest_flags in
    let writer = write_u64 writer state.generation in
    let writer = write_u64 writer state.logical_sample_count in
    let writer = write_u32 writer (length state.segment_files % 2 ^ 32) in
    let writer = write_u32 writer payload_size in
    let writer = write_u32 writer (inverted_size payload_size) in
    let writer = write_bytes writer payload in write_u32 writer (crc32c writer)

unfoldable pub encode_manifest : ManifestState → Outcome Exception Bytes
unfolding validate_state write_filenames
encode_manifest state = do
  validate_state state
  payload ← write_filenames [] state.segment_files
  throw_if (ltb max_manifest_payload_size (length payload)) length_error
  ok (write_manifest state payload)

-- The fields of the header, in the order in which they are read.
pub record ManifestHeader : Type 0 where
  pub magic : ℕ
  pub version : ℕ
  pub flags : ℕ
  pub generation : ℕ
  pub logical_sample_count : ℕ
  pub segment_count : ℕ
  pub payload_size : ℕ
  pub inverted : ℕ

unfoldable pub read_manifest_header : ByteReader → Option ManifestHeader
read_manifest_header reader = read_u32 reader >>=? λ (magic, reader).
    read_u16 reader >>=? λ (version, reader). read_u16 reader >>=? λ (flags, reader).
    read_u64 reader >>=? λ (generation, reader).
    read_u64 reader >>=? λ (logical_sample_count, reader).
    read_u32 reader >>=? λ (segment_count, reader). read_u32 reader >>=? λ (payload_size, reader).
    read_u32 reader >>=? λ (inverted, reader). some (record {
      magic = magic;
      version = version;
      flags = flags;
      generation = generation;
      logical_sample_count = logical_sample_count;
      segment_count = segment_count;
      payload_size = payload_size;
      inverted = inverted;
    })

unfoldable pub read_filenames : ℕ → List Bytes → ByteReader → Option (List Bytes × ByteReader)
read_filenames zero segment_files reader = some (segment_files, reader)
read_filenames (suc rounds) segment_files reader = read_string reader >>=? λ (filename, reader).
    read_filenames rounds (segment_files ++ (filename ∷ [])) reader

-- `try { validate_state(state); } catch (const std::exception& error) { ... }`
unfoldable pub revalidate : ManifestState → Outcome Exception ManifestState
unfolding validate_state
revalidate state = elim (validate_state state) [
  | ok _ ↦ ok state
  | throw _ ↦ throw manifest_format_error
]

unfoldable pub decode_manifest : Bytes → Outcome Exception ManifestState
unfolding read_manifest_header read_filenames revalidate
decode_manifest bytes = do
  throw_if (ltb (length bytes) (manifest_header_size + manifest_checksum_size))
      manifest_format_error
  header ← demand manifest_format_error (read_manifest_header (reader_of bytes))
  throw_if (header.magic != manifest_magic) manifest_format_error
  throw_if (header.version != manifest_version || header.flags != manifest_flags)
      manifest_format_error
  throw_if
      (ltb max_manifest_segments header.segment_count
        || ltb max_manifest_payload_size header.payload_size
        || header.inverted != inverted_size header.payload_size)
      manifest_format_error
  throw_if (length bytes != manifest_header_size + header.payload_size + manifest_checksum_size)
      manifest_format_error
  let protected_size = length bytes - manifest_checksum_size
  (stored_checksum, _) ←
      demand manifest_format_error (read_u32 (reader_of (drop protected_size bytes)))
  throw_if (stored_checksum != crc32c (take protected_size bytes)) manifest_format_error
  let payload = take header.payload_size (drop manifest_header_size bytes)
  (segment_files, reader) ←
      demand manifest_format_error (read_filenames header.segment_count [] (reader_of payload))
  throw_if (remaining reader != 0) manifest_format_error
  revalidate (record {
    generation = header.generation;
    logical_sample_count = header.logical_sample_count;
    segment_files = segment_files;
  })

-- `load_manifest`, on the content of the file, if there is one.
unfoldable pub load_manifest : Option Bytes → Outcome Exception ManifestState
unfolding decode_manifest
load_manifest none = ok (record { generation = 0; logical_sample_count = 0; segment_files = [] })
load_manifest (some bytes) =
    throw_if
      (ltb (max_manifest_payload_size + manifest_header_size + manifest_checksum_size)
        (length bytes))
      manifest_format_error
    >> decode_manifest bytes
