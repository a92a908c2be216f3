-- ===== src/ByteCodec/Strings.antt =====
-- The length-prefixed strings of src/wal_record.cpp and their layout.
use chronostore.Common.{
  ℕ, ◌+◌, ◌-◌, ◌^◌, ◌<◌, ◌≤◌, ◌≡◌, ap, arith, [], ◌∷◌, ◌++◌, append-nil, append_assoc, length,
  length-append, All, some, ltb-false, ltb-true, throw,
}
use native.Mathlib.Nat.{add-zero}
use chronostore.Errors.{length_error}
use chronostore.Model.{Bytes, IsByte}
use chronostore.ByteCodec.{ByteWriter, read_u8, read_characters, read_string, write_string}
use chronostore.ByteCodec.Layout.{u32, string_bytes}
use chronostore.ByteCodec.Read.{reader_at, read_u8-u8, read_u32-u32}
use chronostore.ByteCodec.Write.{u8-byte}

read_byte :
    (byte position : ℕ) (rest : Bytes)
    → IsByte byte
    → read_u8 (reader_at position (byte ∷ rest)) ≡ some (byte, reader_at (position + 1) rest)
read_byte byte position rest h = rw (u8-byte byte h) at (read_u8-u8 byte position rest h)

read_characters_lem :
    (value decoded : Bytes) (position : ℕ) (rest : Bytes)
    → All IsByte value
    → read_characters (length value) decoded (reader_at position (value ++ rest))
      ≡ some (decoded ++ value, reader_at (position + length value) rest)
unfolding read_characters
read_characters_lem [] decoded position rest h = rw (append-nil decoded, add-zero position)
read_characters_lem (c ∷ value) decoded position rest h =
    rw (read_byte c position (value ++ rest) h.0) (
      rw (read_characters_lem value (decoded ++ (c ∷ [])) (position + 1) rest h.1) (
        rw append_assoc
          (ap (λ (n : ℕ). some (decoded ++ (c ∷ value), reader_at n rest)) (omega arith))))

-- A string whose bytes fit a 32-bit length is read back, whatever follows it.
pub read_string-string_bytes :
    (value : Bytes) (position : ℕ) (rest : Bytes)
    → All IsByte value
    → length value < 2 ^ 32
    → read_string (reader_at position (string_bytes value ++ rest))
      ≡ some (value, reader_at (position + 4 + length value) rest)
unfolding read_string string_bytes
read_string-string_bytes value position rest h fits =
    rw
      (
        append_assoc (u32 (length value)) value rest,
        read_u32-u32 (length value) position (value ++ rest) fits,
      )
      (rw
        (ltb-false (length (value ++ rest)) (length value)
          (omega (arith, length-append value rest)))
        (read_characters_lem value [] (position + 4) rest h))

-- `write_string` refuses a string of 2 ^ 32 bytes or more, and accepts every other.
pub write_string_too_long :
    (writer : ByteWriter) (value : Bytes)
    → 2 ^ 32 ≤ length value
    → write_string writer value ≡ throw length_error
unfolding write_string
write_string_too_long writer value long = rw (ltb-true (2 ^ 32 - 1) (length value) (omega arith))
