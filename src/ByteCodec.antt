-- ===== src/ByteCodec.antt =====
-- src/byte_codec.cpp: the little-endian writer and the bounded reader that every format is built
-- from, and the length-prefixed strings of src/wal_record.cpp, which src/segment_block_codec.cpp,
-- src/segment_file.cpp and src/manifest.cpp repeat.
-- A writer is its `data_`. A reader is its `position_` with the bytes of `data_` from there on.
pub mod Layout
pub mod Write
pub mod Read
pub mod Strings
use Prim.Native.Nat.{bit_and, bit_or}
use chronostore.Common.{
  ℕ, zero, suc, ◌+◌, ◌-◌, ◌*◌, ◌/◌, ◌%◌, ◌^◌, Bool, not, Option, none, some, List, [], ◌∷◌, ◌++◌,
  length, take, drop, ltb, leb, Outcome, ok, throw_if, ◌>>=◌ as ◌>>==◌, ◌>>◌ as ◌>>>◌,
}
use chronostore.Common.Optional.{◌>>=◌, ◌>>◌, none_if}
use chronostore.Errors.{Exception, length_error}
use chronostore.Model.{Bytes}

abbrev pub ByteWriter : Type 0
ByteWriter = Bytes

-- The loop of `write_unsigned`: the low byte is pushed back, and the value shifted by eight bits.
unfoldable pub write_unsigned : ByteWriter → ℕ → ℕ → ByteWriter
write_unsigned writer value zero = writer
write_unsigned writer value (suc count) =
    write_unsigned (writer ++ (bit_and value 0xff % 2 ^ 8 ∷ [])) (value / 2 ^ 8) count

unfoldable pub write_u8 : ByteWriter → ℕ → ByteWriter
write_u8 writer value = write_unsigned writer value 1

unfoldable pub write_u16 : ByteWriter → ℕ → ByteWriter
write_u16 writer value = write_unsigned writer value 2

unfoldable pub write_u32 : ByteWriter → ℕ → ByteWriter
write_u32 writer value = write_unsigned writer value 4

unfoldable pub write_u64 : ByteWriter → ℕ → ByteWriter
write_u64 writer value = write_unsigned writer value 8

unfoldable pub write_bytes : ByteWriter → Bytes → ByteWriter
write_bytes writer [] = writer
write_bytes writer (byte ∷ bytes) = write_bytes (writer ++ (byte ∷ [])) bytes

pub record ByteReader : Type 0 where
  pub position : ℕ
  pub unread : Bytes

abbrev pub reader_of : Bytes → ByteReader
reader_of bytes = record { position = 0; unread = bytes }

unfoldable pub remaining : ByteReader → ℕ
remaining reader = length reader.unread

unfoldable pub can_read : ByteReader → ℕ → Bool
unfolding remaining
can_read reader count = leb count (remaining reader)

-- `position_ += count`
unfoldable pub advance : ByteReader → ℕ → ByteReader
advance reader count = record {
  position = reader.position + count;
  unread = drop count reader.unread;
}

-- The loop of `read_unsigned`, from `index` on. The shift is at most 56, so no bit is lost. The
-- bytes do not run out, which `can_read` has tested.
unfoldable pub decode_unsigned : ℕ → ℕ → ℕ → Bytes → ℕ
decode_unsigned zero index decoded bytes = decoded
decode_unsigned (suc rounds) index decoded [] = decoded
decode_unsigned (suc rounds) index decoded (byte ∷ bytes) =
    decode_unsigned rounds (suc index) (bit_or decoded (byte * 2 ^ (index * 8))) bytes

unfoldable pub read_unsigned : ByteReader → ℕ → Option (ℕ × ByteReader)
unfolding can_read advance decode_unsigned
read_unsigned reader byte_count = do
  none_if (ltb 8 byte_count)
  none_if (not (can_read reader byte_count))
  some (decode_unsigned byte_count 0 0 reader.unread, advance reader byte_count)

unfoldable pub read_u8 : ByteReader → Option (ℕ × ByteReader)
read_u8 reader = do (decoded, reader) ← read_unsigned reader 1; some (decoded % 2 ^ 8, reader)

unfoldable pub read_u16 : ByteReader → Option (ℕ × ByteReader)
read_u16 reader = do (decoded, reader) ← read_unsigned reader 2; some (decoded % 2 ^ 16, reader)

unfoldable pub read_u32 : ByteReader → Option (ℕ × ByteReader)
read_u32 reader = do (decoded, reader) ← read_unsigned reader 4; some (decoded % 2 ^ 32, reader)

unfoldable pub read_u64 : ByteReader → Option (ℕ × ByteReader)
read_u64 reader = do (decoded, reader) ← read_unsigned reader 8; some (decoded, reader)

unfoldable pub read_bytes : ByteReader → ℕ → Option (Bytes × ByteReader)
unfolding can_read advance
read_bytes reader count = do
  none_if (not (can_read reader count))
  some (take count reader.unread, advance reader count)

-- `write_string` and `read_string`.
unfoldable pub write_characters : ByteWriter → Bytes → ByteWriter
write_characters writer [] = writer
write_characters writer (character ∷ value) = write_characters (write_u8 writer character) value

unfoldable pub write_string : ByteWriter → Bytes → Outcome Exception ByteWriter
unfolding write_characters
write_string writer value =
    throw_if (ltb (2 ^ 32 - 1) (length value)) length_error
    >>> ok (write_characters (write_u32 writer (length value % 2 ^ 32)) value)

unfoldable pub read_characters : ℕ → Bytes → ByteReader → Option (Bytes × ByteReader)
read_characters zero decoded reader = some (decoded, reader)
read_characters (suc rounds) decoded reader = do
  (byte, reader) ← read_u8 reader
  read_characters rounds (decoded ++ (byte ∷ [])) reader

unfoldable pub read_string : ByteReader → Option (Bytes × ByteReader)
unfolding read_characters remaining
read_string reader = do
  (encoded_length, reader) ← read_u32 reader
  none_if (ltb (remaining reader) encoded_length)
  read_characters encoded_length [] reader
