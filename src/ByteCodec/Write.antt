-- ===== src/ByteCodec/Write.antt =====
-- The integer writes of src/byte_codec.cpp and the layouts.
use Prim.Native.Nat.{bit_and}
use chronostore.Common.{
  ℕ, zero, suc, ◌+◌, ◌-◌, ◌*◌, ◌/◌, ◌%◌, ◌^◌, ◌<◌, ◌≤◌, ◌≡◌, refl, sym, ap, ◌∙◌, arith, List, [],
  ◌∷◌, ◌++◌, append-nil, append_assoc, length, All, ok, ltb, leb, ltb-false,
}
use native.Mathlib.Nat.{mod-eq_of_lt}
use chronostore.Bits.{mask_byte}
use chronostore.Model.{Bytes, IsByte}
use chronostore.ByteCodec.{
  ByteWriter, write_unsigned, write_u8, write_u16, write_u32, write_u64, write_bytes,
  write_characters, write_string,
}
use chronostore.ByteCodec.Layout.{le_bytes, u8, u16, u32, u64, string_bytes}

pushed_byte : (value : ℕ) → bit_and value 0xff % 2 ^ 8 ≡ value % 256
pushed_byte value = omega (arith, mask_byte value)

-- `write_unsigned` appends the little-endian bytes of the value, and keeps what was written.
pub write_unsigned-le_bytes :
    (count value : ℕ) (writer : ByteWriter)
    → write_unsigned writer value count ≡ writer ++ le_bytes count value
unfolding write_unsigned
write_unsigned-le_bytes zero value writer = sym (append-nil writer)
write_unsigned-le_bytes (suc count) value writer =
    write_unsigned-le_bytes count (value / 256) (writer ++ (bit_and value 0xff % 2 ^ 8 ∷ []))
    ∙ append_assoc writer _ _
    ∙ ap (λ (byte : ℕ). writer ++ (byte ∷ le_bytes count (value / 256))) (pushed_byte value)

pub write_u8-u8 : (writer : ByteWriter) (value : ℕ) → write_u8 writer value ≡ writer ++ u8 value
unfolding write_u8 u8
write_u8-u8 writer value = write_unsigned-le_bytes 1 value writer

pub write_u16-u16 : (writer : ByteWriter) (value : ℕ) → write_u16 writer value ≡ writer ++ u16 value
unfolding write_u16 u16
write_u16-u16 writer value = write_unsigned-le_bytes 2 value writer

pub write_u32-u32 : (writer : ByteWriter) (value : ℕ) → write_u32 writer value ≡ writer ++ u32 value
unfolding write_u32 u32
write_u32-u32 writer value = write_unsigned-le_bytes 4 value writer

pub write_u64-u64 : (writer : ByteWriter) (value : ℕ) → write_u64 writer value ≡ writer ++ u64 value
unfolding write_u64 u64
write_u64-u64 writer value = write_unsigned-le_bytes 8 value writer

pub write_bytes_lem :
    (writer : ByteWriter) (bytes : Bytes) → write_bytes writer bytes ≡ writer ++ bytes
unfolding write_bytes
write_bytes_lem writer [] = sym (append-nil writer)
write_bytes_lem writer (byte ∷ bytes) =
    write_bytes_lem (writer ++ (byte ∷ [])) bytes ∙ append_assoc writer (byte ∷ []) bytes

pub u8-byte : (byte : ℕ) → IsByte byte → u8 byte ≡ byte ∷ []
unfolding u8
u8-byte byte h = ap (λ (b : ℕ). b ∷ []) (omega arith)

write_characters_lem :
    (writer : ByteWriter) (value : Bytes)
    → All IsByte value
    → write_characters writer value ≡ writer ++ value
unfolding write_characters
write_characters_lem writer [] h = sym (append-nil writer)
write_characters_lem writer (c ∷ value) h =
    write_characters_lem (write_u8 writer c) value h.1
    ∙ rw (write_u8-u8, u8-byte c h.0) (append_assoc writer (c ∷ []) value)

-- A string that is accepted is appended behind its length.
pub write_string-string_bytes :
    (writer : ByteWriter) (value : Bytes)
    → All IsByte value
    → length value < 2 ^ 32
    → write_string writer value ≡ ok (writer ++ string_bytes value)
unfolding write_string string_bytes
write_string-string_bytes writer value h fits =
    rw (ltb-false (2 ^ 32 - 1) (length value) (omega arith)) (
      ap ok (
        write_characters_lem _ value h
        ∙ rw (write_u32-u32, mod-eq_of_lt fits) (append_assoc writer (u32 (length value)) value)))

-- A string that is accepted has a 32-bit length.
pub write_string-eq-ok :
    (writer writer' : ByteWriter) (value : Bytes)
    → write_string writer value ≡ ok writer'
    → length value < 2 ^ 32
unfolding write_string
write_string-eq-ok writer writer' value h = ground arith

-- The writer as concatenation, bracketed to the right.
pub ruleset write_laws =
    (write_u8-u8, write_u16-u16, write_u32-u32, write_u64-u64, write_bytes_lem, append_assoc)
