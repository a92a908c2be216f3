-- ===== src/ByteCodec/Layout.antt =====
-- The documented encoding of docs/file-formats.md, "Common Encoding Rules", written down without
-- reference to the writer: little-endian integers, and strings behind their length.
use chronostore.Common.{
  ℕ, zero, suc, ◌+◌, ◌/◌, ◌%◌, ◌≡◌, refl, arith, [], ◌∷◌, ◌++◌, All, All-append, length,
  length-append,
}
use chronostore.Model.{Bytes, IsByte}

-- The `count` lowest bytes of a value, the lowest first.
abbrev pub le_bytes : ℕ → ℕ → Bytes
le_bytes zero value = []
le_bytes (suc count) value = (value % 256) ∷ le_bytes count (value / 256)

pub length-le_bytes : (count value : ℕ) → length (le_bytes count value) ≡ count
length-le_bytes zero value = refl
length-le_bytes (suc count) value = omega (arith, length-le_bytes count (value / 256))

pub le_bytes-IsByte : (count value : ℕ) → All IsByte (le_bytes count value)
le_bytes-IsByte zero value = tt
le_bytes-IsByte (suc count) value = (omega arith, le_bytes-IsByte count (value / 256))

unfoldable pub u8 : ℕ → Bytes
u8 value = le_bytes 1 value

unfoldable pub u16 : ℕ → Bytes
u16 value = le_bytes 2 value

unfoldable pub u32 : ℕ → Bytes
u32 value = le_bytes 4 value

unfoldable pub u64 : ℕ → Bytes
u64 value = le_bytes 8 value

unfoldable pub string_bytes : Bytes → Bytes
string_bytes value = u32 (length value) ++ value

pub length-u8 : (value : ℕ) → length (u8 value) ≡ 1
unfolding u8
length-u8 value = refl

pub length-u16 : (value : ℕ) → length (u16 value) ≡ 2
unfolding u16
length-u16 value = refl

pub length-u32 : (value : ℕ) → length (u32 value) ≡ 4
unfolding u32
length-u32 value = refl

pub length-u64 : (value : ℕ) → length (u64 value) ≡ 8
unfolding u64
length-u64 value = refl

pub length-string_bytes : (value : Bytes) → length (string_bytes value) ≡ 4 + length value
unfolding string_bytes
length-string_bytes value =
    omega (arith, length-append (u32 (length value)) value, length-u32 (length value))

pub u8-IsByte : (value : ℕ) → All IsByte (u8 value)
unfolding u8
u8-IsByte value = le_bytes-IsByte 1 value

pub u16-IsByte : (value : ℕ) → All IsByte (u16 value)
unfolding u16
u16-IsByte value = le_bytes-IsByte 2 value

pub u32-IsByte : (value : ℕ) → All IsByte (u32 value)
unfolding u32
u32-IsByte value = le_bytes-IsByte 4 value

pub u64-IsByte : (value : ℕ) → All IsByte (u64 value)
unfolding u64
u64-IsByte value = le_bytes-IsByte 8 value

-- Layouts of bytes put side by side are bytes.
pub ++-IsByte : (xs ys : Bytes) → All IsByte xs → All IsByte ys → All IsByte (xs ++ ys)
++-IsByte xs ys h k = All-append IsByte xs ys h k

pub string_bytes-IsByte : (value : Bytes) → All IsByte value → All IsByte (string_bytes value)
unfolding string_bytes
string_bytes-IsByte value h = ++-IsByte (u32 (length value)) value (u32-IsByte (length value)) h

pub ruleset byte_rules =
    (u8-IsByte, u16-IsByte, u32-IsByte, u64-IsByte, ++-IsByte, string_bytes-IsByte)
