-- ===== src/ByteCodec/Read.antt =====
-- The integer reads of src/byte_codec.cpp against the layouts.
use native.Mathlib.Nat.{mod-eq_of_lt, div-add-mod, pow-suc}
use native.Mathlib.Numerals.{towards_suc}
use chronostore.Common.{
  ℕ, zero, suc, ◌+◌, ◌*◌, ◌/◌, ◌%◌, ◌^◌, ◌<◌, ◌≤◌, ◌≡◌, refl, ap, ◌∙◌, arith, [], ◌∷◌, ◌++◌, length,
  drop, length-append, some, none, leb, leb-true, drop-append_of, ltb-false, ◌⊎◌, inl, inr,
  Bool-cases, length-drop, leb→le, leb→lt,
}
use chronostore.Bits.{or_field}
use chronostore.Model.{Bytes}
use chronostore.ByteCodec.{
  ByteReader, decode_unsigned, read_unsigned, remaining, advance, read_u8, read_u16, read_u32,
  read_u64,
}
use chronostore.ByteCodec.Layout.{le_bytes, length-le_bytes, u8, u16, u32, u64}

abbrev pub reader_at : ℕ → Bytes → ByteReader
reader_at position unread = record { position = position; unread = unread }

shift_byte : (s : ℕ) → 2 ^ (s + 8) ≡ 256 * 2 ^ s
shift_byte s = simp towards_suc (omega arith)

next_shift : (index : ℕ) → 2 ^ (suc index * 8) ≡ 256 * 2 ^ (index * 8)
next_shift index =
    let e : suc index * 8 ≡ index * 8 + 8 = omega arith in
    ap (λ (s : ℕ). 2 ^ s) e ∙ shift_byte (index * 8)

low_byte_fits : (low p value : ℕ) → low < p → low + value % 256 * p < 256 * p
low_byte_fits low p value h = let b : value % 256 * p ≤ 255 * p = grind arith in omega (arith, b)

byte_split : (low p value : ℕ) → low + value % 256 * p + value / 256 * (256 * p) ≡ low + value * p
byte_split low p value = omega (arith, ap (λ (t : ℕ). t * p) (div-add-mod value 256))

high_bytes : (rounds value : ℕ) → value < 256 ^ suc rounds → value / 256 < 256 ^ rounds
high_bytes rounds value h = omega (arith, pow-suc 256 rounds)

decode_unsigned-le_bytes :
    (rounds index decoded value : ℕ) (rest : Bytes)
    → decoded < 2 ^ (index * 8)
    → value < 256 ^ rounds
    → decode_unsigned rounds index decoded (le_bytes rounds value ++ rest)
      ≡ decoded + value * 2 ^ (index * 8)
unfolding decode_unsigned
decode_unsigned-le_bytes zero index decoded zero rest h v = omega arith
decode_unsigned-le_bytes zero index decoded (suc value) rest h v = absurd (omega arith)
decode_unsigned-le_bytes (suc rounds) index decoded value rest h v =
    rw (or_field (index * 8) decoded (value % 256) h) (
      decode_unsigned-le_bytes rounds (suc index) (decoded + value % 256 * 2 ^ (index * 8))
        (value / 256) rest (rw next_shift (low_byte_fits decoded (2 ^ (index * 8)) value h))
        (high_bytes rounds value v)
      ∙ rw next_shift (byte_split decoded (2 ^ (index * 8)) value))

-- Reading back `count` bytes, at most eight, gives the value that they lay out, moves the position
-- past them, and leaves what follows.
pub read_unsigned-le_bytes :
    (count value position : ℕ) (rest : Bytes)
    → count ≤ 8
    → value < 256 ^ count
    → read_unsigned (reader_at position (le_bytes count value ++ rest)) count
      ≡ some (value, reader_at (position + count) rest)
unfolding read_unsigned
read_unsigned-le_bytes count value position rest c v =
    rw
      (
        ltb-false 8 count c,
        leb-true count (length (le_bytes count value ++ rest))
            (omega (arith, length-append (le_bytes count value) rest, length-le_bytes count value)),
        decode_unsigned-le_bytes count 0 0 value rest (omega arith) v,
        drop-append_of count (le_bytes count value) rest (length-le_bytes count value),
      )
      (ap (λ (n : ℕ). some (n, reader_at (position + count) rest)) (omega arith))

module _ (value position : ℕ) (rest : Bytes) where
  pub read_u8-u8 :
      value < 2 ^ 8
      → read_u8 (reader_at position (u8 value ++ rest))
        ≡ some (value, reader_at (position + 1) rest)
  unfolding read_u8 u8
  read_u8-u8 h = rw (read_unsigned-le_bytes 1 value position rest (omega arith) h, mod-eq_of_lt h)

  pub read_u16-u16 :
      value < 2 ^ 16
      → read_u16 (reader_at position (u16 value ++ rest))
        ≡ some (value, reader_at (position + 2) rest)
  unfolding read_u16 u16
  read_u16-u16 h = rw (read_unsigned-le_bytes 2 value position rest (omega arith) h, mod-eq_of_lt h)

  pub read_u32-u32 :
      value < 2 ^ 32
      → read_u32 (reader_at position (u32 value ++ rest))
        ≡ some (value, reader_at (position + 4) rest)
  unfolding read_u32 u32
  read_u32-u32 h = rw (read_unsigned-le_bytes 4 value position rest (omega arith) h, mod-eq_of_lt h)

  pub read_u64-u64 :
      value < 2 ^ 64
      → read_u64 (reader_at position (u64 value ++ rest))
        ≡ some (value, reader_at (position + 8) rest)
  unfolding read_u64 u64
  read_u64-u64 h = rw (read_unsigned-le_bytes 8 value position rest (omega arith) h)

-- A read of at most eight bytes fails exactly when fewer bytes are left, and a read that succeeds
-- moves the position by as many bytes as it takes from the rest.
pub read_unsigned_bounds :
    (reader : ByteReader) (count : ℕ)
    → count ≤ 8
    → (read_unsigned reader count ≡ none) × (remaining reader < count)
      ⊎ (v : ℕ) × (r : ByteReader) × (read_unsigned reader count ≡ some (v, r))
        × (r.position ≡ reader.position + count)
        × (remaining r + count ≡ remaining reader)
unfolding read_unsigned
read_unsigned_bounds reader count c = elim (Bool-cases (leb count (length reader.unread))) [
  | inl enough ↦ inr (
    decode_unsigned count 0 0 reader.unread,
    advance reader count,
    rw (ltb-false 8 count c, enough),
    refl,
    omega (arith, length-drop count reader.unread, leb→le count (length reader.unread) enough),
  )
  | inr short ↦ inl (rw (ltb-false 8 count c, short), leb→lt count (length reader.unread) short)
]

-- A read where enough bytes are left.
module _ (position : ℕ) (unread : Bytes) where
  pub read_u8_at :
      1 ≤ length unread
      → read_u8 (reader_at position unread)
        ≡ some (decode_unsigned 1 0 0 unread % 2 ^ 8, reader_at (position + 1) (drop 1 unread))
  unfolding read_u8 read_unsigned
  read_u8_at h = rw (leb-true 1 (length unread) h) refl

  pub read_u32_at :
      4 ≤ length unread
      → read_u32 (reader_at position unread)
        ≡ some (decode_unsigned 4 0 0 unread % 2 ^ 32, reader_at (position + 4) (drop 4 unread))
  unfolding read_u32 read_unsigned
  read_u32_at h = rw (leb-true 4 (length unread) h) refl

pub decode_unsigned-append :
    (rounds index decoded : ℕ) (bytes more : Bytes)
    → rounds ≤ length bytes
    → decode_unsigned rounds index decoded (bytes ++ more)
      ≡ decode_unsigned rounds index decoded bytes
unfolding decode_unsigned
decode_unsigned-append zero index decoded bytes more h = refl
decode_unsigned-append (suc rounds) index decoded [] more h = absurd (omega arith)
decode_unsigned-append (suc rounds) index decoded (byte ∷ bytes) more h =
    decode_unsigned-append rounds (suc index) _ bytes more (omega arith)
