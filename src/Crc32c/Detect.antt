-- ===== src/Crc32c/Detect.antt =====
-- Lemmas on the checksum of src/crc32c.cpp: its range, and the effect of one byte on it.
use Prim.Native.Nat.{bit_xor}
use chronostore.Common.{ℕ, zero, suc, ◌/◌, ◌^◌, ◌<◌, ◌≡◌, ◌≢◌, refl, ap, arith, [], ◌∷◌, ◌++◌, All}
use chronostore.Bits.{and_one, xor_lt, xor_cancel, xor_comm, xor_top}
use chronostore.Model.{Bytes, IsByte}
use chronostore.Crc32c.{
  initial_value, final_xor_value, reflected_polynomial, shift_bit, shift_bits, add_byte, add_bytes,
  crc32c,
}

abbrev IsWord : ℕ → Type 0
IsWord c = c < 2 ^ 32

shift_bit-IsWord : (c : ℕ) → IsWord c → IsWord (shift_bit c)
unfolding shift_bit
shift_bit-IsWord c h = ground (arith, xor_lt 32 (c / 2) reflected_polynomial)

shift_bits-IsWord : (rounds c : ℕ) → IsWord c → IsWord (shift_bits rounds c)
unfolding shift_bits
shift_bits-IsWord zero c h = h
shift_bits-IsWord (suc rounds) c h = shift_bits-IsWord rounds (shift_bit c) (shift_bit-IsWord c h)

add_byte-IsWord : (c byte : ℕ) → IsWord c → IsByte byte → IsWord (add_byte c byte)
unfolding add_byte
add_byte-IsWord c byte h b = shift_bits-IsWord 8 (bit_xor c byte) (xor_lt 32 c byte h (omega arith))

add_bytes-IsWord :
    (bytes : Bytes) (c : ℕ) → IsWord c → All IsByte bytes → IsWord (add_bytes c bytes)
unfolding add_bytes
add_bytes-IsWord [] c h b = h
add_bytes-IsWord (byte ∷ bytes) c h b =
    add_bytes-IsWord bytes (add_byte c byte) (add_byte-IsWord c byte h b.0) b.1

-- The checksum is a 32-bit word.
pub crc32c-lt : (bytes : Bytes) → All IsByte bytes → crc32c bytes < 2 ^ 32
unfolding crc32c
crc32c-lt bytes b =
    xor_lt 32 (add_bytes initial_value bytes) final_xor_value
      (add_bytes-IsWord bytes initial_value (omega arith) b) (omega arith)

shift_bit-injective : (c d : ℕ) → IsWord c → IsWord d → shift_bit c ≡ shift_bit d → c ≡ d
unfolding shift_bit
shift_bit-injective c d h k p = ground (
  arith,
  and_one c,
  and_one d,
  xor_top 31 (c / 2) reflected_polynomial,
  xor_top 31 (d / 2) reflected_polynomial,
  xor_cancel 32 (c / 2) (d / 2) reflected_polynomial,
)

shift_bits-injective :
    (rounds c d : ℕ) → IsWord c → IsWord d → shift_bits rounds c ≡ shift_bits rounds d → c ≡ d
unfolding shift_bits
shift_bits-injective zero c d h k p = p
shift_bits-injective (suc rounds) c d h k p = shift_bit-injective c d h k (
    shift_bits-injective rounds (shift_bit c) (shift_bit d) (shift_bit-IsWord c h)
      (shift_bit-IsWord d k) p)

-- From different states the same byte leads to different states, and so do different bytes from the
-- same state.
add_byte-injective_state :
    (c d byte : ℕ) → IsWord c → IsWord d → IsByte byte → add_byte c byte ≡ add_byte d byte → c ≡ d
unfolding add_byte
add_byte-injective_state c d byte h k b p =
    let fits : byte < 2 ^ 32 = omega arith in
    xor_cancel 32 c d byte h k fits
      (shift_bits-injective 8 _ _ (xor_lt 32 c byte h fits) (xor_lt 32 d byte k fits) p)

add_byte-injective_byte :
    (c a b : ℕ) → IsWord c → IsByte a → IsByte b → add_byte c a ≡ add_byte c b → a ≡ b
unfolding add_byte
add_byte-injective_byte c a b h ha hb p =
    let fits_a : a < 2 ^ 32 = omega arith in
    let fits_b : b < 2 ^ 32 = omega arith in
    xor_cancel 32 a b c fits_a fits_b h (
      rw (xor_comm 32 a c fits_a h, xor_comm 32 b c fits_b h)
        (shift_bits-injective 8 _ _ (xor_lt 32 c a h fits_a) (xor_lt 32 c b h fits_b) p))

add_bytes-injective :
    (bytes : Bytes) (c d : ℕ)
    → IsWord c
    → IsWord d
    → All IsByte bytes
    → add_bytes c bytes ≡ add_bytes d bytes
    → c ≡ d
unfolding add_bytes
add_bytes-injective [] c d h k b p = p
add_bytes-injective (byte ∷ bytes) c d h k b p = add_byte-injective_state c d byte h k b.0 (
    add_bytes-injective bytes (add_byte c byte) (add_byte d byte) (add_byte-IsWord c byte h b.0)
      (add_byte-IsWord d byte k b.0) b.1 p)

add_bytes-append : (xs ys : Bytes) (c : ℕ) → add_bytes c (xs ++ ys) ≡ add_bytes (add_bytes c xs) ys
unfolding add_bytes
add_bytes-append [] ys c = refl
add_bytes-append (x ∷ xs) ys c = add_bytes-append xs ys (add_byte c x)

crc32c-middle :
    (front : Bytes) (byte : ℕ) (back : Bytes)
    → crc32c (front ++ (byte ∷ back))
      ≡ bit_xor (add_bytes (add_byte (add_bytes initial_value front) byte) back) final_xor_value
crc32c-middle front byte back =
    unfold crc32c in
    ap (λ (c : ℕ). bit_xor c final_xor_value) (add_bytes-append front (byte ∷ back) initial_value)

-- Two messages that differ in one byte, wherever it stands, have different checksums.
pub crc32c_detects_byte :
    (front back : Bytes) (a b : ℕ)
    → All IsByte front
    → All IsByte back
    → IsByte a
    → IsByte b
    → a ≢ b
    → crc32c (front ++ (a ∷ back)) ≢ crc32c (front ++ (b ∷ back))
crc32c_detects_byte front back a b hf hb ha hb' differ p =
    let word = add_bytes-IsWord front initial_value (omega arith) hf in
    let after_a = add_byte-IsWord _ a word ha in
    let after_b = add_byte-IsWord _ b word hb' in
    let same_end =
      xor_cancel 32 _ _ final_xor_value (add_bytes-IsWord back _ after_a hb)
        (add_bytes-IsWord back _ after_b hb) (omega arith)
        (rw (crc32c-middle front a back, crc32c-middle front b back) at p) in
    differ (
      add_byte-injective_byte _ a b word ha hb'
        (add_bytes-injective back _ _ after_a after_b hb same_end))
