-- ===== src/Crc32c.antt =====
-- src/crc32c.cpp: the Castagnoli checksum, bit by bit.
pub mod Detect
use Prim.Native.Nat.{bit_and, bit_xor}
use chronostore.Common.{ℕ, zero, suc, ◌/◌, ◌^◌, List, [], ◌∷◌, ◌!=◌, if◌then◌else◌}
use chronostore.Model.{Bytes}

abbrev pub initial_value : ℕ
initial_value = 0xFFFFFFFF

abbrev pub final_xor_value : ℕ
final_xor_value = 0xFFFFFFFF

abbrev pub reflected_polynomial : ℕ
reflected_polynomial = 0x82F63B78

-- One round of the inner loop.
unfoldable pub shift_bit : ℕ → ℕ
shift_bit checksum =
    let shifted = checksum / 2 in
    if bit_and checksum 1 != 0 then bit_xor shifted reflected_polynomial else shifted

unfoldable pub shift_bits : ℕ → ℕ → ℕ
unfolding shift_bit
shift_bits zero checksum = checksum
shift_bits (suc rounds) checksum = shift_bits rounds (shift_bit checksum)

-- One round of the outer loop.
unfoldable pub add_byte : ℕ → ℕ → ℕ
unfolding shift_bits
add_byte checksum byte = shift_bits 8 (bit_xor checksum byte)

unfoldable pub add_bytes : ℕ → Bytes → ℕ
unfolding add_byte
add_bytes checksum [] = checksum
add_bytes checksum (byte ∷ bytes) = add_bytes (add_byte checksum byte) bytes

unfoldable pub crc32c : Bytes → ℕ
unfolding add_bytes
crc32c bytes = bit_xor (add_bytes initial_value bytes) final_xor_value
