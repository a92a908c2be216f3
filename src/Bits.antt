-- ===== src/Bits.antt =====
-- `&`, `|`, `^` and `>>` of machine words at variables, for the masks and shifts of
-- src/byte_codec.cpp, src/crc32c.cpp and the framed formats.
use Prim.Native.Nat.{min, max, digits, bitwise, differ, bit_and, bit_or, bit_xor}
use Prim.Native.Nat.{bit_and-bitwise, bit_or-bitwise, bit_xor-bitwise}
use native.Mathlib.Nat.{pow-suc, one-le-pow}
use chronostore.Common.{ℕ, zero, suc, ◌+◌, ◌-◌, ◌*◌, ◌/◌, ◌%◌, ◌^◌, ◌≤◌, ◌<◌}
use chronostore.Common.{◌≡◌, refl, sym, ap, ◌∙◌, arith}

-- One digit of the operation that combines the digits by `join`, and has `alone y` left when the
-- first word is used up.
module _ (alone : ℕ → ℕ) (join : ℕ → ℕ → ℕ) where
  -- `digits` takes fuel; two fuels that cover the first word give the same.
  from_zero : (k y : ℕ) → digits alone join k zero y ≡ alone y
  from_zero zero y = refl
  from_zero (suc k) y = refl

  fuels_agree : (x y k j : ℕ) → x ≤ k → x ≤ j → digits alone join k x y ≡ digits alone join j x y
  fuels_agree zero y k j h h' = from_zero k y ∙ sym (from_zero j y)
  fuels_agree (suc x) y zero j h h' = absurd (omega arith)
  fuels_agree (suc x) y (suc k) zero h h' = absurd (omega arith)
  fuels_agree (suc x) y (suc k) (suc j) h h' =
      ap (λ (t : ℕ). t * 2 + join (suc x % 2) (y % 2))
        (fuels_agree (suc x / 2) (y / 2) k j (omega arith) (omega arith))

  digit_of_suc :
      (x y : ℕ)
      → bitwise alone join (suc x) y
        ≡ bitwise alone join (suc x / 2) (y / 2) * 2 + join (suc x % 2) (y % 2)
  digit_of_suc x y =
      ap (λ (t : ℕ). t * 2 + join (suc x % 2) (y % 2))
        (fuels_agree (suc x / 2) (y / 2) x (suc x / 2) (omega arith) (omega arith))

pub and_digit : (x y : ℕ) → bit_and x y ≡ bit_and (x / 2) (y / 2) * 2 + min (x % 2) (y % 2)
and_digit zero y = omega (arith, bit_and-bitwise 0 y, bit_and-bitwise 0 (y / 2))
and_digit (suc x) y = simp bit_and-bitwise (digit_of_suc (λ d. 0) min x y)

pub or_digit : (x y : ℕ) → bit_or x y ≡ bit_or (x / 2) (y / 2) * 2 + max (x % 2) (y % 2)
or_digit zero y = omega (arith, bit_or-bitwise 0 y, bit_or-bitwise 0 (y / 2))
or_digit (suc x) y = simp bit_or-bitwise (digit_of_suc (λ d. d) max x y)

pub xor_digit : (x y : ℕ) → bit_xor x y ≡ bit_xor (x / 2) (y / 2) * 2 + differ (x % 2) (y % 2)
xor_digit zero y = omega (arith, bit_xor-bitwise 0 y, bit_xor-bitwise 0 (y / 2))
xor_digit (suc x) y = simp bit_xor-bitwise (digit_of_suc (λ d. d) differ x y)

double_power : (m e : ℕ) → m * 2 ^ suc e ≡ 2 * (m * 2 ^ e)
double_power m e = let doubled = pow-suc 2 e in omega (arith, ap (λ (power : ℕ). m * power) doubled)

half_of_double : (q k : ℕ) → q * 2 ^ suc k / 2 ≡ q * 2 ^ k
half_of_double q k = omega (arith, double_power q k)

pub differ_one : (d : ℕ) → d < 2 → differ d 1 ≡ 1 - d
differ_one zero h = refl
differ_one (suc zero) h = refl
differ_one (suc (suc d)) h = absurd (omega arith)

ones_halved : (k : ℕ) → ((2 ^ suc k - 1) / 2 ≡ 2 ^ k - 1) × ((2 ^ suc k - 1) % 2 ≡ 1)
ones_halved k = omega (arith, pow-suc 2 k, one-le-pow k 2)

and_nothing : (n x : ℕ) → x ≤ n → bit_and x 0 ≡ 0
and_nothing n zero h = refl
and_nothing zero (suc x) h = absurd (omega arith)
and_nothing (suc n) (suc x) h =
    omega (arith, and_digit (suc x) 0, and_nothing n (suc x / 2) (omega arith))

-- `x & 1`, `x & 0xF` and `x & 0xFF`.
pub and_one : (x : ℕ) → bit_and x 1 ≡ x % 2
and_one x = omega (arith, and_digit x 1, and_nothing (x / 2) (x / 2) (omega arith))

mask_nibble : (x : ℕ) → bit_and x 15 ≡ x % 16
mask_nibble x =
    omega
      (arith, and_digit x 15, and_digit (x / 2) 7, and_digit (x / 2 / 2) 3, and_one (x / 2 / 2 / 2))

pub mask_byte : (x : ℕ) → bit_and x 255 ≡ x % 256
mask_byte x = omega (
  arith,
  and_digit x 255,
  and_digit (x / 2) 127,
  and_digit (x / 2 / 2) 63,
  and_digit (x / 2 / 2 / 2) 31,
  mask_nibble (x / 2 / 2 / 2 / 2),
)

-- `low | (q << k)` of disjoint fields is a sum.
pub or_field : (k low q : ℕ) → low < 2 ^ k → bit_or low (q * 2 ^ k) ≡ low + q * 2 ^ k
or_field zero zero q h = omega (arith, bit_or-bitwise 0 (q * 1))
or_field zero (suc low) q h = absurd (omega arith)
or_field (suc k) low q h = omega (
  arith,
  or_digit low (q * 2 ^ suc k),
  double_power q k,
  ap (λ (t : ℕ). bit_or (low / 2) t) (half_of_double q k),
  pow-suc 2 k,
  or_field k (low / 2) q (omega (arith, pow-suc 2 k)),
)

-- `x ^ (2 ^ k - 1)`
pub xor_ones : (k x : ℕ) → x < 2 ^ k → bit_xor x (2 ^ k - 1) ≡ 2 ^ k - 1 - x
xor_ones zero zero h = refl
xor_ones zero (suc x) h = absurd (omega arith)
xor_ones (suc k) x h =
    let p = ones_halved k in
    rw xor_digit (
      rw
        (
          p.0,
          p.1,
          xor_ones k (x / 2) (omega (arith, pow-suc 2 k)),
          differ_one (x % 2) (omega arith),
        )
        (omega (arith, pow-suc 2 k)))

differ_lt : (c d : ℕ) → c < 2 → d < 2 → differ c d < 2
differ_lt zero d h k = k
differ_lt (suc zero) zero h k = omega arith
differ_lt (suc zero) (suc zero) h k = omega arith
differ_lt (suc zero) (suc (suc d)) h k = absurd (omega arith)
differ_lt (suc (suc c)) d h k = absurd (omega arith)

-- `^` of two words of `k` bits has `k` bits.
pub xor_lt : (k x y : ℕ) → x < 2 ^ k → y < 2 ^ k → bit_xor x y < 2 ^ k
xor_lt zero zero zero h h' = omega arith
xor_lt zero zero (suc y) h h' = absurd (omega arith)
xor_lt zero (suc x) y h h' = absurd (omega arith)
xor_lt (suc k) x y h h' = omega (
  arith,
  xor_digit x y,
  pow-suc 2 k,
  differ_lt (x % 2) (y % 2) (omega arith) (omega arith),
  xor_lt k (x / 2) (y / 2) (omega (arith, pow-suc 2 k)) (omega (arith, pow-suc 2 k)),
)

differ_cancel : (c d e : ℕ) → c < 2 → d < 2 → e < 2 → differ c e ≡ differ d e → c ≡ d
differ_cancel zero zero e h k l p = refl
differ_cancel zero (suc zero) zero h k l p = p
differ_cancel zero (suc zero) (suc zero) h k l p = sym p
differ_cancel (suc zero) zero zero h k l p = p
differ_cancel (suc zero) zero (suc zero) h k l p = sym p
differ_cancel (suc zero) (suc zero) e h k l p = refl
differ_cancel (suc (suc c)) d e h k l p = absurd (omega arith)
differ_cancel c (suc (suc d)) e h k l p = absurd (omega arith)
differ_cancel c d (suc (suc e)) h k l p = absurd (omega arith)

-- `^` by the same word tells different words apart.
pub xor_cancel :
    (k x y z : ℕ) → x < 2 ^ k → y < 2 ^ k → z < 2 ^ k → bit_xor x z ≡ bit_xor y z → x ≡ y
xor_cancel zero zero zero z h h' l p = refl
xor_cancel zero zero (suc y) z h h' l p = absurd (omega arith)
xor_cancel zero (suc x) y z h h' l p = absurd (omega arith)
xor_cancel (suc k) x y z h h' l p =
    let dx = differ_lt (x % 2) (z % 2) (omega arith) (omega arith) in
    let dy = differ_lt (y % 2) (z % 2) (omega arith) (omega arith) in
    let low : differ (x % 2) (z % 2) ≡ differ (y % 2) (z % 2) =
      omega (arith, xor_digit x z, xor_digit y z) in
    let high : bit_xor (x / 2) (z / 2) ≡ bit_xor (y / 2) (z / 2) =
      omega (arith, xor_digit x z, xor_digit y z) in
    let lows =
      differ_cancel (x % 2) (y % 2) (z % 2) (omega arith) (omega arith) (omega arith) low in
    let n = pow-suc 2 k in
    omega (
      arith,
      lows,
      xor_cancel k (x / 2) (y / 2) (z / 2) (omega (arith, n)) (omega (arith, n)) (omega (arith, n))
          high,
    )

-- The top bit of `z` comes through where `x` has fewer bits.
pub xor_top : (k x z : ℕ) → x < 2 ^ k → 2 ^ k ≤ z → 2 ^ k ≤ bit_xor x z
xor_top zero zero z h l = omega (arith, bit_xor-bitwise 0 z)
xor_top zero (suc x) z h l = absurd (omega arith)
xor_top (suc k) x z h l =
    let n = pow-suc 2 k in
    omega (arith, n, xor_digit x z, xor_top k (x / 2) (z / 2) (omega (arith, n)) (omega (arith, n)))

differ_comm : (c d : ℕ) → c < 2 → d < 2 → differ c d ≡ differ d c
differ_comm zero zero h k = refl
differ_comm zero (suc d) h k = refl
differ_comm (suc c) zero h k = refl
differ_comm (suc zero) (suc zero) h k = refl
differ_comm (suc (suc c)) d h k = absurd (omega arith)
differ_comm c (suc (suc d)) h k = absurd (omega arith)

pub xor_comm : (k x y : ℕ) → x < 2 ^ k → y < 2 ^ k → bit_xor x y ≡ bit_xor y x
xor_comm zero zero zero h l = refl
xor_comm zero zero (suc y) h l = absurd (omega arith)
xor_comm zero (suc x) y h l = absurd (omega arith)
xor_comm (suc k) x y h l =
    let n = pow-suc 2 k in
    let halves = xor_comm k (x / 2) (y / 2) (omega (arith, n)) (omega (arith, n)) in
    let lows = differ_comm (x % 2) (y % 2) (omega arith) (omega arith) in
    omega (arith, xor_digit x y, xor_digit y x, halves, lows)
