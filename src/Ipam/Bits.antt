-- ===== src/Ipam/Bits.antt =====
-- Single bits of a number, and what the operations on words do to them.
use Prim.Native.Nat.{bit_and, bit_or}
use native.Mathlib.Nat.{pow-suc, one-le-pow}
use timecraft.Common.{
  Bool, arith, false, not, refl, suc, zero, ℕ, ◌%◌, ◌&&◌, ◌-◌, ◌/◌, ◌<◌, ◌==◌, ◌^◌, ◌||◌, ◌≡◌, ◌≤◌,
}
use timecraft.Ipam.Digits.{bit_and-digit, bit_or-digit}

unfoldable pub test_bit : ℕ → ℕ → Bool
test_bit n zero = n % 2 == 1
test_bit n (suc k) = test_bit (n / 2) k

-- The bits of a word but its own: ^v.
abbrev pub complement : ℕ → ℕ → ℕ
complement width v = 2 ^ width - 1 - v

pub test_bit-bit_and : (k a b : ℕ) → test_bit (bit_and a b) k ≡ (test_bit a k && test_bit b k)
unfolding test_bit
test_bit-bit_and zero a b = ground (arith, bit_and-digit a b)
test_bit-bit_and (suc k) a b =
    let half : bit_and a b / 2 ≡ bit_and (a / 2) (b / 2) = omega (arith, bit_and-digit a b) in
    rw half (test_bit-bit_and k (a / 2) (b / 2))

pub test_bit-bit_or : (k a b : ℕ) → test_bit (bit_or a b) k ≡ (test_bit a k || test_bit b k)
unfolding test_bit
test_bit-bit_or zero a b = ground (arith, bit_or-digit a b)
test_bit-bit_or (suc k) a b =
    let half : bit_or a b / 2 ≡ bit_or (a / 2) (b / 2) = omega (arith, bit_or-digit a b) in
    rw half (test_bit-bit_or k (a / 2) (b / 2))

pub test_bit-zero : (k : ℕ) → test_bit 0 k ≡ false
unfolding test_bit
test_bit-zero zero = refl
test_bit-zero (suc k) = test_bit-zero k

half_pow : (k : ℕ) → 2 ^ suc k / 2 ≡ 2 ^ k
half_pow k = omega (arith, pow-suc 2 k)

pub test_bit-pow : (k j : ℕ) → test_bit (2 ^ k) j ≡ (k == j)
unfolding test_bit
test_bit-pow zero zero = refl
test_bit-pow zero (suc j) = ground (arith, test_bit-zero j)
test_bit-pow (suc k) zero = ground (arith, pow-suc 2 k)
test_bit-pow (suc k) (suc j) = rw (half_pow k) (ground (arith, test_bit-pow k j))

pub test_bit-complement :
    (width v k : ℕ)
    → v < 2 ^ width
    → k < width
    → test_bit (complement width v) k ≡ not (test_bit v k)
unfolding test_bit
test_bit-complement zero v k small within = absurd (omega arith)
test_bit-complement (suc width) v zero small within =
    ground (arith, pow-suc 2 width, one-le-pow width 2)
test_bit-complement (suc width) v (suc k) small within =
    let half : complement (suc width) v / 2 ≡ complement width (v / 2) =
      omega (arith, pow-suc 2 width, one-le-pow width 2) in
    rw half (test_bit-complement width (v / 2) k (omega (arith, pow-suc 2 width)) (omega arith))

bit_and-zero : (fuel a : ℕ) → a ≤ fuel → bit_and a 0 ≡ 0
bit_and-zero fuel zero h = refl
bit_and-zero zero (suc a) h = absurd (omega arith)
bit_and-zero (suc fuel) (suc a) h =
    omega (arith, bit_and-digit (suc a) 0, bit_and-zero fuel (suc a / 2) (omega arith))

-- The test of has: one bit of a word is asked for by its mask.
pub bit_and-pow : (k a : ℕ) → (bit_and a (2 ^ k) == 0) ≡ not (test_bit a k)
unfolding test_bit
bit_and-pow zero a = ground (arith, bit_and-digit a 1, bit_and-zero (a / 2) (a / 2))
bit_and-pow (suc k) a =
    let half = rw (half_pow k) at (bit_and-digit a (2 ^ suc k)) in
    ground (arith, half, pow-suc 2 k, bit_and-pow k (a / 2))
