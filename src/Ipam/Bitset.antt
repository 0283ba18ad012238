-- ===== src/Ipam/Bitset.antt =====
-- internal/ipam/bitset.go: a set of numbers as words of 64 bits. An index beyond the words panics,
-- which is none.
pub mod Laws
use Prim.Native.Nat.{bit_and, bit_or}
use mathlib.Core.Option
use timecraft.Common.{
  Bool, List, Option, [], get_elem?, if◌then◌else◌, length, ltb, map, not, replicate, set, suc,
  zero, ℕ, ◌%◌, ◌*◌, ◌++◌, ◌+◌, ◌-◌, ◌/◌, ◌==◌, ◌^◌, ◌∷◌,
}
use timecraft.Ipam.Bits.{complement}

unfoldable pub clear : List ℕ → List ℕ
clear bits = map (λ _. 0) bits

unfoldable pub grow : List ℕ → ℕ → List ℕ
grow bits n =
    let n = (n + 63) / 64 in
    if ltb (length bits) n then bits ++ replicate (n - length bits) 0 else bits

unfoldable pub has_bit : List ℕ → ℕ → Option Bool
has_bit bits i =
    Option.map (λ word. not (bit_and word (2 ^ (i % 64)) == 0)) (get_elem? bits (i / 64))

unfoldable pub set_bit : List ℕ → ℕ → Option (List ℕ)
set_bit bits i =
    Option.map (λ word. set bits (i / 64) (bit_or word (2 ^ (i % 64)))) (get_elem? bits (i / 64))

unfoldable pub unset_bit : List ℕ → ℕ → Option (List ℕ)
unset_bit bits i =
    Option.map (λ word. set bits (i / 64) (bit_and word (complement 64 (2 ^ (i % 64)))))
      (get_elem? bits (i / 64))

-- bits.TrailingZeros64 at a width of 64: the place of the lowest bit that is set, or the width.
unfoldable pub trailing_zeros : ℕ → ℕ → ℕ
trailing_zeros zero v = 0
trailing_zeros (suc width) v = if v % 2 == 1 then 0 else suc (trailing_zeros width (v / 2))

-- The loop at word i.
unfoldable pub find_from : ℕ → List ℕ → ℕ
find_from i [] = 64 * i
find_from i (v ∷ bits) =
    let rest = find_from (suc i) bits in
    if v == 2 ^ 64 - 1 then rest else 64 * i + trailing_zeros 64 (complement 64 v)

unfoldable pub find_first_zero_bit : List ℕ → ℕ
unfolding find_from trailing_zeros
find_first_zero_bit bits = find_from 0 bits
