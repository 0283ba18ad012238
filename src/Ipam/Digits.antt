-- ===== src/Ipam/Digits.antt =====
-- The lowest digits of `bit_and` and `bit_or`, from the recursion that the operations stand for.
use Prim.Native.Nat.{bit_and, bit_or, bit_and-bitwise, bit_or-bitwise, digits, max, min}
use timecraft.Common.{ap, arith, refl, suc, zero, ℕ, ◌%◌, ◌*◌, ◌+◌, ◌/◌, ◌≡◌, ◌≤◌}

module _ (last : ℕ → ℕ) (digit : ℕ → ℕ → ℕ) where
  enough_fuel :
      (a b : ℕ) (fuel spare : ℕ)
      → a ≤ fuel
      → a ≤ spare
      → digits last digit fuel a b ≡ digits last digit spare a b
  enough_fuel zero b zero zero h k = refl
  enough_fuel zero b zero (suc spare) h k = refl
  enough_fuel zero b (suc fuel) zero h k = refl
  enough_fuel zero b (suc fuel) (suc spare) h k = refl
  enough_fuel (suc a) b zero spare h k = absurd (omega arith)
  enough_fuel (suc a) b (suc fuel) zero h k = absurd (omega arith)
  enough_fuel (suc a) b (suc fuel) (suc spare) h k =
      ap (λ (t : ℕ). t * 2 + digit (suc a % 2) (b % 2))
        (enough_fuel (suc a / 2) (b / 2) fuel spare (omega arith) (omega arith))

pub bit_and-digit : (a b : ℕ) → bit_and a b ≡ bit_and (a / 2) (b / 2) * 2 + min (a % 2) (b % 2)
bit_and-digit zero b = simp bit_and-bitwise (omega arith)
bit_and-digit (suc a) b = omega (
  arith,
  bit_and-bitwise (suc a) b,
  bit_and-bitwise (suc a / 2) (b / 2),
  enough_fuel (λ _. 0) min (suc a / 2) (b / 2) a (suc a / 2) (omega arith) (omega arith),
)

pub bit_or-digit : (a b : ℕ) → bit_or a b ≡ bit_or (a / 2) (b / 2) * 2 + max (a % 2) (b % 2)
bit_or-digit zero b = simp bit_or-bitwise (omega arith)
bit_or-digit (suc a) b = omega (
  arith,
  bit_or-bitwise (suc a) b,
  bit_or-bitwise (suc a / 2) (b / 2),
  enough_fuel (λ t. t) max (suc a / 2) (b / 2) a (suc a / 2) (omega arith) (omega arith),
)
