-- ===== src/Ipam/Width.antt =====
-- The bounds of the words of the set under its operations.
use Prim.Native.Nat.{bit_and, bit_or}
use mathlib.Core.Option.{none-ne-some, some-injective}
use mathlib.Core.Path.{subst}
use native.Mathlib.Nat.{pow-suc}
use timecraft.Common.{
  Bool-cases, List, Option-cases, [], arith, get_elem?, inl, inr, length, ltb, refl, replicate, set,
  some, suc, sym, zero, ℕ, ◌%◌, ◌++◌, ◌+◌, ◌-◌, ◌/◌, ◌<◌, ◌^◌, ◌∙◌, ◌∷◌, ◌≡◌,
}
use timecraft.Ipam.Bitset.{grow, set_bit}
use timecraft.Ipam.Bitset.Laws.{pow_lt}
use timecraft.Ipam.Digits.{bit_and-digit, bit_or-digit}
use timecraft.Ipam.FirstZero.{Words64}

bit_or-lt : (width a b : ℕ) → a < 2 ^ width → b < 2 ^ width → bit_or a b < 2 ^ width
bit_or-lt zero a b ha hb =
    let first : a ≡ 0 = omega arith in
    let second : b ≡ 0 = omega arith in rw (first, second) (omega arith)
bit_or-lt (suc width) a b ha hb = ground (
  arith,
  pow-suc 2 width,
  bit_or-digit a b,
  bit_or-lt width (a / 2) (b / 2) (omega (arith, pow-suc 2 width)) (omega (arith, pow-suc 2 width)),
)

bit_and-lt : (width a b : ℕ) → a < 2 ^ width → b < 2 ^ width → bit_and a b < 2 ^ width
bit_and-lt zero a b ha hb =
    let first : a ≡ 0 = omega arith in
    let second : b ≡ 0 = omega arith in rw (first, second) (omega arith)
bit_and-lt (suc width) a b ha hb = ground (
  arith,
  pow-suc 2 width,
  bit_and-digit a b,
  bit_and-lt width (a / 2) (b / 2) (omega (arith, pow-suc 2 width))
      (omega (arith, pow-suc 2 width)),
)

Words64-get :
    (bits : List ℕ) (k word : ℕ) → Words64 bits → get_elem? bits k ≡ some word → word < 2 ^ 64
Words64-get [] k word h e = cc
Words64-get (b ∷ bits) zero word h e = ground (arith, e)
Words64-get (b ∷ bits) (suc k) word h e = Words64-get bits k word h.1 e

Words64-set :
    (bits : List ℕ) (k word : ℕ) → Words64 bits → word < 2 ^ 64 → Words64 (set bits k word)
Words64-set [] k word h small = tt
Words64-set (b ∷ bits) zero word h small = (small, h.1)
Words64-set (b ∷ bits) (suc k) word h small = (h.0, Words64-set bits k word h.1 small)

Words64-append_zeros : (bits : List ℕ) (n : ℕ) → Words64 bits → Words64 (bits ++ replicate n 0)
Words64-append_zeros [] zero h = tt
Words64-append_zeros [] (suc n) h = (omega arith, Words64-append_zeros [] n tt)
Words64-append_zeros (b ∷ bits) n h = (h.0, Words64-append_zeros bits n h.1)

pub grow-Words64 : (bits : List ℕ) (n : ℕ) → Words64 bits → Words64 (grow bits n)
unfolding grow
grow-Words64 bits n h = elim (Bool-cases (ltb (length bits) ((n + 63) / 64))) [
  | inl short ↦ rw short (Words64-append_zeros bits ((n + 63) / 64 - length bits) h)
  | inr enough ↦ rw enough h
]

pub set_bit-Words64 :
    (bits : List ℕ) (i : ℕ) (bits' : List ℕ)
    → Words64 bits
    → set_bit bits i ≡ some bits'
    → Words64 bits'
unfolding set_bit
set_bit-Words64 bits i bits' h e = elim (Option-cases (get_elem? bits (i / 64))) [
  | inl absent ↦ absurd (none-ne-some bits' (sym (rw (absent, set_bit) refl) ∙ e))
  | inr (word, at_word) ↦
      let made : set bits (i / 64) (bit_or word (2 ^ (i % 64))) ≡ bits' =
        some-injective _ _ (sym (rw (at_word, set_bit) refl) ∙ e) in
      subst Words64 made (
        Words64-set bits (i / 64) (bit_or word (2 ^ (i % 64))) h (
          bit_or-lt 64 word (2 ^ (i % 64)) (Words64-get bits (i / 64) word h at_word)
            (pow_lt (i % 64) 64 (omega arith))))
]
