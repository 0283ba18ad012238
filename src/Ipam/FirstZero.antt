-- ===== src/Ipam/FirstZero.antt =====
-- bitset.findFirstZeroBit against the members of the set.
use native.Mathlib.Nat.{pow-suc}
use timecraft.Common.{
  ==_iff, All, Bool-cases, List, Option-cases, [], ap, arith, false, get_elem?, inl, inr, ltb, not,
  refl, suc, true, zero, ℕ, ◌%◌, ◌*◌, ◌+◌, ◌-◌, ◌/◌, ◌<◌, ◌==◌, ◌^◌, ◌∙◌, ◌∷◌, ◌≡◌, ◌≢◌,
}
use timecraft.Ipam.Bits.{complement, test_bit, test_bit-complement, test_bit-zero}
use timecraft.Ipam.Bitset.{find_first_zero_bit, find_from, trailing_zeros}
use timecraft.Ipam.Bitset.Laws.{used}

abbrev pub Words64 : List ℕ → Type 0
Words64 bits = All (λ word. word < 2 ^ 64) bits

used-head : (word : ℕ) (bits : List ℕ) (j : ℕ) → j < 64 → used (word ∷ bits) j ≡ test_bit word j
unfolding used
used-head word bits j h =
    let first : j / 64 ≡ 0 = omega arith in
    let low : j % 64 ≡ j = omega arith in rw (first, used) (rw (low, used) refl)

used-tail : (word : ℕ) (bits : List ℕ) (j : ℕ) → used (word ∷ bits) (64 + j) ≡ used bits j
unfolding used
used-tail word bits j =
    let next : (64 + j) / 64 ≡ suc (j / 64) = omega arith in
    let low : (64 + j) % 64 ≡ j % 64 = omega arith in
    rw (next, used)
      (elim (Option-cases (get_elem? bits (j / 64))) [
        | inl absent ↦ rw (absent, used) refl
        | inr (there, at_word) ↦ rw (at_word, used) (ap (test_bit there) low)
      ])

-- The place of the lowest bit that is set.
trailing_zeros-lt : (width v : ℕ) → 0 < v → v < 2 ^ width → trailing_zeros width v < width
unfolding trailing_zeros
trailing_zeros-lt zero v positive small = absurd (omega arith)
trailing_zeros-lt (suc width) v positive small =
    ground (arith, pow-suc 2 width, trailing_zeros-lt width (v / 2))

trailing_zeros-set :
    (width v : ℕ) → trailing_zeros width v < width → test_bit v (trailing_zeros width v) ≡ true
unfolding trailing_zeros test_bit
trailing_zeros-set zero v h = absurd (omega arith)
trailing_zeros-set (suc width) v h = elim (Bool-cases (v % 2 == 1)) [
  | inl odd ↦ rw odd odd
  | inr even ↦ rw even (trailing_zeros-set width (v / 2) (ground (arith, even)))
]

trailing_zeros-below : (width v j : ℕ) → j < trailing_zeros width v → test_bit v j ≡ false
unfolding trailing_zeros test_bit
trailing_zeros-below zero v j h = absurd (omega arith)
trailing_zeros-below (suc width) v zero h = ground arith
trailing_zeros-below (suc width) v (suc j) h = elim (Bool-cases (v % 2 == 1)) [
  | inl odd ↦ absurd (ground (arith, odd))
  | inr even ↦ trailing_zeros-below width (v / 2) j (ground (arith, even))
]

-- The loop that starts at a later word finds the same place, counted from there.
find_from-shift : (i : ℕ) (bits : List ℕ) → find_from (suc i) bits ≡ 64 + find_from i bits
unfolding find_from
find_from-shift i [] = omega arith
find_from-shift i (v ∷ bits) = ground (arith, find_from-shift (suc i) bits)

full_word : (j : ℕ) → j < 64 → test_bit (2 ^ 64 - 1) j ≡ true
full_word j h = test_bit-complement 64 0 j (omega arith) h ∙ ap not (test_bit-zero j)

-- What is found is free, and all below it is used.
abbrev pub IsFirstFree : List ℕ → ℕ → Type 0
IsFirstFree bits i = (used bits i ≡ false) × ((j : ℕ) → j < i → used bits j ≡ true)

IsFirstFree-after_full :
    (bits : List ℕ) (i : ℕ) → IsFirstFree bits i → IsFirstFree ((2 ^ 64 - 1) ∷ bits) (64 + i)
IsFirstFree-after_full bits i (free, below) = (
  used-tail (2 ^ 64 - 1) bits i ∙ free,
  λ j h. elim (Bool-cases (ltb j 64)) [
    | inl low ↦ used-head (2 ^ 64 - 1) bits j (ground arith) ∙ full_word j (ground arith)
    | inr high ↦
        let split : 64 + (j - 64) ≡ j = ground arith in
        rw split at (used-tail (2 ^ 64 - 1) bits (j - 64) ∙ below (j - 64) (ground arith))
  ],
)

IsFirstFree-in_word :
    (v : ℕ) (bits : List ℕ)
    → v < 2 ^ 64
    → v ≢ 2 ^ 64 - 1
    → IsFirstFree (v ∷ bits) (trailing_zeros 64 (complement 64 v))
IsFirstFree-in_word v bits small partial =
    let i = trailing_zeros 64 (complement 64 v) in
    let within = trailing_zeros-lt 64 (complement 64 v) (omega (arith, partial)) (omega arith) in
    (
      used-head v bits i within
          ∙ ground (
            arith,
            test_bit-complement 64 v i small within,
            trailing_zeros-set 64 (complement 64 v) within,
          ),
      λ j h.
          used-head v bits j (omega arith)
          ∙ ground (
            arith,
            test_bit-complement 64 v j small (omega arith),
            trailing_zeros-below 64 (complement 64 v) j h,
          ),
    )

find_from-IsFirstFree : (bits : List ℕ) → Words64 bits → IsFirstFree bits (find_from 0 bits)
unfolding find_from
find_from-IsFirstFree [] small = (unfold used in refl, λ j h. absurd (omega arith))
find_from-IsFirstFree (v ∷ bits) small = elim (Bool-cases (v == 2 ^ 64 - 1)) [
  | inl full ↦ rw full (
      rw ((==_iff v (2 ^ 64 - 1)).0 full) (
        rw (find_from-shift 0 bits)
          (IsFirstFree-after_full bits (find_from 0 bits) (find_from-IsFirstFree bits small.1))))
  | inr partial ↦
      let t = trailing_zeros 64 (complement 64 v) in
      let from_zero : 64 * 0 + t ≡ t = omega arith in
      rw (partial, from_zero) (IsFirstFree-in_word v bits small.0 (λ e. ground arith))
]

-- Of words of 64 bits, findFirstZeroBit gives the least number that is not a member.
pub find_first_zero_bit-IsFirstFree :
    (bits : List ℕ) → Words64 bits → IsFirstFree bits (find_first_zero_bit bits)
unfolding find_first_zero_bit
find_first_zero_bit-IsFirstFree bits small = find_from-IsFirstFree bits small
