-- ===== src/Ipam/Bitset/Laws.antt =====
-- The set that the words stand for, and what the operations do to it.
use Prim.Native.Nat.{bit_and, bit_or}
use native.Mathlib.Nat.{pow-suc, one-le-pow}
use timecraft.Common.{
  ==_iff, Bool, Bool-cases, List, [], arith, false, get_elem?, get_elem?-none, get_elem?-set_ne,
  get_elem?-set_self, get_elem?-some, if◌then◌else◌, inl, inr, length, length-append,
  length-replicate, length-set, ltb, none, not, refl, replicate, set, some, suc, zero, ℕ, ◌%◌, ◌&&◌,
  ◌++◌, ◌+◌, ◌-◌, ◌/◌, ◌<◌, ◌==◌, ◌^◌, ◌||◌, ◌∙◌, ◌∷◌, ◌≡◌, ◌≤◌, ◌⊎◌,
}
use timecraft.Ipam.Bits.{
  bit_and-pow, complement, test_bit, test_bit-bit_and, test_bit-bit_or, test_bit-complement,
  test_bit-pow, test_bit-zero,
}
use timecraft.Ipam.Bitset.{grow, has_bit, set_bit, unset_bit}

-- The members of the set, the numbers beyond the words left out.
unfoldable pub used : List ℕ → ℕ → Bool
used bits i = elim (get_elem? bits (i / 64)) [ none ↦ false | some word ↦ test_bit word (i % 64) ]

pub pow_lt : (k width : ℕ) → k < width → 2 ^ k < 2 ^ width
pow_lt k zero h = absurd (omega arith)
pow_lt zero (suc width) h = omega (arith, pow-suc 2 width, one-le-pow width 2)
pow_lt (suc k) (suc width) h =
    omega (arith, pow-suc 2 width, pow-suc 2 k, pow_lt k width (omega arith))

-- A word put in place of the one at an offset.
used-set :
    (bits : List ℕ) (i word j : ℕ)
    → i / 64 < length bits
    → used (set bits (i / 64) word) j
      ≡ (if i / 64 == j / 64 then test_bit word (j % 64) else used bits j)
unfolding used
used-set bits i word j within = elim (Bool-cases (i / 64 == j / 64)) [
  | inl same ↦
      let e = (==_iff (i / 64) (j / 64)).0 same in
      rw same (rw (← e, used) (rw (get_elem?-set_self bits (i / 64) word within, used) refl))
  | inr differ ↦
      let e = get_elem?-set_ne bits {i = i / 64} {j = j / 64} word (λ q. ground arith) in
      rw differ (rw (e, used) refl)
]

same_bit : (i j : ℕ) → i / 64 ≡ j / 64 → (i % 64 == j % 64) ≡ (i == j)
same_bit i j h = ground arith

-- Of a list with the word of i at hand.
module _ (bits : List ℕ) (i word : ℕ) (at_word : get_elem? bits (i / 64) ≡ some word)
    (within : i / 64 < length bits) where
  used-set_or :
      (j : ℕ) → used (set bits (i / 64) (bit_or word (2 ^ (i % 64)))) j ≡ (i == j || used bits j)
  used-set_or j =
      used-set bits i (bit_or word (2 ^ (i % 64))) j within ∙ elim (Bool-cases (i / 64 == j / 64)) [
        | inl same ↦
            let e = (==_iff (i / 64) (j / 64)).0 same in
            let there : used bits j ≡ test_bit word (j % 64) =
              unfold used in rw (← e, used) (rw (at_word, used) refl) in
            rw same (
              ground (
                arith,
                there,
                test_bit-bit_or (j % 64) word (2 ^ (i % 64)),
                test_bit-pow (i % 64) (j % 64),
                same_bit i j e,
              ))
        | inr differ ↦ rw differ (ground arith)
      ]

  used-set_and :
      (j : ℕ)
      → used (set bits (i / 64) (bit_and word (complement 64 (2 ^ (i % 64))))) j
        ≡ (not (i == j) && used bits j)
  used-set_and j =
      used-set bits i (bit_and word (complement 64 (2 ^ (i % 64)))) j within
      ∙ elim (Bool-cases (i / 64 == j / 64)) [
        | inl same ↦
            let e = (==_iff (i / 64) (j / 64)).0 same in
            let there : used bits j ≡ test_bit word (j % 64) =
              unfold used in rw (← e, used) (rw (at_word, used) refl) in
            rw same (
              ground (
                arith,
                there,
                test_bit-bit_and (j % 64) word (complement 64 (2 ^ (i % 64))),
                test_bit-complement 64 (2 ^ (i % 64)) (j % 64) (pow_lt (i % 64) 64 (omega arith))
                    (omega arith),
                test_bit-pow (i % 64) (j % 64),
                same_bit i j e,
              ))
        | inr differ ↦ rw differ (ground arith)
      ]

-- Within the words has tells the members, and beyond them it panics.
pub has_bit-used :
    (bits : List ℕ) (i : ℕ)
    → has_bit bits i ≡ (if ltb (i / 64) (length bits) then some (used bits i) else none)
unfolding has_bit used
has_bit-used bits i = elim (Bool-cases (ltb (i / 64) (length bits))) [
  | inl within ↦
      let (word, at_word) = get_elem?-some bits (i / 64) (ground arith) in
      rw within (rw (at_word, has_bit, used) (ground (arith, bit_and-pow (i % 64) word)))
  | inr beyond ↦ rw beyond (rw (get_elem?-none bits (i / 64) (ground arith), has_bit) refl)
]

-- To add a member within the words.
pub set_bit-used :
    (bits : List ℕ) (i : ℕ)
    → i / 64 < length bits
    → (bits' : List ℕ) × (set_bit bits i ≡ some bits')
      × (length bits' ≡ length bits)
      × ((j : ℕ) → used bits' j ≡ (i == j || used bits j))
unfolding set_bit
set_bit-used bits i within =
    let (word, at_word) = get_elem?-some bits (i / 64) within in
    (
      set bits (i / 64) (bit_or word (2 ^ (i % 64))),
      rw (at_word, set_bit) refl,
      length-set bits (i / 64) _,
      used-set_or bits i word at_word within,
    )

pub unset_bit-used :
    (bits : List ℕ) (i : ℕ)
    → i / 64 < length bits
    → (bits' : List ℕ) × (unset_bit bits i ≡ some bits')
      × (length bits' ≡ length bits)
      × ((j : ℕ) → used bits' j ≡ (not (i == j) && used bits j))
unfolding unset_bit
unset_bit-used bits i within =
    let (word, at_word) = get_elem?-some bits (i / 64) within in
    (
      set bits (i / 64) (bit_and word (complement 64 (2 ^ (i % 64)))),
      rw (at_word, unset_bit) refl,
      length-set bits (i / 64) _,
      used-set_and bits i word at_word within,
    )

pub used-beyond : (bits : List ℕ) (j : ℕ) → length bits ≤ j / 64 → used bits j ≡ false
unfolding used
used-beyond bits j h = rw (get_elem?-none bits (j / 64) h, used) refl

get_elem?-append_zeros :
    (bits : List ℕ) (n i : ℕ)
    → (get_elem? (bits ++ replicate n 0) i ≡ get_elem? bits i)
      ⊎ ((get_elem? bits i ≡ none) × (get_elem? (bits ++ replicate n 0) i ≡ some 0))
get_elem?-append_zeros [] zero i = inl refl
get_elem?-append_zeros [] (suc n) zero = inr (refl, refl)
get_elem?-append_zeros [] (suc n) (suc i) = get_elem?-append_zeros [] n i
get_elem?-append_zeros (b ∷ bits) n zero = inl refl
get_elem?-append_zeros (b ∷ bits) n (suc i) = get_elem?-append_zeros bits n i

used-append_zeros : (bits : List ℕ) (n j : ℕ) → used (bits ++ replicate n 0) j ≡ used bits j
unfolding used
used-append_zeros bits n j = elim (get_elem?-append_zeros bits n (j / 64)) [
  | inl same ↦ rw (same, used) refl
  | inr (absent, zero_word) ↦ rw (absent, zero_word, used) (test_bit-zero (j % 64))
]

-- To grow adds no member.
pub grow-used : (bits : List ℕ) (n j : ℕ) → used (grow bits n) j ≡ used bits j
unfolding grow
grow-used bits n j = elim (Bool-cases (ltb (length bits) ((n + 63) / 64))) [
  | inl short ↦ rw short (used-append_zeros bits ((n + 63) / 64 - length bits) j)
  | inr enough ↦ rw enough refl
]

pub length-grow : (bits : List ℕ) (i : ℕ) → i / 64 < length (grow bits (suc i))
unfolding grow
length-grow bits i = ground (
  arith,
  length-append bits (replicate ((suc i + 63) / 64 - length bits) 0),
  length-replicate {0} {A = ℕ} ((suc i + 63) / 64 - length bits) 0,
)
