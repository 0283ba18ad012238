-- ===== src/Ipam/Ipv4/Laws.antt =====
-- The pool of IPv4 addresses, as a set of offsets from its base.
use mathlib.Core.Path.{subst}
use timecraft.Common.{
  ==_iff, Bool, Bool-cases, List, Option-cases, [], ap, arith, false, get_elem?, inl, inr, length,
  ltb, ltb→lt, lt→ltb, none, not, refl, some, suc, sym, true, zero, ℕ, ◌%◌, ◌&&◌, ◌+◌, ◌/◌, ◌<◌,
  ◌==◌, ◌^◌, ◌||◌, ◌∙◌, ◌∷◌, ◌≡◌, ◌⊎◌,
}
use timecraft.Ipam.Bits.{test_bit-zero}
use timecraft.Ipam.Bitset.{clear, find_first_zero_bit, grow, has_bit}
use timecraft.Ipam.Bitset.Laws.{
  grow-used, has_bit-used, length-grow, set_bit-used, unset_bit-used, used, used-beyond,
}
use timecraft.Ipam.FirstZero.{IsFirstFree, Words64, find_first_zero_bit-IsFirstFree}
use timecraft.Ipam.Ipv4.{
  Ipv4, Ipv4Pool, add, big_endian, get, prefix, put, put_big_endian, reset, same_ip, sub,
}
use timecraft.Ipam.Width.{grow-Words64, set_bit-Words64}

abbrev pub IsIpv4 : Ipv4 → Type 0
IsIpv4 ip = (ip.byte0 < 256) × (ip.byte1 < 256) × (ip.byte2 < 256) × (ip.byte3 < 256)

-- The offsets in use.
abbrev pub in_use : Ipv4Pool → ℕ → Bool
in_use p i = used p.bits i

big_endian-lt : (ip : Ipv4) → IsIpv4 ip → big_endian ip < 2 ^ 32
unfolding big_endian
big_endian-lt ip h = omega arith

big_endian-put : (u : ℕ) → u < 2 ^ 32 → big_endian (put_big_endian u) ≡ u
unfolding big_endian put_big_endian
big_endian-put u h = omega arith

pub sub-add : (ip : Ipv4) (i : ℕ) → IsIpv4 ip → i < 2 ^ 32 → sub (add ip i) ip ≡ i
unfolding sub add
sub-add ip i h small = omega (
  arith,
  big_endian-lt ip h,
  big_endian-put ((big_endian ip + i % 2 ^ 32) % 2 ^ 32) (omega arith),
)

-- The two ways in which Get ends at the offset i.
abbrev pub Exhausted : Ipv4Pool → ℕ → Type 0
Exhausted p i =
    (same_ip (prefix (add p.base i) p.network_mask) p.addr ≡ false)
    × (get p ≡ some ((add p.base i, false), p))

abbrev pub Obtained : Ipv4Pool → ℕ → Type 0
Obtained p i =
    (same_ip (prefix (add p.base i) p.network_mask) p.addr ≡ true)
    × ((bits : List ℕ) × (get p ≡ some ((add p.base i, true), record p { bits = bits }))
        × Words64 bits
        × ((j : ℕ) → used bits j ≡ (i == j || used p.bits j)))

-- Of a pool whose words have 64 bits, Get never panics: it takes the least offset that is not in
-- use. Where the address there lies outside the network, Get reports this with the pool unchanged;
-- else it returns the address, and of the pool only that offset changes, which is now in use.
pub get_lem :
    (p : Ipv4Pool)
    → Words64 p.bits
    → IsFirstFree p.bits (find_first_zero_bit p.bits)
      × (Obtained p (find_first_zero_bit p.bits) ⊎ Exhausted p (find_first_zero_bit p.bits))
unfolding get
get_lem p small =
    let i = find_first_zero_bit p.bits in
    (
      find_first_zero_bit-IsFirstFree p.bits small,
      elim (Bool-cases (same_ip (prefix (add p.base i) p.network_mask) p.addr)) [
        | inr outside ↦ inr (outside, rw (outside, get) refl)
        | inl inside ↦
            let next : i + 1 ≡ suc i = omega arith in
            let room = length-grow p.bits i in
            let (bits, made, _, after) = set_bit-used (grow p.bits (suc i)) i room in
            inl (
              inside,
              (
                bits,
                rw (inside, next, get) (rw (made, get) refl),
                set_bit-Words64 (grow p.bits (suc i)) i bits (grow-Words64 p.bits (suc i) small)
                    made,
                λ j. after j ∙ ap (λ b. i == j || b) (grow-used p.bits (suc i) j),
              ),
            )
      ],
    )

used-within : (bits : List ℕ) (i : ℕ) → used bits i ≡ true → i / 64 < length bits
used-within bits i member = elim (Bool-cases (ltb (i / 64) (length bits))) [
  | inl within ↦ ltb→lt _ _ within
  | inr beyond ↦ absurd (ground (arith, member, used-beyond bits i (ground arith)))
]

has_bit-member : (bits : List ℕ) (i : ℕ) → used bits i ≡ true → has_bit bits i ≡ some true
has_bit-member bits i member =
    has_bit-used bits i ∙ rw (lt→ltb _ _ (used-within bits i member), member) refl

-- Put panics if and only if the offset of the address is not in use; else it gives back this offset
-- and changes nothing more.
pub put_lem :
    (p : Ipv4Pool) (ip : Ipv4)
    → ((in_use p (sub ip p.base) ≡ false) × (put p ip ≡ none))
      ⊎ ((in_use p (sub ip p.base) ≡ true)
          × ((bits : List ℕ) × (put p ip ≡ some (record p { bits = bits }))
              × ((j : ℕ) → used bits j ≡ (not (sub ip p.base == j) && in_use p j))))
unfolding put
put_lem p ip =
    let i = sub ip p.base in
    elim (Bool-cases (used p.bits i)) [
      | inl member ↦
          let (bits, made, _, after) = unset_bit-used p.bits i (used-within p.bits i member) in
          inr
            (member, (bits, rw (has_bit-member p.bits i member, put) (rw (made, put) refl), after))
      | inr free ↦ inl (
        free,
        elim (Bool-cases (ltb (i / 64) (length p.bits))) [
          | inl within ↦
              let found : has_bit p.bits i ≡ some false =
                rw (has_bit-used p.bits i) (rw (within, free) refl) in
              rw (found, put) refl
          | inr beyond ↦
              let found : has_bit p.bits i ≡ none = rw (has_bit-used p.bits i) (rw beyond refl) in
              rw (found, put) refl
        ],
      )
    ]

put-taken :
    (p : Ipv4Pool) (bits : List ℕ) (i : ℕ) (ip : Ipv4)
    → sub ip p.base ≡ i
    → in_use p i ≡ false
    → ((j : ℕ) → used bits j ≡ (i == j || in_use p j))
    → (p'' : Ipv4Pool) × (put (record p { bits = bits }) ip ≡ some p'')
      × ((j : ℕ) → in_use p'' j ≡ in_use p j)
put-taken p bits i ip offset free after = elim (put_lem (record p { bits = bits }) ip) [
  | inl (unused, _) ↦ absurd (ground (arith, unused, after (sub ip p.base), offset))
  | inr (_, (left, gave_back, remain)) ↦ (
    record p { bits = left },
    gave_back,
    λ j. remain j ∙ elim (Bool-cases (i == j)) [
      | inl same ↦ let e = (==_iff i j).0 same in rw (offset, same) (sym (rw (← e) free))
      | inr other ↦ rw (offset, other, after j) (rw other refl)
    ],
  )
]

-- Putting back what Get has just returned never panics, and leaves in use exactly the offsets that
-- were in use before, if the words have 64 bits, the base four bytes, and the offset is less than
-- 2 ^ 32.
pub put-get :
    (p p' : Ipv4Pool) (ip : Ipv4)
    → Words64 p.bits
    → IsIpv4 p.base
    → find_first_zero_bit p.bits < 2 ^ 32
    → get p ≡ some ((ip, true), p')
    → (p'' : Ipv4Pool) × (put p' ip ≡ some p'') × ((j : ℕ) → in_use p'' j ≡ in_use p j)
put-get p p' ip small four_bytes below obtained =
    let i = find_first_zero_bit p.bits in
    let (first, ending) = get_lem p small in
    elim ending [
      | inr (_, exhausted) ↦ cc (sym exhausted ∙ obtained)
      | inl (_, (bits, gave, _, after)) ↦
          let address : add p.base i ≡ ip = cc (sym gave ∙ obtained) in
          let pool : record p { bits = bits } ≡ p' = cc (sym gave ∙ obtained) in
          let offset : sub ip p.base ≡ i = rw (← address) (sub-add p.base i four_bytes below) in
          subst
            (λ (q : Ipv4Pool).
              (p'' : Ipv4Pool) × (put q ip ≡ some p'') × ((j : ℕ) → in_use p'' j ≡ in_use p j))
            pool (put-taken p bits i ip offset first.0 after)
    ]

clear-zero : (bits : List ℕ) (k word : ℕ) → get_elem? (clear bits) k ≡ some word → word ≡ 0
unfolding clear
clear-zero [] k word e = cc
clear-zero (b ∷ bits) zero word e = cc
clear-zero (b ∷ bits) (suc k) word e = clear-zero bits k word e

clear-Words64 : (bits : List ℕ) → Words64 (clear bits)
unfolding clear
clear-Words64 [] = tt
clear-Words64 (b ∷ bits) = (omega arith, clear-Words64 bits)

clear-used : (bits : List ℕ) (j : ℕ) → used (clear bits) j ≡ false
unfolding clear used
clear-used bits j = elim (Option-cases (get_elem? (clear bits) (j / 64))) [
  | inl absent ↦ rw (absent, used) refl
  | inr (word, there) ↦
      let empty : word ≡ 0 = clear-zero bits (j / 64) word there in
      rw (there, used) (rw empty (test_bit-zero (j % 64)))
]

-- After Reset no offset is in use, and Get has a pool whose words have 64 bits; the base is the
-- address that was given.
pub reset_lem :
    (p : Ipv4Pool) (ip : Ipv4) (nbits : ℕ)
    → ((j : ℕ) → in_use (reset p ip nbits) j ≡ false)
      × Words64 (reset p ip nbits).bits
      × ((reset p ip nbits).base ≡ ip)
unfolding reset
reset_lem p ip nbits = (clear-used p.bits, clear-Words64 p.bits, refl)
