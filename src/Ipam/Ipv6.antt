-- ===== src/Ipam/Ipv6.antt =====
-- internal/ipam/ipv6.go: the arithmetic of addresses of sixteen bytes. An address is the two words
-- that binary.BigEndian.Uint64 reads from its halves, which the code reads and puts back as a whole.

mod Tests
use timecraft.Common.{
  Bool-cases, ap, arith, false, if◌then◌else◌, inl, inr, leb, leb→le, ltb, lt→ltb, true, ℕ, ◌%◌,
  ◌*◌, ◌+◌, ◌-◌, ◌/◌, ◌<◌, ◌^◌, ◌∙◌, ◌≡◌,
}

pub record Ipv6 : Type 0 where
  pub high : ℕ
  pub low : ℕ

-- bits.Add64 and bits.Sub64 of math/bits: the word, and the carry or the borrow.
abbrev pub add64 : ℕ → ℕ → ℕ → ℕ × ℕ
add64 x y carry = ((x + y + carry) % 2 ^ 64, (x + y + carry) / 2 ^ 64)

abbrev pub sub64 : ℕ → ℕ → ℕ → ℕ × ℕ
sub64 x y borrow = ((x + 2 ^ 64 - y - borrow) % 2 ^ 64, if ltb x (y + borrow) then 1 else 0)

unfoldable pub add : Ipv6 → ℕ → Ipv6
add ip n =
    let (x, c) = add64 ip.low (n % 2 ^ 64) 0 in
    let (y, _) = add64 ip.high 0 c in record { high = y; low = x }

-- The int that it returns, as a word.
unfoldable pub sub : Ipv6 → Ipv6 → ℕ
sub ip other = let (_, c) = sub64 ip.high other.high 0 in let (d, _) = sub64 ip.low other.low c in d

-- An address as a number of 128 bits.
abbrev pub value : Ipv6 → ℕ
value ip = ip.high * 2 ^ 64 + ip.low

abbrev pub IsIpv6 : Ipv6 → Type 0
IsIpv6 ip = (ip.high < 2 ^ 64) × (ip.low < 2 ^ 64)

ltb-plus_zero : (x y : ℕ) → ltb x (y + 0) ≡ ltb x y
ltb-plus_zero x y = ap (ltb x) (omega arith)

-- The difference of two addresses comes out modulo 2 ^ 64, except where the high word of the first
-- is below that of the second: then it is one less.
pub sub_lem :
    (ip other : Ipv6)
    → IsIpv6 ip
    → IsIpv6 other
    → sub ip other ≡ (
        if ltb ip.high other.high
        then (value ip + 2 ^ 128 + 2 ^ 64 - value other - 1) % 2 ^ 64
        else (value ip + 2 ^ 128 - value other) % 2 ^ 64)
unfolding sub
sub_lem ip other words other_words =
    rw (ltb-plus_zero ip.high other.high) (elim (Bool-cases (ltb ip.high other.high)) [
      | inl below ↦ rw below (omega arith)
      | inr above ↦ rw above (omega arith)
    ])

value-add :
    (ip : Ipv6) (i : ℕ) → IsIpv6 ip → i < 2 ^ 64 → value (add ip i) ≡ (value ip + i) % 2 ^ 128
unfolding add
value-add ip i words small = omega arith

-- An address that is an offset above another gives back the offset by subtraction, if the sum does
-- not wrap around in 128 bits; if it does, the difference is one less.
pub sub-add_offset :
    (ip : Ipv6) (i : ℕ)
    → IsIpv6 ip
    → i < 2 ^ 64
    → sub (add ip i) ip ≡ (if leb (2 ^ 128) (value ip + i) then (i + 2 ^ 64 - 1) % 2 ^ 64 else i)
unfolding add
sub-add_offset ip i words small =
    let carry = (ip.low + i % 2 ^ 64 + 0) / 2 ^ 64 in
    let sum = sub_lem (add ip i) ip (omega arith, omega arith) words in
    sum ∙ elim (Bool-cases (leb (2 ^ 128) (value ip + i))) [
      | inl wrapped ↦
          let below : ltb ((ip.high + 0 + carry) % 2 ^ 64) ip.high ≡ true =
            lt→ltb _ _ (omega (arith, leb→le _ _ wrapped)) in
          rw (wrapped, below) (omega (arith, leb→le _ _ wrapped, value-add ip i words small))
      | inr fits ↦
          let within : value ip + i < 2 ^ 128 = ground (arith, fits) in
          let above : ltb ((ip.high + 0 + carry) % 2 ^ 64) ip.high ≡ false = ground (arith, fits) in
          rw (fits, above) (omega (arith, within, value-add ip i words small))
    ]
