-- ===== src/Ipam/Ipv4.antt =====
-- internal/ipam/ipv4.go: addresses of four bytes, and the pool of the addresses of a network. What
-- panics is none.
pub mod Laws
use Prim.Native.Nat.{bit_and}
use timecraft.Common.{
  Bool, List, Option, [], false, if◌then◌else◌, ltb, none, not, some, true, ℕ, ◌%◌, ◌&&◌, ◌*◌, ◌+◌,
  ◌-◌, ◌/◌, ◌==◌, ◌^◌,
}
use timecraft.Ipam.Bitset.{clear, find_first_zero_bit, grow, has_bit, set_bit, unset_bit}

pub record Ipv4 : Type 0 where
  pub byte0 : ℕ
  pub byte1 : ℕ
  pub byte2 : ℕ
  pub byte3 : ℕ

-- binary.BigEndian and binary.LittleEndian.
unfoldable pub big_endian : Ipv4 → ℕ
big_endian ip = ip.byte0 * 2 ^ 24 + ip.byte1 * 2 ^ 16 + ip.byte2 * 2 ^ 8 + ip.byte3

unfoldable pub put_big_endian : ℕ → Ipv4
put_big_endian u = record {
  byte0 = u / 2 ^ 24 % 256;
  byte1 = u / 2 ^ 16 % 256;
  byte2 = u / 2 ^ 8 % 256;
  byte3 = u % 256;
}

unfoldable pub little_endian : Ipv4 → ℕ
little_endian ip = ip.byte0 + ip.byte1 * 2 ^ 8 + ip.byte2 * 2 ^ 16 + ip.byte3 * 2 ^ 24

unfoldable pub put_little_endian : ℕ → Ipv4
put_little_endian u = record {
  byte0 = u % 256;
  byte1 = u / 2 ^ 8 % 256;
  byte2 = u / 2 ^ 16 % 256;
  byte3 = u / 2 ^ 24 % 256;
}

unfoldable pub add : Ipv4 → ℕ → Ipv4
unfolding big_endian put_big_endian
add ip n = put_big_endian ((big_endian ip + n % 2 ^ 32) % 2 ^ 32)

unfoldable pub sub : Ipv4 → Ipv4 → ℕ
unfolding big_endian
sub ip other = (big_endian ip + 2 ^ 32 - big_endian other) % 2 ^ 32

-- A shift by more than 31 places leaves nothing, and 32 - n wraps around where n is above 32.
unfoldable pub mask : ℕ → Ipv4
unfolding put_big_endian
mask n = put_big_endian (if ltb 32 n then 0 else (2 ^ 32 - 1) * 2 ^ (32 - n) % 2 ^ 32)

unfoldable pub prefix : Ipv4 → Ipv4 → Ipv4
unfolding little_endian put_little_endian
prefix ip mask = put_little_endian (bit_and (little_endian ip) (little_endian mask))

-- == on arrays.
unfoldable pub same_ip : Ipv4 → Ipv4 → Bool
same_ip a b = a.byte0 == b.byte0 && a.byte1 == b.byte1 && a.byte2 == b.byte2 && a.byte3 == b.byte3

pub record Ipv4Pool : Type 0 where
  pub network_mask : Ipv4
  pub addr : Ipv4
  pub base : Ipv4
  pub bits : List ℕ

unfoldable pub reset : Ipv4Pool → Ipv4 → ℕ → Ipv4Pool
unfolding mask prefix clear
reset p ip nbits = record {
  network_mask = mask nbits;
  addr = prefix ip (mask nbits);
  base = ip;
  bits = clear p.bits;
}

abbrev zero_ip : Ipv4
zero_ip = record { byte0 = 0; byte1 = 0; byte2 = 0; byte3 = 0 }

unfoldable pub new_pool : Ipv4 → ℕ → Ipv4Pool
unfolding reset
new_pool ip nbits =
    reset (record { network_mask = zero_ip; addr = zero_ip; base = zero_ip; bits = [] }) ip nbits

-- The address, whether it was obtained, and the pool after.
unfoldable pub get : Ipv4Pool → Option ((Ipv4 × Bool) × Ipv4Pool)
get p =
    let i = find_first_zero_bit p.bits in
    let a = add p.base i in
    if not (same_ip (prefix a p.network_mask) p.addr)
    then some ((a, false), p)
    else elim (set_bit (grow p.bits (i + 1)) i) [
      | none ↦ none
      | some bits ↦ some ((add p.base i, true), record p { bits = bits })
    ]

unfoldable pub put : Ipv4Pool → Ipv4 → Option Ipv4Pool
put p ip =
    let i = sub ip p.base in
    elim (has_bit p.bits i) [
      | none ↦ none
      | some false ↦ none
      | some true ↦ elim (unset_bit p.bits i) [
        | none ↦ none
        | some bits ↦ some (record p { bits = bits })
      ]
    ]
