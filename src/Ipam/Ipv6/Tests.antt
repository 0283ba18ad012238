-- ===== src/Ipam/Ipv6/Tests.antt =====
-- Addresses at the ends of the words.
use timecraft.Common.{arith, refl, ◌%◌, ◌+◌, ◌-◌, ◌^◌, ◌≡◌}
use timecraft.Ipam.Ipv6.{Ipv6, add, sub, sub-add_offset, sub_lem, value}

-- An address whose low word is the last one.
abbrev before_carry : Ipv6
before_carry = record { high = 5; low = 2 ^ 64 - 1 }

-- The last address of all.
abbrev last_address : Ipv6
last_address = record { high = 2 ^ 64 - 1; low = 2 ^ 64 - 1 }

add-carry : add before_carry 3 ≡ record { high = 6; low = 2 }
unfolding add
add-carry = refl

sub-below : sub before_carry (record { high = 6; low = 0 }) ≡ 2 ^ 64 - 2
unfolding sub
sub-below = refl

sub_lem_example :
    sub before_carry last_address
    ≡ (value before_carry + 2 ^ 128 + 2 ^ 64 - value last_address - 1) % 2 ^ 64
sub_lem_example =
    sub_lem before_carry last_address (omega arith, omega arith) (omega arith, omega arith)

sub-add_offset_example : sub (add before_carry 3) before_carry ≡ 3
sub-add_offset_example = sub-add_offset before_carry 3 (omega arith, omega arith) (omega arith)
