-- ===== src/Ipam/Tests.antt =====
-- A pool of the network 10.0.0.0/30 with the base 10.0.0.1, and its properties there.
use timecraft.Common.{
  List, [], arith, false, none, not, refl, some, true, ℕ, ◌&&◌, ◌-◌, ◌<◌, ◌==◌, ◌^◌, ◌∷◌, ◌≡◌, ◌⊎◌,
}
use timecraft.Ipam.Bitset.{find_first_zero_bit, grow, has_bit, set_bit, unset_bit}
use timecraft.Ipam.Bitset.Laws.{used}
use timecraft.Ipam.FirstZero.{IsFirstFree, Words64, find_first_zero_bit-IsFirstFree}
use timecraft.Ipam.Ipv4.{
  Ipv4, Ipv4Pool, add, get, little_endian, new_pool, prefix, put, put_big_endian, put_little_endian,
  reset, same_ip, sub,
}
use timecraft.Ipam.Ipv4.Laws.{Exhausted, Obtained, get_lem, in_use, put-get, put_lem, reset_lem}

abbrev address : ℕ → Ipv4
address last = record { byte0 = 10; byte1 = 0; byte2 = 0; byte3 = last }

-- The first offset is in use.
abbrev one_used : Ipv4Pool
one_used = record {
  network_mask = record { byte0 = 255; byte1 = 255; byte2 = 255; byte3 = 252 };
  addr = address 0;
  base = address 1;
  bits = 1 ∷ [];
}

abbrev two_used : Ipv4Pool
two_used = record one_used { bits = 3 ∷ [] }

abbrev all_used : Ipv4Pool
all_used = record one_used { bits = 7 ∷ [] }

new_pool-address : new_pool (address 1) 30 ≡ record one_used { bits = [] }
unfolding new_pool little_endian put_little_endian put_big_endian
new_pool-address = refl

get-one_used : get one_used ≡ some ((address 2, true), two_used)
unfolding get add prefix same_ip grow set_bit find_first_zero_bit
get-one_used = refl

get-all_used : get all_used ≡ some ((address 4, false), all_used)
unfolding get add prefix same_ip grow set_bit find_first_zero_bit
get-all_used = refl

put-two_used : put two_used (address 2) ≡ some one_used
unfolding put sub has_bit unset_bit
put-two_used = refl

first_offset : find_first_zero_bit one_used.bits < 2 ^ 32
unfolding find_first_zero_bit
first_offset = omega arith

find_first_zero_bit-IsFirstFree_example :
    IsFirstFree ((2 ^ 64 - 1) ∷ 5 ∷ []) (find_first_zero_bit ((2 ^ 64 - 1) ∷ 5 ∷ []))
find_first_zero_bit-IsFirstFree_example =
    find_first_zero_bit-IsFirstFree ((2 ^ 64 - 1) ∷ 5 ∷ []) (omega arith)

get_lem_example :
    IsFirstFree all_used.bits (find_first_zero_bit all_used.bits)
    × (Obtained all_used (find_first_zero_bit all_used.bits)
        ⊎ Exhausted all_used (find_first_zero_bit all_used.bits))
get_lem_example = get_lem all_used (omega arith)

put_lem_example :
    ((in_use two_used (sub (address 2) two_used.base) ≡ false) × (put two_used (address 2) ≡ none))
    ⊎ ((in_use two_used (sub (address 2) two_used.base) ≡ true)
        × ((bits : List ℕ) × (put two_used (address 2) ≡ some (record two_used { bits = bits }))
            × ((j : ℕ)
                → used bits j ≡ (not (sub (address 2) two_used.base == j) && in_use two_used j))))
put_lem_example = put_lem two_used (address 2)

put-get_example :
    (p'' : Ipv4Pool) × (put two_used (address 2) ≡ some p'')
    × ((j : ℕ) → in_use p'' j ≡ in_use one_used j)
put-get_example =
    put-get one_used two_used (address 2) (omega arith) (omega arith) first_offset get-one_used

reset_lem_example :
    ((j : ℕ) → in_use (reset all_used (address 9) 24) j ≡ false)
    × Words64 (reset all_used (address 9) 24).bits
    × ((reset all_used (address 9) 24).base ≡ address 9)
reset_lem_example = reset_lem all_used (address 9) 24
