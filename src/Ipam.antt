-- ===== src/Ipam.antt =====
-- internal/ipam: the pool of addresses of a network, over a set of used offsets.
mod Digits
pub mod Bits
pub mod Bitset
pub mod FirstZero
pub mod Width
pub mod Ipv4
pub mod Ipv6
mod Tests
