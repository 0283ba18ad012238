-- ===== src/Wasicall/Tests/Unsigned.antt =====
-- A concrete instance of the types of wasi-go, for the tests.
use mathlib.Core.HLevel.{Σ_prop_path}
use native.Mathlib.Bridge.{le_prop}
use timecraft.Common.{arith, refl, ℕ, ◌%◌, ◌<◌, ◌^◌, ◌≡◌}
use timecraft.Wasicall.Wasi.{Scalar32, Scalar64, Wasi}

-- Unsigned words of 32 and 64 bits, with the bound as a proof.
abbrev pub U32 : Type 0
U32 = (n : ℕ) × (n < 2 ^ 32)

abbrev pub U64 : Type 0
U64 = (n : ℕ) × (n < 2 ^ 64)

pub u32_back : (x : U32) → ◌≡◌ {A = U32} (x.0 % 2 ^ 32, omega arith) x
u32_back x = Σ_prop_path (λ n. le_prop) (omega (arith, x.1))

pub u64_back : (x : U64) → ◌≡◌ {A = U64} (x.0 % 2 ^ 64, omega arith) x
u64_back x = Σ_prop_path (λ n. le_prop) (omega (arith, x.1))

abbrev pub u32_scalar : Scalar32
u32_scalar = record {
  Carrier = U32;
  to_word = λ x. x.0;
  of_word = λ n. (n % 2 ^ 32, omega arith);
  to_word-lt = λ x. x.1;
  of_word-to_word = u32_back;
  to_word-zero = refl;
}

abbrev pub u64_scalar : Scalar64
u64_scalar = record {
  Carrier = U64;
  to_word = λ x. x.0;
  of_word = λ n. (n % 2 ^ 64, omega arith);
  to_word-lt = λ x. x.1;
  of_word-to_word = u64_back;
  to_word-zero = refl;
}

abbrev pub u32 : (n : ℕ) → n < 2 ^ 32 → U32
u32 n h = (n, h)

-- The numbers of WASI preview 1 and of wasi-go's sockets; a union is a descriptor and a clock.
instance abbrev pub unsigned : Wasi
unsigned = record {
  errno = u32_scalar;
  fd = u32_scalar;
  clock_id = u32_scalar;
  file_type = u32_scalar;
  fd_flags = u32_scalar;
  fst_flags = u32_scalar;
  advice = u32_scalar;
  exit_code = u32_scalar;
  signal = u32_scalar;
  pre_open_type = u32_scalar;
  event_type = u32_scalar;
  subscription_clock_flags = u32_scalar;
  event_fd_read_write_flags = u32_scalar;
  whence = u32_scalar;
  lookup_flags = u32_scalar;
  open_flags = u32_scalar;
  ri_flags = u32_scalar;
  ro_flags = u32_scalar;
  si_flags = u32_scalar;
  sd_flags = u32_scalar;
  protocol_family = u32_scalar;
  socket_type = u32_scalar;
  protocol = u32_scalar;
  address_info_flags = u32_scalar;
  timestamp = u64_scalar;
  rights = u64_scalar;
  file_size = u64_scalar;
  device = u64_scalar;
  inode = u64_scalar;
  link_count = u64_scalar;
  user_data = u64_scalar;
  dir_cookie = u64_scalar;
  file_delta = u64_scalar;
  socket_option = u64_scalar;
  esuccess = u32 0 (omega arith);
  enosys = u32 52 (omega arith);
  clock_event = u32 0 (omega arith);
  fd_read_event = u32 1 (omega arith);
  fd_write_event = u32 2 (omega arith);
  inet_family = u32 1 (omega arith);
  inet6_family = u32 2 (omega arith);
  unix_family = u32 3 (omega arith);
  inet-ne-zero = omega arith;
  inet6-ne-zero = omega arith;
  unix-ne-zero = omega arith;
  inet-ne-inet6 = omega arith;
  inet-ne-unix = omega arith;
  inet6-ne-unix = omega arith;
  Variant = U32 × (U32 × U64 × U64 × U32);
  zero_variant = (
    u32 0 (omega arith),
    (u32 0 (omega arith), (0, omega arith), (0, omega arith), u32 0 (omega arith)),
  );
  get_fd_read_write = λ v. v.0;
  set_fd_read_write = λ fd v. (fd, v.1);
  get_clock = λ v. v.1;
  set_clock = λ c v. (v.0, c);
}
