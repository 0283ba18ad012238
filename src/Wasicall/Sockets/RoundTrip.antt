-- ===== src/Wasicall/Sockets/RoundTrip.antt =====
-- The values of `Sockets` as codecs.
use timecraft.Common.{List, arith, length, length-append, refl, ℕ, ◌++◌, ◌+◌, ◌≡◌}
use timecraft.Common.Int.{pos, ℤ}
use timecraft.Common.Result.{ok}
use timecraft.Wasicall.Lists.{encode_list-append, list_bytes}
use timecraft.Wasicall.Sockets.{
  AddressInfo, SocketAddress, SocketOptionValue, bytes_value, decode_address_info, decode_family,
  decode_inet4_address, decode_inet6_address, decode_socket_address, decode_socket_option_value,
  decode_tagged, decode_unix_address, encode_address_info, encode_address_infos,
  encode_socket_address, encode_socket_option_value, inet4_address, inet6_address, int_value,
  no_address, no_value, unix_address,
}
use timecraft.Wasicall.Wasi.{Wasi}
use timecraft.Wasicall.Words.{le_bytes, uint64}
use timecraft.Wasicall.Words.RoundTrip.{
  Codec, Fits, IsInt64, appended, bytes_codec, drop-length, int_codec, read_then, scalar32,
  sized_bytes, string_codec, take-length,
}

module _ ⦃w : Wasi⦄ where
  -- An address that Go's types allow: a port of 64 bits, and an array of four or sixteen bytes.
  abbrev pub IsAddress : SocketAddress → Type 0
  IsAddress no_address = Unit
  IsAddress (inet4_address port addr) = IsInt64 port × (length addr ≡ 4)
  IsAddress (inet6_address port addr) = IsInt64 port × (length addr ≡ 16)
  IsAddress (unix_address name) = Unit

  pub address_bytes : SocketAddress → List ℕ
  address_bytes no_address = le_bytes 4 (w.protocol_family.to_word (w.protocol_family.of_word 0))
  address_bytes (inet4_address port addr) =
      le_bytes 4 (w.protocol_family.to_word w.inet_family) ++ (le_bytes 8 (uint64 port) ++ addr)
  address_bytes (inet6_address port addr) =
      le_bytes 4 (w.protocol_family.to_word w.inet6_family) ++ (le_bytes 8 (uint64 port) ++ addr)
  address_bytes (unix_address name) =
      le_bytes 4 (w.protocol_family.to_word w.unix_family) ++ sized_bytes name

  pub encode_socket_address-append :
      (buffer : List ℕ) (addr : SocketAddress)
      → encode_socket_address buffer addr ≡ buffer ++ address_bytes addr
  unfolding encode_socket_address address_bytes
  encode_socket_address-append buffer no_address = simp appended
  encode_socket_address-append buffer (inet4_address port addr) = simp appended
  encode_socket_address-append buffer (inet6_address port addr) = simp appended
  encode_socket_address-append buffer (unix_address name) = simp appended

  inet4_lem :
      (port : ℤ) (addr rest : List ℕ)
      → IsInt64 port
      → length addr ≡ 4
      → Fits (le_bytes 8 (uint64 port) ++ (addr ++ rest))
      → decode_inet4_address (le_bytes 8 (uint64 port) ++ (addr ++ rest))
        ≡ ok (inet4_address port addr, rest)
  unfolding decode_inet4_address
  inet4_lem port addr rest valid four fits = read_then int_codec port _ valid fits λ fits.
      let room : length (addr ++ rest) ≡ length addr + length rest = length-append addr rest in
      rw (← four) (rw (take-length, drop-length) (ground (arith, room)))

  inet6_lem :
      (port : ℤ) (addr rest : List ℕ)
      → IsInt64 port
      → length addr ≡ 16
      → Fits (le_bytes 8 (uint64 port) ++ (addr ++ rest))
      → decode_inet6_address (le_bytes 8 (uint64 port) ++ (addr ++ rest))
        ≡ ok (inet6_address port addr, rest)
  unfolding decode_inet6_address
  inet6_lem port addr rest valid sixteen fits = read_then int_codec port _ valid fits λ fits.
      let room : length (addr ++ rest) ≡ length addr + length rest = length-append addr rest in
      rw (← sixteen) (rw (take-length, drop-length) (ground (arith, room)))

  unix_lem :
      (name rest : List ℕ)
      → Fits (sized_bytes name ++ rest)
      → decode_unix_address (sized_bytes name ++ rest) ≡ ok (unix_address name, rest)
  unfolding decode_unix_address
  unix_lem name rest fits = read_then string_codec name _ tt fits λ fits. refl

  pub address_lem :
      (a : SocketAddress) (rest : List ℕ)
      → IsAddress a
      → Fits (address_bytes a ++ rest)
      → decode_socket_address (address_bytes a ++ rest) ≡ ok (a, rest)
  unfolding decode_socket_address decode_family address_bytes
  address_lem no_address rest valid fits =
      read_then (scalar32 w.protocol_family) (w.protocol_family.of_word 0) _ tt fits
        λ fits. ground (arith, w.protocol_family.to_word-zero)
  address_lem (inet4_address port addr) rest (valid, four) fits =
      let fits' = simp appended at fits in
      simp appended (
        read_then (scalar32 w.protocol_family) w.inet_family _ tt fits'
          λ fits. ground (arith, w.inet-ne-zero, inet4_lem port addr rest valid four fits))
  address_lem (inet6_address port addr) rest (valid, sixteen) fits =
      let fits' = simp appended at fits in
      simp appended (
        read_then (scalar32 w.protocol_family) w.inet6_family _ tt fits' λ fits.
          ground
            (arith, w.inet6-ne-zero, w.inet-ne-inet6, inet6_lem port addr rest valid sixteen fits))
  address_lem (unix_address name) rest valid fits =
      let fits' = simp appended at fits in
      simp appended (
        read_then (scalar32 w.protocol_family) w.unix_family _ tt fits' λ fits.
          ground (arith, w.unix-ne-zero, w.inet-ne-unix, w.inet6-ne-unix, unix_lem name rest fits))

  abbrev pub address_codec : Codec SocketAddress
  address_codec = record {
    write = address_bytes;
    read = decode_socket_address;
    IsValid = IsAddress;
    read-write = address_lem;
  }

  abbrev pub IsOptionValue : SocketOptionValue → Type 0
  IsOptionValue no_value = Unit
  IsOptionValue (int_value v) = IsInt64 v
  IsOptionValue (bytes_value v) = Unit

  pub option_value_bytes : SocketOptionValue → List ℕ
  option_value_bytes no_value = le_bytes 8 (uint64 (pos 0))
  option_value_bytes (int_value v) = le_bytes 8 (uint64 (pos 1)) ++ le_bytes 8 (uint64 v)
  option_value_bytes (bytes_value v) = le_bytes 8 (uint64 (pos 2)) ++ sized_bytes v

  pub encode_socket_option_value-append :
      (buffer : List ℕ) (v : SocketOptionValue)
      → encode_socket_option_value buffer v ≡ buffer ++ option_value_bytes v
  unfolding encode_socket_option_value option_value_bytes
  encode_socket_option_value-append buffer no_value = simp appended
  encode_socket_option_value-append buffer (int_value v) = simp appended
  encode_socket_option_value-append buffer (bytes_value v) = simp appended

  pub option_value_lem :
      (v : SocketOptionValue) (rest : List ℕ)
      → IsOptionValue v
      → Fits (option_value_bytes v ++ rest)
      → decode_socket_option_value (option_value_bytes v ++ rest) ≡ ok (v, rest)
  unfolding decode_socket_option_value decode_tagged option_value_bytes
  option_value_lem no_value rest valid fits =
      read_then int_codec (pos 0) _ (omega arith) fits λ fits. refl
  option_value_lem (int_value v) rest valid fits =
      let fits' = simp appended at fits in
      simp appended (
        read_then int_codec (pos 1) _ (omega arith) fits'
          λ fits. read_then int_codec v _ valid fits λ fits. refl)
  option_value_lem (bytes_value v) rest valid fits =
      let fits' = simp appended at fits in
      simp appended (
        read_then int_codec (pos 2) _ (omega arith) fits'
          λ fits. read_then bytes_codec v _ tt fits λ fits. refl)

  abbrev pub option_value_codec : Codec SocketOptionValue
  option_value_codec = record {
    write = option_value_bytes;
    read = decode_socket_option_value;
    IsValid = IsOptionValue;
    read-write = option_value_lem;
  }

  pub address_info_bytes : AddressInfo → List ℕ
  address_info_bytes a =
      le_bytes 4 (w.address_info_flags.to_word a.flags)
      ++ (le_bytes 4 (w.protocol_family.to_word a.family)
          ++ (le_bytes 4 (w.socket_type.to_word a.socket_type)
              ++ (le_bytes 4 (w.protocol.to_word a.protocol)
                  ++ (address_bytes a.address ++ sized_bytes a.canonical_name))))

  pub encode_address_info-append :
      (buffer : List ℕ) (a : AddressInfo)
      → encode_address_info buffer a ≡ buffer ++ address_info_bytes a
  unfolding encode_address_info address_info_bytes
  encode_address_info-append buffer a = simp (appended, encode_socket_address-append)

  pub address_info_lem :
      (a : AddressInfo) (rest : List ℕ)
      → IsAddress a.address
      → Fits (address_info_bytes a ++ rest)
      → decode_address_info (address_info_bytes a ++ rest) ≡ ok (a, rest)
  unfolding decode_address_info address_info_bytes
  address_info_lem a rest valid fits =
      let fits' = simp appended at fits in
      simp appended (
        read_then (scalar32 w.address_info_flags) a.flags _ tt fits' λ fits.
          read_then (scalar32 w.protocol_family) a.family _ tt fits λ fits.
            read_then (scalar32 w.socket_type) a.socket_type _ tt fits λ fits.
              read_then (scalar32 w.protocol) a.protocol _ tt fits λ fits.
                read_then address_codec a.address _ valid fits
                  λ fits. read_then string_codec a.canonical_name _ tt fits λ fits. refl)

  abbrev pub address_info_codec : Codec AddressInfo
  address_info_codec = record {
    write = address_info_bytes;
    read = decode_address_info;
    IsValid = λ a. IsAddress a.address;
    read-write = address_info_lem;
  }

  pub encode_address_infos-append :
      (buffer : List ℕ) (infos : List AddressInfo)
      → encode_address_infos buffer infos ≡ buffer ++ list_bytes address_info_codec infos
  encode_address_infos-append =
      encode_list-append address_info_codec encode_address_info encode_address_info-append
