-- ===== src/Wasicall/Sockets.antt =====
-- internal/timemachine/wasicall/codec.go: SocketAddress, SocketOptionValue and AddressInfo. The
-- two interfaces are data types of the implementations that the type switches name; the branch
-- that panics on any other implementation has no counterpart.
pub mod RoundTrip
use timecraft.Common.{Bool, List, drop, if◌then◌else◌, length, ltb, suc, take, zero, ℕ, ◌++◌, ◌==◌}
use timecraft.Common.Int.{pos, ℤ}
use timecraft.Common.Result.{err, ok, ◌>>=◌}
use timecraft.Wasicall.Lists.{decode_list, encode_list}
use timecraft.Wasicall.Scalars.{
  decode_address_info_flags, decode_protocol, decode_protocol_family, decode_socket_type,
  encode_address_info_flags, encode_protocol, encode_protocol_family, encode_socket_type,
}
use timecraft.Wasicall.Wasi.{AddressInfoFlags, Protocol, ProtocolFamily, SocketType, Wasi}
use timecraft.Wasicall.Words.{
  Decoded, decode_bytes, decode_int, decode_string, encode_bytes, encode_int, encode_string,
  invalid_ipv4_length, invalid_ipv6_length, invalid_option_value_type, invalid_protocol_family,
}

module _ ⦃w : Wasi⦄ where
  -- `no_address` is the nil interface; an IP address is its four or sixteen bytes.
  pub data SocketAddress : Type 0 where
    no_address : SocketAddress
    inet4_address : ℤ → List ℕ → SocketAddress
    inet6_address : ℤ → List ℕ → SocketAddress
    unix_address : List ℕ → SocketAddress

  pub data SocketOptionValue : Type 0 where
    no_value : SocketOptionValue
    int_value : ℤ → SocketOptionValue
    bytes_value : List ℕ → SocketOptionValue

  pub record AddressInfo : Type 0 where
    pub flags : AddressInfoFlags
    pub family : ProtocolFamily
    pub socket_type : SocketType
    pub protocol : Protocol
    pub address : SocketAddress
    pub canonical_name : List ℕ

  -- Go's == on two values of the type.
  abbrev same_family : ProtocolFamily → ProtocolFamily → Bool
  same_family f g = w.protocol_family.to_word f == w.protocol_family.to_word g

  unfoldable pub encode_socket_address : List ℕ → SocketAddress → List ℕ
  encode_socket_address buffer no_address =
      encode_protocol_family buffer (w.protocol_family.of_word 0)
  encode_socket_address buffer (inet4_address port addr) =
      let buffer = encode_protocol_family buffer w.inet_family in
      let buffer = encode_int buffer port in buffer ++ addr
  encode_socket_address buffer (inet6_address port addr) =
      let buffer = encode_protocol_family buffer w.inet6_family in
      let buffer = encode_int buffer port in buffer ++ addr
  encode_socket_address buffer (unix_address name) =
      let buffer = encode_protocol_family buffer w.unix_family in encode_string buffer name

  unfoldable pub decode_inet4_address : List ℕ → Decoded SocketAddress
  decode_inet4_address buffer = do
    (port, buffer) ← decode_int buffer
    if ltb (length buffer) 4
        then err invalid_ipv4_length
        else ok (inet4_address port (take 4 buffer), drop 4 buffer)

  unfoldable pub decode_inet6_address : List ℕ → Decoded SocketAddress
  decode_inet6_address buffer = do
    (port, buffer) ← decode_int buffer
    if ltb (length buffer) 16
        then err invalid_ipv6_length
        else ok (inet6_address port (take 16 buffer), drop 16 buffer)

  unfoldable pub decode_unix_address : List ℕ → Decoded SocketAddress
  decode_unix_address buffer = do
    (name, buffer) ← decode_string buffer
    ok (unix_address name, buffer)

  -- The switch on the family, whose cases the three functions above are.
  unfoldable pub decode_family : ProtocolFamily → List ℕ → Decoded SocketAddress
  decode_family f buffer =
      if w.protocol_family.to_word f == 0
      then ok (no_address, buffer)
      else if same_family f w.inet_family
      then decode_inet4_address buffer
      else if same_family f w.inet6_family
      then decode_inet6_address buffer
      else if same_family f w.unix_family
      then decode_unix_address buffer
      else err invalid_protocol_family

  unfoldable pub decode_socket_address : List ℕ → Decoded SocketAddress
  decode_socket_address buffer = do
    (f, buffer) ← decode_protocol_family buffer
    decode_family f buffer

  unfoldable pub encode_socket_option_value : List ℕ → SocketOptionValue → List ℕ
  encode_socket_option_value buffer no_value = encode_int buffer (pos 0)
  encode_socket_option_value buffer (int_value v) =
      let buffer = encode_int buffer (pos 1) in encode_int buffer v
  encode_socket_option_value buffer (bytes_value v) =
      let buffer = encode_int buffer (pos 2) in encode_bytes buffer v

  -- The switch on the type tag: sockoptNil, sockoptInt and sockoptBytes.
  unfoldable pub decode_tagged : ℤ → List ℕ → Decoded SocketOptionValue
  decode_tagged (pos zero) buffer = ok (no_value, buffer)
  decode_tagged (pos (suc zero)) buffer = do
    (v, buffer) ← decode_int buffer
    ok (int_value v, buffer)
  decode_tagged (pos (suc (suc zero))) buffer = do
    (v, buffer) ← decode_bytes buffer
    ok (bytes_value v, buffer)
  decode_tagged typ buffer = err invalid_option_value_type

  unfoldable pub decode_socket_option_value : List ℕ → Decoded SocketOptionValue
  decode_socket_option_value buffer = do (typ, buffer) ← decode_int buffer; decode_tagged typ buffer

  unfoldable pub encode_address_info : List ℕ → AddressInfo → List ℕ
  encode_address_info buffer a =
      let buffer = encode_address_info_flags buffer a.flags in
      let buffer = encode_protocol_family buffer a.family in
      let buffer = encode_socket_type buffer a.socket_type in
      let buffer = encode_protocol buffer a.protocol in
      let buffer = encode_socket_address buffer a.address in encode_string buffer a.canonical_name

  unfoldable pub decode_address_info : List ℕ → Decoded AddressInfo
  decode_address_info buffer = do
    (flags, buffer) ← decode_address_info_flags buffer
    (family, buffer) ← decode_protocol_family buffer
    (socket_type, buffer) ← decode_socket_type buffer
    (protocol, buffer) ← decode_protocol buffer
    (address, buffer) ← decode_socket_address buffer
    (canonical_name, buffer) ← decode_string buffer
    ok (
      record {
        flags = flags;
        family = family;
        socket_type = socket_type;
        protocol = protocol;
        address = address;
        canonical_name = canonical_name;
      },
      buffer,
    )

  abbrev pub encode_address_infos : List ℕ → List AddressInfo → List ℕ
  encode_address_infos = encode_list encode_address_info

  abbrev pub decode_address_infos : List ℕ → Decoded (List AddressInfo)
  decode_address_infos = decode_list decode_address_info
