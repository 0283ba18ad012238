-- ===== src/Wasicall/Calls/SockInfo.antt =====
-- internal/timemachine/wasicall/codec.go: the Codec methods of sockets: options and addresses.
pub mod RoundTrip
use timecraft.Common.{List, ℕ}
use timecraft.Common.Result.{Result, ok, ◌>>=◌}
use timecraft.Wasicall.Scalars.{
  decode_errno, decode_fd, decode_socket_option, encode_errno, encode_fd, encode_socket_option,
}
use timecraft.Wasicall.Sockets.{
  AddressInfo, SocketAddress, SocketOptionValue, decode_address_info, decode_address_infos,
  decode_socket_address, decode_socket_option_value, encode_address_info, encode_address_infos,
  encode_socket_address, encode_socket_option_value,
}
use timecraft.Wasicall.Wasi.{Errno, Fd, SocketOption, Wasi}
use timecraft.Wasicall.Words.{CodecError, decode_string, encode_string}

module _ ⦃w : Wasi⦄ where
  unfoldable pub encode_sock_get_opt :
      List ℕ → Fd → SocketOption → SocketOptionValue → Errno → List ℕ
  encode_sock_get_opt buffer fd option value errno =
      let buffer = encode_errno buffer errno in
      let buffer = encode_fd buffer fd in
      let buffer = encode_socket_option buffer option in encode_socket_option_value buffer value

  unfoldable pub decode_sock_get_opt :
      List ℕ → Result CodecError (Fd × SocketOption × SocketOptionValue × Errno)
  decode_sock_get_opt buffer = do
    (errno, buffer) ← decode_errno buffer
    (fd, buffer) ← decode_fd buffer
    (option, buffer) ← decode_socket_option buffer
    (value, _) ← decode_socket_option_value buffer
    ok (fd, option, value, errno)

  unfoldable pub encode_sock_set_opt :
      List ℕ → Fd → SocketOption → SocketOptionValue → Errno → List ℕ
  encode_sock_set_opt buffer fd option value errno =
      let buffer = encode_errno buffer errno in
      let buffer = encode_fd buffer fd in
      let buffer = encode_socket_option buffer option in encode_socket_option_value buffer value

  unfoldable pub decode_sock_set_opt :
      List ℕ → Result CodecError (Fd × SocketOption × SocketOptionValue × Errno)
  decode_sock_set_opt buffer = do
    (errno, buffer) ← decode_errno buffer
    (fd, buffer) ← decode_fd buffer
    (option, buffer) ← decode_socket_option buffer
    (value, _) ← decode_socket_option_value buffer
    ok (fd, option, value, errno)

  unfoldable pub encode_sock_local_address : List ℕ → Fd → SocketAddress → Errno → List ℕ
  encode_sock_local_address buffer fd addr errno =
      let buffer = encode_errno buffer errno in
      let buffer = encode_fd buffer fd in encode_socket_address buffer addr

  unfoldable pub decode_sock_local_address : List ℕ → Result CodecError (Fd × SocketAddress × Errno)
  decode_sock_local_address buffer = do
    (errno, buffer) ← decode_errno buffer
    (fd, buffer) ← decode_fd buffer
    (addr, _) ← decode_socket_address buffer
    ok (fd, addr, errno)

  unfoldable pub encode_sock_remote_address : List ℕ → Fd → SocketAddress → Errno → List ℕ
  encode_sock_remote_address buffer fd addr errno =
      let buffer = encode_errno buffer errno in
      let buffer = encode_fd buffer fd in encode_socket_address buffer addr

  unfoldable pub decode_sock_remote_address :
      List ℕ → Result CodecError (Fd × SocketAddress × Errno)
  decode_sock_remote_address buffer = do
    (errno, buffer) ← decode_errno buffer
    (fd, buffer) ← decode_fd buffer
    (addr, _) ← decode_socket_address buffer
    ok (fd, addr, errno)

  unfoldable pub encode_sock_address_info :
      List ℕ → List ℕ → List ℕ → AddressInfo → List AddressInfo → Errno → List ℕ
  encode_sock_address_info buffer name service hint results errno =
      let buffer = encode_errno buffer errno in
      let buffer = encode_string buffer name in
      let buffer = encode_string buffer service in
      let buffer = encode_address_info buffer hint in encode_address_infos buffer results

  unfoldable pub decode_sock_address_info :
      List ℕ → Result CodecError (List ℕ × List ℕ × AddressInfo × List AddressInfo × Errno)
  decode_sock_address_info buffer = do
    (errno, buffer) ← decode_errno buffer
    (name, buffer) ← decode_string buffer
    (service, buffer) ← decode_string buffer
    (hint, buffer) ← decode_address_info buffer
    (results, _) ← decode_address_infos buffer
    ok (name, service, hint, results, errno)
