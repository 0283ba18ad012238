-- ===== src/Wasicall/Calls/Sock.antt =====
-- internal/timemachine/wasicall/codec.go: the Codec methods of sockets: connections and transfers.
pub mod RoundTrip
use timecraft.Common.{List, ℕ}
use timecraft.Common.Int.{ℤ}
use timecraft.Common.Result.{Result, ok, ◌>>=◌}
use timecraft.Wasicall.Iovecs.{encode_iovecs_prefix}
use timecraft.Wasicall.Lists.{decode_iovecs, encode_iovecs}
use timecraft.Wasicall.Scalars.{
  decode_errno, decode_fd, decode_fd_flags, decode_protocol, decode_protocol_family,
  decode_ri_flags, decode_rights, decode_ro_flags, decode_sd_flags, decode_si_flags, decode_size,
  decode_socket_type, encode_errno, encode_fd, encode_fd_flags, encode_protocol,
  encode_protocol_family, encode_ri_flags, encode_rights, encode_ro_flags, encode_sd_flags,
  encode_si_flags, encode_size, encode_socket_type,
}
use timecraft.Wasicall.Sockets.{SocketAddress, decode_socket_address, encode_socket_address}
use timecraft.Wasicall.Wasi.{
  Errno, Fd, FdFlags, Protocol, ProtocolFamily, RiFlags, Rights, RoFlags, SdFlags, SiFlags,
  SocketType, Wasi,
}
use timecraft.Wasicall.Words.{CodecError, decode_int, encode_int}

module _ ⦃w : Wasi⦄ where
  unfoldable pub encode_sock_accept :
      List ℕ → Fd → FdFlags → Fd → SocketAddress → SocketAddress → Errno → List ℕ
  encode_sock_accept buffer fd flags newfd peer addr errno =
      let buffer = encode_errno buffer errno in
      let buffer = encode_fd buffer fd in
      let buffer = encode_fd_flags buffer flags in
      let buffer = encode_fd buffer newfd in
      let buffer = encode_socket_address buffer peer in encode_socket_address buffer addr

  unfoldable pub decode_sock_accept :
      List ℕ → Result CodecError (Fd × FdFlags × Fd × SocketAddress × SocketAddress × Errno)
  decode_sock_accept buffer = do
    (errno, buffer) ← decode_errno buffer
    (fd, buffer) ← decode_fd buffer
    (flags, buffer) ← decode_fd_flags buffer
    (newfd, buffer) ← decode_fd buffer
    (peer, buffer) ← decode_socket_address buffer
    (addr, _) ← decode_socket_address buffer
    ok (fd, flags, newfd, peer, addr, errno)

  unfoldable pub encode_sock_recv :
      List ℕ → Fd → List (List ℕ) → RiFlags → ℕ → RoFlags → Errno → List ℕ
  encode_sock_recv buffer fd iovecs iflags size oflags errno =
      let buffer = encode_errno buffer errno in
      let buffer = encode_fd buffer fd in
      let buffer = encode_iovecs_prefix buffer iovecs size in
      let buffer = encode_ri_flags buffer iflags in
      let buffer = encode_size buffer size in encode_ro_flags buffer oflags

  unfoldable pub decode_sock_recv :
      List ℕ → Result CodecError (Fd × List (List ℕ) × RiFlags × ℕ × RoFlags × Errno)
  decode_sock_recv buffer = do
    (errno, buffer) ← decode_errno buffer
    (fd, buffer) ← decode_fd buffer
    (iovecs, buffer) ← decode_iovecs buffer
    (iflags, buffer) ← decode_ri_flags buffer
    (size, buffer) ← decode_size buffer
    (oflags, _) ← decode_ro_flags buffer
    ok (fd, iovecs, iflags, size, oflags, errno)

  unfoldable pub encode_sock_send : List ℕ → Fd → List (List ℕ) → SiFlags → ℕ → Errno → List ℕ
  encode_sock_send buffer fd iovecs flags size errno =
      let buffer = encode_errno buffer errno in
      let buffer = encode_fd buffer fd in
      let buffer = encode_iovecs buffer iovecs in
      let buffer = encode_si_flags buffer flags in encode_size buffer size

  unfoldable pub decode_sock_send :
      List ℕ → Result CodecError (Fd × List (List ℕ) × SiFlags × ℕ × Errno)
  decode_sock_send buffer = do
    (errno, buffer) ← decode_errno buffer
    (fd, buffer) ← decode_fd buffer
    (iovecs, buffer) ← decode_iovecs buffer
    (flags, buffer) ← decode_si_flags buffer
    (size, _) ← decode_size buffer
    ok (fd, iovecs, flags, size, errno)

  unfoldable pub encode_sock_shutdown : List ℕ → Fd → SdFlags → Errno → List ℕ
  encode_sock_shutdown buffer fd flags errno =
      let buffer = encode_errno buffer errno in
      let buffer = encode_fd buffer fd in encode_sd_flags buffer flags

  unfoldable pub decode_sock_shutdown : List ℕ → Result CodecError (Fd × SdFlags × Errno)
  decode_sock_shutdown buffer = do
    (errno, buffer) ← decode_errno buffer
    (fd, buffer) ← decode_fd buffer
    (flags, _) ← decode_sd_flags buffer
    ok (fd, flags, errno)

  unfoldable pub encode_sock_open :
      List ℕ → ProtocolFamily → SocketType → Protocol → Rights → Rights → Fd → Errno → List ℕ
  encode_sock_open buffer family socket_type protocol rights_base rights_inheriting fd errno =
      let buffer = encode_errno buffer errno in
      let buffer = encode_protocol_family buffer family in
      let buffer = encode_socket_type buffer socket_type in
      let buffer = encode_protocol buffer protocol in
      let buffer = encode_rights buffer rights_base in
      let buffer = encode_rights buffer rights_inheriting in encode_fd buffer fd

  unfoldable pub decode_sock_open :
      List ℕ
      → Result CodecError (ProtocolFamily × SocketType × Protocol × Rights × Rights × Fd × Errno)
  decode_sock_open buffer = do
    (errno, buffer) ← decode_errno buffer
    (family, buffer) ← decode_protocol_family buffer
    (socket_type, buffer) ← decode_socket_type buffer
    (protocol, buffer) ← decode_protocol buffer
    (rights_base, buffer) ← decode_rights buffer
    (rights_inheriting, buffer) ← decode_rights buffer
    (fd, _) ← decode_fd buffer
    ok (family, socket_type, protocol, rights_base, rights_inheriting, fd, errno)

  unfoldable pub encode_sock_bind : List ℕ → Fd → SocketAddress → SocketAddress → Errno → List ℕ
  encode_sock_bind buffer fd bind addr errno =
      let buffer = encode_errno buffer errno in
      let buffer = encode_fd buffer fd in
      let buffer = encode_socket_address buffer bind in encode_socket_address buffer addr

  unfoldable pub decode_sock_bind :
      List ℕ → Result CodecError (Fd × SocketAddress × SocketAddress × Errno)
  decode_sock_bind buffer = do
    (errno, buffer) ← decode_errno buffer
    (fd, buffer) ← decode_fd buffer
    (bind, buffer) ← decode_socket_address buffer
    (addr, _) ← decode_socket_address buffer
    ok (fd, bind, addr, errno)

  unfoldable pub encode_sock_connect : List ℕ → Fd → SocketAddress → SocketAddress → Errno → List ℕ
  encode_sock_connect buffer fd peer addr errno =
      let buffer = encode_errno buffer errno in
      let buffer = encode_fd buffer fd in
      let buffer = encode_socket_address buffer peer in encode_socket_address buffer addr

  unfoldable pub decode_sock_connect :
      List ℕ → Result CodecError (Fd × SocketAddress × SocketAddress × Errno)
  decode_sock_connect buffer = do
    (errno, buffer) ← decode_errno buffer
    (fd, buffer) ← decode_fd buffer
    (peer, buffer) ← decode_socket_address buffer
    (addr, _) ← decode_socket_address buffer
    ok (fd, peer, addr, errno)

  unfoldable pub encode_sock_listen : List ℕ → Fd → ℤ → Errno → List ℕ
  encode_sock_listen buffer fd backlog errno =
      let buffer = encode_errno buffer errno in
      let buffer = encode_fd buffer fd in encode_int buffer backlog

  unfoldable pub decode_sock_listen : List ℕ → Result CodecError (Fd × ℤ × Errno)
  decode_sock_listen buffer = do
    (errno, buffer) ← decode_errno buffer
    (fd, buffer) ← decode_fd buffer
    (backlog, _) ← decode_int buffer
    ok (fd, backlog, errno)

  unfoldable pub encode_sock_send_to :
      List ℕ → Fd → List (List ℕ) → SiFlags → SocketAddress → ℕ → Errno → List ℕ
  encode_sock_send_to buffer fd iovecs iflags addr size errno =
      let buffer = encode_errno buffer errno in
      let buffer = encode_fd buffer fd in
      let buffer = encode_iovecs buffer iovecs in
      let buffer = encode_si_flags buffer iflags in
      let buffer = encode_socket_address buffer addr in encode_size buffer size

  unfoldable pub decode_sock_send_to :
      List ℕ → Result CodecError (Fd × List (List ℕ) × SiFlags × SocketAddress × ℕ × Errno)
  decode_sock_send_to buffer = do
    (errno, buffer) ← decode_errno buffer
    (fd, buffer) ← decode_fd buffer
    (iovecs, buffer) ← decode_iovecs buffer
    (iflags, buffer) ← decode_si_flags buffer
    (addr, buffer) ← decode_socket_address buffer
    (size, _) ← decode_size buffer
    ok (fd, iovecs, iflags, addr, size, errno)

  unfoldable pub encode_sock_recv_from :
      List ℕ → Fd → List (List ℕ) → RiFlags → ℕ → RoFlags → SocketAddress → Errno → List ℕ
  encode_sock_recv_from buffer fd iovecs iflags size oflags addr errno =
      let buffer = encode_errno buffer errno in
      let buffer = encode_fd buffer fd in
      let buffer = encode_iovecs_prefix buffer iovecs size in
      let buffer = encode_ri_flags buffer iflags in
      let buffer = encode_size buffer size in
      let buffer = encode_ro_flags buffer oflags in encode_socket_address buffer addr

  unfoldable pub decode_sock_recv_from :
      List ℕ
      → Result CodecError (Fd × List (List ℕ) × RiFlags × ℕ × RoFlags × SocketAddress × Errno)
  decode_sock_recv_from buffer = do
    (errno, buffer) ← decode_errno buffer
    (fd, buffer) ← decode_fd buffer
    (iovecs, buffer) ← decode_iovecs buffer
    (iflags, buffer) ← decode_ri_flags buffer
    (size, buffer) ← decode_size buffer
    (oflags, buffer) ← decode_ro_flags buffer
    (addr, _) ← decode_socket_address buffer
    ok (fd, iovecs, iflags, size, oflags, addr, errno)
