-- ===== src/Wasicall/Calls/Sock/RoundTrip.antt =====
-- The round trips of the codec of sockets: connections and transfers.
use timecraft.Common.{List, [], arith, length, refl, ℕ, ◌++◌, ◌<◌, ◌^◌, ◌≡◌}
use timecraft.Common.Int.{ℤ}
use timecraft.Common.Result.{ok}
use timecraft.Wasicall.Calls.Sock.{
  decode_sock_accept, decode_sock_bind, decode_sock_connect, decode_sock_listen, decode_sock_open,
  decode_sock_recv, decode_sock_recv_from, decode_sock_send, decode_sock_send_to,
  decode_sock_shutdown, encode_sock_accept, encode_sock_bind, encode_sock_connect,
  encode_sock_listen, encode_sock_open, encode_sock_recv, encode_sock_recv_from, encode_sock_send,
  encode_sock_send_to, encode_sock_shutdown,
}
use timecraft.Wasicall.Iovecs.Prefix.{
  encode_iovecs_prefix-recorded, length-recorded_iovecs, recorded_iovecs, total,
}
use timecraft.Wasicall.Lists.{bytes_list, encode_iovecs-append}
use timecraft.Wasicall.Sockets.{SocketAddress}
use timecraft.Wasicall.Sockets.RoundTrip.{IsAddress, address_codec, encode_socket_address-append}
use timecraft.Wasicall.Wasi.{
  Errno, Fd, FdFlags, Protocol, ProtocolFamily, RiFlags, Rights, RoFlags, SdFlags, SiFlags,
  SocketType, Wasi,
}
use timecraft.Wasicall.Words.RoundTrip.{
  Fits, IsInt64, appended, int_codec, read_then, scalar32, scalar64, u32_codec,
}

module _ ⦃w : Wasi⦄ where
  pub sock_accept_lem :
      (fd : Fd) (flags : FdFlags) (newfd : Fd) (peer : SocketAddress) (addr : SocketAddress)
      (errno : Errno) (rest : List ℕ)
      → IsAddress peer
      → IsAddress addr
      → Fits (encode_sock_accept [] fd flags newfd peer addr errno ++ rest)
      → decode_sock_accept (encode_sock_accept [] fd flags newfd peer addr errno ++ rest)
        ≡ ok (fd, flags, newfd, peer, addr, errno)
  unfolding encode_sock_accept decode_sock_accept
  sock_accept_lem fd flags newfd peer addr errno rest valid_peer valid_addr fits =
      let fits = simp (appended, encode_socket_address-append) at fits in
      simp (appended, encode_socket_address-append)
        (read_then (scalar32 w.errno) errno _ tt fits λ fits.
          read_then (scalar32 w.fd) fd _ tt fits λ fits.
            read_then (scalar32 w.fd_flags) flags _ tt fits λ fits.
              read_then (scalar32 w.fd) newfd _ tt fits λ fits.
                read_then address_codec peer _ valid_peer fits
                  λ fits. read_then address_codec addr _ valid_addr fits λ fits. refl)

  pub sock_recv_lem :
      (fd : Fd) (iovecs : List (List ℕ)) (iflags : RiFlags) (size : ℕ) (oflags : RoFlags)
      (errno : Errno) (rest : List ℕ)
      → length iovecs < 2 ^ 32
      → total iovecs < 2 ^ 32
      → size < 2 ^ 32
      → Fits (encode_sock_recv [] fd iovecs iflags size oflags errno ++ rest)
      → decode_sock_recv (encode_sock_recv [] fd iovecs iflags size oflags errno ++ rest)
        ≡ ok (fd, recorded_iovecs iovecs size, iflags, size, oflags, errno)
  unfolding encode_sock_recv decode_sock_recv
  sock_recv_lem fd iovecs iflags size oflags errno rest short_iovecs total_iovecs valid_size fits =
      let prefix =
        λ (buffer : List ℕ). encode_iovecs_prefix-recorded buffer iovecs size total_iovecs in
      let fits = simp (prefix, appended, encode_iovecs-append) at fits in
      simp (prefix, appended, encode_iovecs-append)
        (read_then (scalar32 w.errno) errno _ tt fits λ fits.
          read_then (scalar32 w.fd) fd _ tt fits λ fits.
            read_then bytes_list (recorded_iovecs iovecs size) _
              (omega (arith, length-recorded_iovecs iovecs size)) fits
              λ fits. read_then (scalar32 w.ri_flags) iflags _ tt fits λ fits.
                read_then u32_codec size _ valid_size fits
                  λ fits. read_then (scalar32 w.ro_flags) oflags _ tt fits λ fits. refl)

  pub sock_send_lem :
      (fd : Fd) (iovecs : List (List ℕ)) (flags : SiFlags) (size : ℕ) (errno : Errno)
      (rest : List ℕ)
      → length iovecs < 2 ^ 32
      → size < 2 ^ 32
      → Fits (encode_sock_send [] fd iovecs flags size errno ++ rest)
      → decode_sock_send (encode_sock_send [] fd iovecs flags size errno ++ rest)
        ≡ ok (fd, iovecs, flags, size, errno)
  unfolding encode_sock_send decode_sock_send
  sock_send_lem fd iovecs flags size errno rest valid_iovecs valid_size fits =
      let fits = simp (appended, encode_iovecs-append) at fits in
      simp (appended, encode_iovecs-append)
        (read_then (scalar32 w.errno) errno _ tt fits λ fits.
          read_then (scalar32 w.fd) fd _ tt fits λ fits.
            read_then bytes_list iovecs _ valid_iovecs fits λ fits.
              read_then (scalar32 w.si_flags) flags _ tt fits
                λ fits. read_then u32_codec size _ valid_size fits λ fits. refl)

  pub sock_shutdown_lem :
      (fd : Fd) (flags : SdFlags) (errno : Errno) (rest : List ℕ)
      → Fits (encode_sock_shutdown [] fd flags errno ++ rest)
      → decode_sock_shutdown (encode_sock_shutdown [] fd flags errno ++ rest)
        ≡ ok (fd, flags, errno)
  unfolding encode_sock_shutdown decode_sock_shutdown
  sock_shutdown_lem fd flags errno rest fits =
      let fits = simp appended at fits in
      simp appended (
        read_then (scalar32 w.errno) errno _ tt fits λ fits.
          read_then (scalar32 w.fd) fd _ tt fits
            λ fits. read_then (scalar32 w.sd_flags) flags _ tt fits λ fits. refl)

  pub sock_open_lem :
      (family : ProtocolFamily) (socket_type : SocketType) (protocol : Protocol)
      (rights_base : Rights) (rights_inheriting : Rights) (fd : Fd) (errno : Errno) (rest : List ℕ)
      → Fits (
          encode_sock_open [] family socket_type protocol rights_base rights_inheriting fd errno
          ++ rest)
      → decode_sock_open (
          encode_sock_open [] family socket_type protocol rights_base rights_inheriting fd errno
          ++ rest)
        ≡ ok (family, socket_type, protocol, rights_base, rights_inheriting, fd, errno)
  unfolding encode_sock_open decode_sock_open
  sock_open_lem family socket_type protocol rights_base rights_inheriting fd errno rest fits =
      let fits = simp appended at fits in
      simp appended (
        read_then (scalar32 w.errno) errno _ tt fits λ fits.
          read_then (scalar32 w.protocol_family) family _ tt fits λ fits.
            read_then (scalar32 w.socket_type) socket_type _ tt fits λ fits.
              read_then (scalar32 w.protocol) protocol _ tt fits λ fits.
                read_then (scalar64 w.rights) rights_base _ tt fits λ fits.
                  read_then (scalar64 w.rights) rights_inheriting _ tt fits
                    λ fits. read_then (scalar32 w.fd) fd _ tt fits λ fits. refl)

  pub sock_bind_lem :
      (fd : Fd) (bind : SocketAddress) (addr : SocketAddress) (errno : Errno) (rest : List ℕ)
      → IsAddress bind
      → IsAddress addr
      → Fits (encode_sock_bind [] fd bind addr errno ++ rest)
      → decode_sock_bind (encode_sock_bind [] fd bind addr errno ++ rest)
        ≡ ok (fd, bind, addr, errno)
  unfolding encode_sock_bind decode_sock_bind
  sock_bind_lem fd bind addr errno rest valid_bind valid_addr fits =
      let fits = simp (appended, encode_socket_address-append) at fits in
      simp (appended, encode_socket_address-append)
        (read_then (scalar32 w.errno) errno _ tt fits λ fits.
          read_then (scalar32 w.fd) fd _ tt fits λ fits.
            read_then address_codec bind _ valid_bind fits
              λ fits. read_then address_codec addr _ valid_addr fits λ fits. refl)

  pub sock_connect_lem :
      (fd : Fd) (peer : SocketAddress) (addr : SocketAddress) (errno : Errno) (rest : List ℕ)
      → IsAddress peer
      → IsAddress addr
      → Fits (encode_sock_connect [] fd peer addr errno ++ rest)
      → decode_sock_connect (encode_sock_connect [] fd peer addr errno ++ rest)
        ≡ ok (fd, peer, addr, errno)
  unfolding encode_sock_connect decode_sock_connect
  sock_connect_lem fd peer addr errno rest valid_peer valid_addr fits =
      let fits = simp (appended, encode_socket_address-append) at fits in
      simp (appended, encode_socket_address-append)
        (read_then (scalar32 w.errno) errno _ tt fits λ fits.
          read_then (scalar32 w.fd) fd _ tt fits λ fits.
            read_then address_codec peer _ valid_peer fits
              λ fits. read_then address_codec addr _ valid_addr fits λ fits. refl)

  pub sock_listen_lem :
      (fd : Fd) (backlog : ℤ) (errno : Errno) (rest : List ℕ)
      → IsInt64 backlog
      → Fits (encode_sock_listen [] fd backlog errno ++ rest)
      → decode_sock_listen (encode_sock_listen [] fd backlog errno ++ rest)
        ≡ ok (fd, backlog, errno)
  unfolding encode_sock_listen decode_sock_listen
  sock_listen_lem fd backlog errno rest valid_backlog fits =
      let fits = simp appended at fits in
      simp appended (
        read_then (scalar32 w.errno) errno _ tt fits λ fits.
          read_then (scalar32 w.fd) fd _ tt fits
            λ fits. read_then int_codec backlog _ valid_backlog fits λ fits. refl)

  pub sock_send_to_lem :
      (fd : Fd) (iovecs : List (List ℕ)) (iflags : SiFlags) (addr : SocketAddress) (size : ℕ)
      (errno : Errno) (rest : List ℕ)
      → length iovecs < 2 ^ 32
      → IsAddress addr
      → size < 2 ^ 32
      → Fits (encode_sock_send_to [] fd iovecs iflags addr size errno ++ rest)
      → decode_sock_send_to (encode_sock_send_to [] fd iovecs iflags addr size errno ++ rest)
        ≡ ok (fd, iovecs, iflags, addr, size, errno)
  unfolding encode_sock_send_to decode_sock_send_to
  sock_send_to_lem fd iovecs iflags addr size errno rest valid_iovecs valid_addr valid_size fits =
      let fits = simp (appended, encode_iovecs-append, encode_socket_address-append) at fits in
      simp (appended, encode_iovecs-append, encode_socket_address-append)
        (read_then (scalar32 w.errno) errno _ tt fits λ fits.
          read_then (scalar32 w.fd) fd _ tt fits λ fits.
            read_then bytes_list iovecs _ valid_iovecs fits λ fits.
              read_then (scalar32 w.si_flags) iflags _ tt fits λ fits.
                read_then address_codec addr _ valid_addr fits
                  λ fits. read_then u32_codec size _ valid_size fits λ fits. refl)

  pub sock_recv_from_lem :
      (fd : Fd) (iovecs : List (List ℕ)) (iflags : RiFlags) (size : ℕ) (oflags : RoFlags)
      (addr : SocketAddress) (errno : Errno) (rest : List ℕ)
      → length iovecs < 2 ^ 32
      → total iovecs < 2 ^ 32
      → size < 2 ^ 32
      → IsAddress addr
      → Fits (encode_sock_recv_from [] fd iovecs iflags size oflags addr errno ++ rest)
      → decode_sock_recv_from
          (encode_sock_recv_from [] fd iovecs iflags size oflags addr errno ++ rest)
        ≡ ok (fd, recorded_iovecs iovecs size, iflags, size, oflags, addr, errno)
  unfolding encode_sock_recv_from decode_sock_recv_from
  sock_recv_from_lem fd iovecs iflags size oflags addr errno rest short_iovecs total_iovecs
        valid_size valid_addr fits =
      let prefix =
        λ (buffer : List ℕ). encode_iovecs_prefix-recorded buffer iovecs size total_iovecs in
      let fits =
        simp (prefix, appended, encode_iovecs-append, encode_socket_address-append) at fits in
      simp (prefix, appended, encode_iovecs-append, encode_socket_address-append)
        (read_then (scalar32 w.errno) errno _ tt fits λ fits.
          read_then (scalar32 w.fd) fd _ tt fits λ fits.
            read_then bytes_list (recorded_iovecs iovecs size) _
              (omega (arith, length-recorded_iovecs iovecs size)) fits
              λ fits. read_then (scalar32 w.ri_flags) iflags _ tt fits λ fits.
                read_then u32_codec size _ valid_size fits λ fits.
                  read_then (scalar32 w.ro_flags) oflags _ tt fits
                    λ fits. read_then address_codec addr _ valid_addr fits λ fits. refl)
