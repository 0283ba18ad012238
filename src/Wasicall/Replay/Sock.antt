-- ===== src/Wasicall/Replay/Sock.antt =====
-- internal/timemachine/wasicall/replay.go: the methods of Replay for sockets: connections and transfers.
use timecraft.Common.{List, [], ℕ, ◌∷◌}
use timecraft.Common.Int.{ℤ}
use timecraft.Common.Result.{ok}
use timecraft.Wasicall.Calls.Sock.{
  decode_sock_accept, decode_sock_bind, decode_sock_connect, decode_sock_listen, decode_sock_open,
  decode_sock_recv, decode_sock_recv_from, decode_sock_send, decode_sock_send_to,
  decode_sock_shutdown,
}
use timecraft.Wasicall.Replay.Equal.{
  equal_iovecs, equal_iovecs_shape_prefix, equal_socket_address, same_int,
}
use timecraft.Wasicall.Replay.State.{Replay, checked, copy_each, filling, replaying}
use timecraft.Wasicall.Sockets.{SocketAddress, no_address}
use timecraft.Wasicall.Syscall.Ids.{SyscallId}
use timecraft.Wasicall.System.{none_fd, same, zero_of}
use timecraft.Wasicall.System.Request.{Outcome}
use timecraft.Wasicall.Wasi.{
  Errno, Fd, FdFlags, Protocol, ProtocolFamily, RiFlags, Rights, RoFlags, SdFlags, SiFlags,
  SocketType, Wasi,
}

module _ ⦃w : Wasi⦄ {Time Fault W : Type 0} where
  unfoldable pub replay_sock_accept :
      Fd
      → FdFlags
      → Replay Time Fault W
      → Outcome Fault (Fd × SocketAddress × SocketAddress × Errno) (Replay Time Fault W)
  replay_sock_accept fd flags r =
      replaying SyscallId.sock_accept (none_fd, no_address, no_address, w.enosys) decode_sock_accept
        r
        λ (record_fd, record_flags, newfd, peer, addr, errno) r.
          checked
            ((SyscallId.sock_accept, "fd", same w.fd fd record_fd)
              ∷ (SyscallId.sock_accept, "flags", same w.fd_flags flags record_flags)
              ∷ [])
            r (ok (newfd, peer, addr, errno), r)

  unfoldable pub replay_sock_recv :
      Fd
      → List (List ℕ)
      → RiFlags
      → Replay Time Fault W
      → Outcome Fault (List (List ℕ) × ℕ × RoFlags × Errno) (Replay Time Fault W)
  replay_sock_recv fd iovecs iflags r =
      replaying SyscallId.sock_recv (iovecs, 0, zero_of w.ro_flags, w.enosys) decode_sock_recv r
        λ (record_fd, record_iovecs, record_i_flags, size, oflags, errno) r.
          checked
            ((SyscallId.sock_recv, "fd", same w.fd fd record_fd)
              ∷ (SyscallId.sock_recv, "iovecs", equal_iovecs_shape_prefix iovecs record_iovecs size)
              ∷ (SyscallId.sock_recv, "iflags", same w.ri_flags iflags record_i_flags)
              ∷ [])
            r (filling (copy_each iovecs record_iovecs) r λ iovecs. (iovecs, size, oflags, errno))

  unfoldable pub replay_sock_send :
      Fd
      → List (List ℕ)
      → SiFlags
      → Replay Time Fault W
      → Outcome Fault (ℕ × Errno) (Replay Time Fault W)
  replay_sock_send fd iovecs iflags r =
      replaying SyscallId.sock_send (0, w.enosys) decode_sock_send r
        λ (record_fd, record_iovecs, record_i_flags, size, errno) r.
          checked
            ((SyscallId.sock_send, "fd", same w.fd fd record_fd)
              ∷ (SyscallId.sock_send, "iovecs", equal_iovecs iovecs record_iovecs)
              ∷ (SyscallId.sock_send, "iflags", same w.si_flags iflags record_i_flags)
              ∷ [])
            r (ok (size, errno), r)

  unfoldable pub replay_sock_shutdown :
      Fd → SdFlags → Replay Time Fault W → Outcome Fault Errno (Replay Time Fault W)
  replay_sock_shutdown fd flags r =
      replaying SyscallId.sock_shutdown w.enosys decode_sock_shutdown r
        λ (record_fd, record_flags, errno) r.
          checked
            ((SyscallId.sock_shutdown, "fd", same w.fd fd record_fd)
              ∷ (SyscallId.sock_shutdown, "flags", same w.sd_flags flags record_flags)
              ∷ [])
            r (ok errno, r)

  unfoldable pub replay_sock_open :
      ProtocolFamily
      → SocketType
      → Protocol
      → Rights
      → Rights
      → Replay Time Fault W
      → Outcome Fault (Fd × Errno) (Replay Time Fault W)
  replay_sock_open protocol_family socket_type protocol rights_base rights_inheriting r =
      replaying SyscallId.sock_open (none_fd, w.enosys) decode_sock_open r
        λ (
          record_protocol_family, record_socket_type, record_protocol, record_rights_base,
          record_rights_inheriting, newfd, errno,
        )
            r.
          checked
            ((
              SyscallId.sock_open,
              "protocolFamily",
              same w.protocol_family protocol_family record_protocol_family,
            )
              ∷ (
                SyscallId.sock_open,
                "socketType",
                same w.socket_type socket_type record_socket_type,
              )
              ∷ (SyscallId.sock_open, "protocol", same w.protocol protocol record_protocol)
              ∷ (SyscallId.sock_open, "rightsBase", same w.rights rights_base record_rights_base)
              ∷ (
                SyscallId.sock_open,
                "rightsInheriting",
                same w.rights rights_inheriting record_rights_inheriting,
              )
              ∷ [])
            r (ok (newfd, errno), r)

  unfoldable pub replay_sock_bind :
      Fd
      → SocketAddress
      → Replay Time Fault W
      → Outcome Fault (SocketAddress × Errno) (Replay Time Fault W)
  replay_sock_bind fd bind r =
      replaying SyscallId.sock_bind (no_address, w.enosys) decode_sock_bind r
        λ (record_fd, record_bind, addr, errno) r.
          checked
            ((SyscallId.sock_bind, "fd", same w.fd fd record_fd)
              ∷ (SyscallId.sock_bind, "bind", equal_socket_address bind record_bind)
              ∷ [])
            r (ok (addr, errno), r)

  unfoldable pub replay_sock_connect :
      Fd
      → SocketAddress
      → Replay Time Fault W
      → Outcome Fault (SocketAddress × Errno) (Replay Time Fault W)
  replay_sock_connect fd peer r =
      replaying SyscallId.sock_connect (no_address, w.enosys) decode_sock_connect r
        λ (record_fd, record_peer, addr, errno) r.
          checked
            ((SyscallId.sock_connect, "fd", same w.fd fd record_fd)
              ∷ (SyscallId.sock_connect, "peer", equal_socket_address peer record_peer)
              ∷ [])
            r (ok (addr, errno), r)

  unfoldable pub replay_sock_listen :
      Fd → ℤ → Replay Time Fault W → Outcome Fault Errno (Replay Time Fault W)
  replay_sock_listen fd backlog r =
      replaying SyscallId.sock_listen w.enosys decode_sock_listen r
        λ (record_fd, record_backlog, errno) r.
          checked
            ((SyscallId.sock_listen, "fd", same w.fd fd record_fd)
              ∷ (SyscallId.sock_listen, "backlog", same_int backlog record_backlog)
              ∷ [])
            r (ok errno, r)

  unfoldable pub replay_sock_send_to :
      Fd
      → List (List ℕ)
      → SiFlags
      → SocketAddress
      → Replay Time Fault W
      → Outcome Fault (ℕ × Errno) (Replay Time Fault W)
  replay_sock_send_to fd iovecs iflags addr r =
      replaying SyscallId.sock_send_to (0, w.enosys) decode_sock_send_to r
        λ (record_fd, record_iovecs, record_i_flags, record_addr, size, errno) r.
          checked
            ((SyscallId.sock_send_to, "fd", same w.fd fd record_fd)
              ∷ (SyscallId.sock_send_to, "iovecs", equal_iovecs iovecs record_iovecs)
              ∷ (SyscallId.sock_send_to, "iflags", same w.si_flags iflags record_i_flags)
              ∷ (SyscallId.sock_send_to, "addr", equal_socket_address addr record_addr)
              ∷ [])
            r (ok (size, errno), r)

  unfoldable pub replay_sock_recv_from :
      Fd
      → List (List ℕ)
      → RiFlags
      → Replay Time Fault W
      → Outcome Fault (List (List ℕ) × ℕ × RoFlags × SocketAddress × Errno) (Replay Time Fault W)
  replay_sock_recv_from fd iovecs iflags r =
      replaying SyscallId.sock_recv_from (iovecs, 0, zero_of w.ro_flags, no_address, w.enosys)
        decode_sock_recv_from r
        λ (record_fd, record_iovecs, record_i_flags, size, oflags, addr, errno) r.
          checked
            ((SyscallId.sock_recv_from, "fd", same w.fd fd record_fd)
              ∷ (
                SyscallId.sock_recv_from,
                "iovecs",
                equal_iovecs_shape_prefix iovecs record_iovecs size,
              )
              ∷ (SyscallId.sock_recv_from, "iflags", same w.ri_flags iflags record_i_flags)
              ∷ [])
            r
            (filling (copy_each iovecs record_iovecs) r
              λ iovecs. (iovecs, size, oflags, addr, errno))
