-- ===== src/Wasicall/Replay/Recorded/Sock.antt =====
-- The replay of the recorded calls: sockets: connections and transfers.
use timecraft.Common.{List, [], refl, ℕ}
use timecraft.Common.Int.{ℤ}
use timecraft.Wasicall.Calls.Sock.{
  decode_sock_accept, decode_sock_bind, decode_sock_connect, decode_sock_listen, decode_sock_open,
  decode_sock_recv, decode_sock_recv_from, decode_sock_send, decode_sock_send_to,
  decode_sock_shutdown, encode_sock_accept, encode_sock_bind, encode_sock_connect,
  encode_sock_listen, encode_sock_open, encode_sock_recv, encode_sock_recv_from, encode_sock_send,
  encode_sock_send_to, encode_sock_shutdown,
}
use timecraft.Wasicall.Calls.Sock.RoundTrip.{
  sock_accept_lem, sock_bind_lem, sock_connect_lem, sock_listen_lem, sock_open_lem,
  sock_recv_from_lem, sock_recv_lem, sock_send_lem, sock_send_to_lem, sock_shutdown_lem,
}
use timecraft.Wasicall.Replay.Buffers.{copy_each-Fills, shape-Fills}
use timecraft.Wasicall.Replay.Recorded.{Answers, Holds, answers, passes, selves}
use timecraft.Wasicall.Replay.Sock.{
  replay_sock_accept, replay_sock_bind, replay_sock_connect, replay_sock_listen, replay_sock_open,
  replay_sock_recv, replay_sock_recv_from, replay_sock_send, replay_sock_send_to,
  replay_sock_shutdown,
}
use timecraft.Wasicall.Replay.State.{Replay, mismatches}
use timecraft.Wasicall.Sockets.{SocketAddress}
use timecraft.Wasicall.Syscall.Call.{Syscall}
use timecraft.Wasicall.Syscall.Ids.{SyscallId}
use timecraft.Wasicall.Syscall.Log.{Record}
use timecraft.Wasicall.Syscall.Recordable.{IsRecordable}
use timecraft.Wasicall.Syscall.RoundTrip.{decoded}
use timecraft.Wasicall.System.Exchange.{Fills, positive_count}
use timecraft.Wasicall.Wasi.{
  Errno, Fd, FdFlags, Protocol, ProtocolFamily, RiFlags, Rights, RoFlags, SdFlags, SiFlags,
  SocketType, Wasi,
}
use timecraft.Wasicall.Words.RoundTrip.{Fits}

module _ ⦃w : Wasi⦄ {Time Fault W : Type 0} where
  pub replay_sock_accept-recorded :
      (fd : Fd) (flags : FdFlags) (newfd : Fd) (peer : SocketAddress) (addr : SocketAddress)
      (errno : Errno) (r : Replay Time Fault W) (rest : List (Record Time))
      → IsRecordable (Syscall.sock_accept fd flags newfd peer addr errno)
      → Fits (encode_sock_accept [] fd flags newfd peer addr errno)
      → Holds r SyscallId.sock_accept (encode_sock_accept [] fd flags newfd peer addr errno) rest
      → Answers (replay_sock_accept fd flags r) (newfd, peer, addr, errno) r rest
  unfolding replay_sock_accept mismatches
  replay_sock_accept-recorded fd flags newfd peer addr errno r rest valid fits holds =
      answers _ _ _ holds
        (decoded decode_sock_accept _
          (sock_accept_lem fd flags newfd peer addr errno [] valid.0 valid.1) fits)
        (passes _ _ (simp selves) (record { returned = refl; left = refl }))

  pub replay_sock_recv-recorded :
      (fd : Fd) (iovecs : List (List ℕ)) (iflags : RiFlags) (iovecs_after : List (List ℕ)) (n : ℕ)
      (oflags : RoFlags) (errno : Errno) (r : Replay Time Fault W) (rest : List (Record Time))
      → IsRecordable (Syscall.sock_recv fd iovecs_after iflags n oflags errno)
      → Fills iovecs iovecs_after (positive_count n)
      → Fits (encode_sock_recv [] fd iovecs_after iflags n oflags errno)
      → Holds r SyscallId.sock_recv (encode_sock_recv [] fd iovecs_after iflags n oflags errno) rest
      → Answers (replay_sock_recv fd iovecs iflags r) (iovecs_after, n, oflags, errno) r rest
  unfolding replay_sock_recv mismatches
  replay_sock_recv-recorded fd iovecs iflags iovecs_after n oflags errno r rest valid answer fits
        holds =
      answers _ _ _ holds
        (decoded decode_sock_recv _
          (sock_recv_lem fd iovecs_after iflags n oflags errno [] valid.0 valid.1 valid.2) fits)
        (passes _ _ (simp (selves, shape-Fills iovecs iovecs_after n answer)) (
          rw (copy_each-Fills iovecs iovecs_after n answer)
            (record { returned = refl; left = refl })))

  pub replay_sock_send-recorded :
      (fd : Fd) (iovecs : List (List ℕ)) (iflags : SiFlags) (n : ℕ) (errno : Errno)
      (r : Replay Time Fault W) (rest : List (Record Time))
      → IsRecordable (Syscall.sock_send fd iovecs iflags n errno)
      → Fits (encode_sock_send [] fd iovecs iflags n errno)
      → Holds r SyscallId.sock_send (encode_sock_send [] fd iovecs iflags n errno) rest
      → Answers (replay_sock_send fd iovecs iflags r) (n, errno) r rest
  unfolding replay_sock_send mismatches
  replay_sock_send-recorded fd iovecs iflags n errno r rest valid fits holds =
      answers _ _ _ holds
        (decoded decode_sock_send _ (sock_send_lem fd iovecs iflags n errno [] valid.0 valid.1)
          fits)
        (passes _ _ (simp selves) (record { returned = refl; left = refl }))

  pub replay_sock_shutdown-recorded :
      (fd : Fd) (flags : SdFlags) (errno : Errno) (r : Replay Time Fault W)
      (rest : List (Record Time))
      → Fits (encode_sock_shutdown [] fd flags errno)
      → Holds r SyscallId.sock_shutdown (encode_sock_shutdown [] fd flags errno) rest
      → Answers (replay_sock_shutdown fd flags r) errno r rest
  unfolding replay_sock_shutdown mismatches
  replay_sock_shutdown-recorded fd flags errno r rest fits holds =
      answers _ _ _ holds
        (decoded decode_sock_shutdown _ (sock_shutdown_lem fd flags errno []) fits)
        (passes _ _ (simp selves) (record { returned = refl; left = refl }))

  pub replay_sock_open-recorded :
      (protocol_family : ProtocolFamily) (socket_type : SocketType) (protocol : Protocol)
      (rights_base : Rights) (rights_inheriting : Rights) (fd : Fd) (errno : Errno)
      (r : Replay Time Fault W) (rest : List (Record Time))
      → Fits (
          encode_sock_open [] protocol_family socket_type protocol rights_base rights_inheriting fd
            errno)
      → Holds r SyscallId.sock_open
          (encode_sock_open [] protocol_family socket_type protocol rights_base rights_inheriting fd
            errno)
          rest
      → Answers
          (replay_sock_open protocol_family socket_type protocol rights_base rights_inheriting r)
          (fd, errno)
          r
          rest
  unfolding replay_sock_open mismatches
  replay_sock_open-recorded protocol_family socket_type protocol rights_base rights_inheriting fd
        errno r rest fits holds =
      answers _ _ _ holds
        (decoded decode_sock_open _
          (sock_open_lem protocol_family socket_type protocol rights_base rights_inheriting fd errno
            [])
          fits)
        (passes _ _ (simp selves) (record { returned = refl; left = refl }))

  pub replay_sock_bind-recorded :
      (fd : Fd) (bind : SocketAddress) (addr : SocketAddress) (errno : Errno)
      (r : Replay Time Fault W) (rest : List (Record Time))
      → IsRecordable (Syscall.sock_bind fd bind addr errno)
      → Fits (encode_sock_bind [] fd bind addr errno)
      → Holds r SyscallId.sock_bind (encode_sock_bind [] fd bind addr errno) rest
      → Answers (replay_sock_bind fd bind r) (addr, errno) r rest
  unfolding replay_sock_bind mismatches
  replay_sock_bind-recorded fd bind addr errno r rest valid fits holds =
      answers _ _ _ holds
        (decoded decode_sock_bind _ (sock_bind_lem fd bind addr errno [] valid.0 valid.1) fits)
        (passes _ _ (simp selves) (record { returned = refl; left = refl }))

  pub replay_sock_connect-recorded :
      (fd : Fd) (peer : SocketAddress) (addr : SocketAddress) (errno : Errno)
      (r : Replay Time Fault W) (rest : List (Record Time))
      → IsRecordable (Syscall.sock_connect fd peer addr errno)
      → Fits (encode_sock_connect [] fd peer addr errno)
      → Holds r SyscallId.sock_connect (encode_sock_connect [] fd peer addr errno) rest
      → Answers (replay_sock_connect fd peer r) (addr, errno) r rest
  unfolding replay_sock_connect mismatches
  replay_sock_connect-recorded fd peer addr errno r rest valid fits holds =
      answers _ _ _ holds
        (decoded decode_sock_connect _ (sock_connect_lem fd peer addr errno [] valid.0 valid.1)
          fits)
        (passes _ _ (simp selves) (record { returned = refl; left = refl }))

  pub replay_sock_listen-recorded :
      (fd : Fd) (backlog : ℤ) (errno : Errno) (r : Replay Time Fault W) (rest : List (Record Time))
      → IsRecordable (Syscall.sock_listen fd backlog errno)
      → Fits (encode_sock_listen [] fd backlog errno)
      → Holds r SyscallId.sock_listen (encode_sock_listen [] fd backlog errno) rest
      → Answers (replay_sock_listen fd backlog r) errno r rest
  unfolding replay_sock_listen mismatches
  replay_sock_listen-recorded fd backlog errno r rest valid fits holds =
      answers _ _ _ holds
        (decoded decode_sock_listen _ (sock_listen_lem fd backlog errno [] valid) fits)
        (passes _ _ (simp selves) (record { returned = refl; left = refl }))

  pub replay_sock_send_to-recorded :
      (fd : Fd) (iovecs : List (List ℕ)) (iflags : SiFlags) (addr : SocketAddress) (n : ℕ)
      (errno : Errno) (r : Replay Time Fault W) (rest : List (Record Time))
      → IsRecordable (Syscall.sock_send_to fd iovecs iflags addr n errno)
      → Fits (encode_sock_send_to [] fd iovecs iflags addr n errno)
      → Holds r SyscallId.sock_send_to (encode_sock_send_to [] fd iovecs iflags addr n errno) rest
      → Answers (replay_sock_send_to fd iovecs iflags addr r) (n, errno) r rest
  unfolding replay_sock_send_to mismatches
  replay_sock_send_to-recorded fd iovecs iflags addr n errno r rest valid fits holds =
      answers _ _ _ holds
        (decoded decode_sock_send_to _
          (sock_send_to_lem fd iovecs iflags addr n errno [] valid.0 valid.1 valid.2) fits)
        (passes _ _ (simp selves) (record { returned = refl; left = refl }))

  pub replay_sock_recv_from-recorded :
      (fd : Fd) (iovecs : List (List ℕ)) (iflags : RiFlags) (iovecs_after : List (List ℕ)) (n : ℕ)
      (oflags : RoFlags) (addr : SocketAddress) (errno : Errno) (r : Replay Time Fault W)
      (rest : List (Record Time))
      → IsRecordable (Syscall.sock_recv_from fd iovecs_after iflags n oflags addr errno)
      → Fills iovecs iovecs_after (positive_count n)
      → Fits (encode_sock_recv_from [] fd iovecs_after iflags n oflags addr errno)
      → Holds r SyscallId.sock_recv_from
          (encode_sock_recv_from [] fd iovecs_after iflags n oflags addr errno)
          rest
      → Answers
          (replay_sock_recv_from fd iovecs iflags r)
          (iovecs_after, n, oflags, addr, errno)
          r
          rest
  unfolding replay_sock_recv_from mismatches
  replay_sock_recv_from-recorded fd iovecs iflags iovecs_after n oflags addr errno r rest valid
        answer fits holds =
      answers _ _ _ holds
        (decoded decode_sock_recv_from _
          (sock_recv_from_lem fd iovecs_after iflags n oflags addr errno [] valid.0 valid.1 valid.2
            valid.3)
          fits)
        (passes _ _ (simp (selves, shape-Fills iovecs iovecs_after n answer)) (
          rw (copy_each-Fills iovecs iovecs_after n answer)
            (record { returned = refl; left = refl })))
