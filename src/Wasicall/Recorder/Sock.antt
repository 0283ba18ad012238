-- ===== src/Wasicall/Recorder/Sock.antt =====
-- internal/timemachine/wasicall/record.go: the methods of recorderSystem for sockets: connections and transfers.
use timecraft.Common.{List, [], some, ℕ}
use timecraft.Common.Int.{ℤ}
use timecraft.Wasicall.Calls.Sock.{
  encode_sock_accept, encode_sock_bind, encode_sock_connect, encode_sock_listen, encode_sock_open,
  encode_sock_recv, encode_sock_recv_from, encode_sock_send, encode_sock_send_to,
  encode_sock_shutdown,
}
use timecraft.Wasicall.Recorder.{recording}
use timecraft.Wasicall.Sockets.{SocketAddress}
use timecraft.Wasicall.Syscall.Ids.{SyscallId}
use timecraft.Wasicall.System.Request.{Outcome, Request, System}
use timecraft.Wasicall.Wasi.{
  Errno, Fd, FdFlags, Protocol, ProtocolFamily, RiFlags, Rights, RoFlags, SdFlags, SiFlags,
  SocketType, Wasi,
}

module _ ⦃w : Wasi⦄ {Fault S T : Type 0} where
  unfoldable pub recorder_sock_accept :
      System Fault S
      → (SyscallId → List ℕ → T → T)
      → Fd
      → FdFlags
      → S × T
      → Outcome Fault (Fd × SocketAddress × SocketAddress × Errno) (S × T)
  recorder_sock_accept system write fd flags (s, t) =
      recording write SyscallId.sock_accept (system (Request.sock_accept fd flags) s) t
        λ (newfd, peer, addr, errno). some (encode_sock_accept [] fd flags newfd peer addr errno)

  unfoldable pub recorder_sock_recv :
      System Fault S
      → (SyscallId → List ℕ → T → T)
      → Fd
      → List (List ℕ)
      → RiFlags
      → S × T
      → Outcome Fault (List (List ℕ) × ℕ × RoFlags × Errno) (S × T)
  recorder_sock_recv system write fd iovecs iflags (s, t) =
      recording write SyscallId.sock_recv (system (Request.sock_recv fd iovecs iflags) s) t
        λ (iovecs, n, oflags, errno). some (encode_sock_recv [] fd iovecs iflags n oflags errno)

  unfoldable pub recorder_sock_send :
      System Fault S
      → (SyscallId → List ℕ → T → T)
      → Fd
      → List (List ℕ)
      → SiFlags
      → S × T
      → Outcome Fault (ℕ × Errno) (S × T)
  recorder_sock_send system write fd iovecs iflags (s, t) =
      recording write SyscallId.sock_send (system (Request.sock_send fd iovecs iflags) s) t
        λ (n, errno). some (encode_sock_send [] fd iovecs iflags n errno)

  unfoldable pub recorder_sock_shutdown :
      System Fault S
      → (SyscallId → List ℕ → T → T)
      → Fd
      → SdFlags
      → S × T
      → Outcome Fault Errno (S × T)
  recorder_sock_shutdown system write fd flags (s, t) =
      recording write SyscallId.sock_shutdown (system (Request.sock_shutdown fd flags) s) t
        λ errno. some (encode_sock_shutdown [] fd flags errno)

  unfoldable pub recorder_sock_open :
      System Fault S
      → (SyscallId → List ℕ → T → T)
      → ProtocolFamily
      → SocketType
      → Protocol
      → Rights
      → Rights
      → S × T
      → Outcome Fault (Fd × Errno) (S × T)
  recorder_sock_open system write pf socket_type protocol rights_base rights_inheriting (s, t) =
      recording write SyscallId.sock_open
        (system (Request.sock_open pf socket_type protocol rights_base rights_inheriting) s) t
        λ (fd, errno).
          some (encode_sock_open [] pf socket_type protocol rights_base rights_inheriting fd errno)

  unfoldable pub recorder_sock_bind :
      System Fault S
      → (SyscallId → List ℕ → T → T)
      → Fd
      → SocketAddress
      → S × T
      → Outcome Fault (SocketAddress × Errno) (S × T)
  recorder_sock_bind system write fd bind (s, t) =
      recording write SyscallId.sock_bind (system (Request.sock_bind fd bind) s) t
        λ (addr, errno). some (encode_sock_bind [] fd bind addr errno)

  unfoldable pub recorder_sock_connect :
      System Fault S
      → (SyscallId → List ℕ → T → T)
      → Fd
      → SocketAddress
      → S × T
      → Outcome Fault (SocketAddress × Errno) (S × T)
  recorder_sock_connect system write fd peer (s, t) =
      recording write SyscallId.sock_connect (system (Request.sock_connect fd peer) s) t
        λ (addr, errno). some (encode_sock_connect [] fd peer addr errno)

  unfoldable pub recorder_sock_listen :
      System Fault S → (SyscallId → List ℕ → T → T) → Fd → ℤ → S × T → Outcome Fault Errno (S × T)
  recorder_sock_listen system write fd backlog (s, t) =
      recording write SyscallId.sock_listen (system (Request.sock_listen fd backlog) s) t
        λ errno. some (encode_sock_listen [] fd backlog errno)

  unfoldable pub recorder_sock_send_to :
      System Fault S
      → (SyscallId → List ℕ → T → T)
      → Fd
      → List (List ℕ)
      → SiFlags
      → SocketAddress
      → S × T
      → Outcome Fault (ℕ × Errno) (S × T)
  recorder_sock_send_to system write fd iovecs iflags addr (s, t) =
      recording write SyscallId.sock_send_to (system (Request.sock_send_to fd iovecs iflags addr) s)
        t λ (n, errno). some (encode_sock_send_to [] fd iovecs iflags addr n errno)

  unfoldable pub recorder_sock_recv_from :
      System Fault S
      → (SyscallId → List ℕ → T → T)
      → Fd
      → List (List ℕ)
      → RiFlags
      → S × T
      → Outcome Fault (List (List ℕ) × ℕ × RoFlags × SocketAddress × Errno) (S × T)
  recorder_sock_recv_from system write fd iovecs iflags (s, t) =
      recording write SyscallId.sock_recv_from (system (Request.sock_recv_from fd iovecs iflags) s)
        t
        λ (iovecs, n, oflags, addr, errno).
          some (encode_sock_recv_from [] fd iovecs iflags n oflags addr errno)
