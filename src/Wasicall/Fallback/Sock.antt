-- ===== src/Wasicall/Fallback/Sock.antt =====
-- internal/timemachine/wasicall/fallback.go: the methods of fallbackSystem for sockets: connections and transfers.
use timecraft.Common.{List, ℕ}
use timecraft.Common.Int.{ℤ}
use timecraft.Wasicall.Fallback.{or_else}
use timecraft.Wasicall.Sockets.{SocketAddress}
use timecraft.Wasicall.System.Request.{Outcome, Request, System}
use timecraft.Wasicall.Wasi.{
  Errno, Fd, FdFlags, Protocol, ProtocolFamily, RiFlags, Rights, RoFlags, SdFlags, SiFlags,
  SocketType, Wasi,
}

module _ ⦃w : Wasi⦄ {Fault S T : Type 0} where
  unfoldable pub fallback_sock_accept :
      System Fault S
      → System Fault T
      → Fd
      → FdFlags
      → S × T
      → Outcome Fault (Fd × SocketAddress × SocketAddress × Errno) (S × T)
  fallback_sock_accept primary secondary fd flags (s, t) =
      or_else (primary (Request.sock_accept fd flags) s) t
        λ (newfd, peer, addr, errno). (errno, secondary (Request.sock_accept fd flags))

  unfoldable pub fallback_sock_recv :
      System Fault S
      → System Fault T
      → Fd
      → List (List ℕ)
      → RiFlags
      → S × T
      → Outcome Fault (List (List ℕ) × ℕ × RoFlags × Errno) (S × T)
  fallback_sock_recv primary secondary fd iovecs iflags (s, t) =
      or_else (primary (Request.sock_recv fd iovecs iflags) s) t
        λ (iovecs, size, oflags, errno). (errno, secondary (Request.sock_recv fd iovecs iflags))

  unfoldable pub fallback_sock_send :
      System Fault S
      → System Fault T
      → Fd
      → List (List ℕ)
      → SiFlags
      → S × T
      → Outcome Fault (ℕ × Errno) (S × T)
  fallback_sock_send primary secondary fd iovecs flags (s, t) =
      or_else (primary (Request.sock_send fd iovecs flags) s) t
        λ (size, errno). (errno, secondary (Request.sock_send fd iovecs flags))

  unfoldable pub fallback_sock_shutdown :
      System Fault S → System Fault T → Fd → SdFlags → S × T → Outcome Fault Errno (S × T)
  fallback_sock_shutdown primary secondary fd flags (s, t) =
      or_else (primary (Request.sock_shutdown fd flags) s) t
        λ errno. (errno, secondary (Request.sock_shutdown fd flags))

  unfoldable pub fallback_sock_open :
      System Fault S
      → System Fault T
      → ProtocolFamily
      → SocketType
      → Protocol
      → Rights
      → Rights
      → S × T
      → Outcome Fault (Fd × Errno) (S × T)
  fallback_sock_open primary secondary family socket_type protocol rights_base rights_inheriting
        (s, t) =
      or_else
        (primary (Request.sock_open family socket_type protocol rights_base rights_inheriting) s) t
        λ (newfd, errno). (
          errno,
          secondary (Request.sock_open family socket_type protocol rights_base rights_inheriting),
        )

  unfoldable pub fallback_sock_bind :
      System Fault S
      → System Fault T
      → Fd
      → SocketAddress
      → S × T
      → Outcome Fault (SocketAddress × Errno) (S × T)
  fallback_sock_bind primary secondary fd bind (s, t) =
      or_else (primary (Request.sock_bind fd bind) s) t
        λ (addr, errno). (errno, secondary (Request.sock_bind fd bind))

  unfoldable pub fallback_sock_connect :
      System Fault S
      → System Fault T
      → Fd
      → SocketAddress
      → S × T
      → Outcome Fault (SocketAddress × Errno) (S × T)
  fallback_sock_connect primary secondary fd peer (s, t) =
      or_else (primary (Request.sock_connect fd peer) s) t
        λ (addr, errno). (errno, secondary (Request.sock_connect fd peer))

  unfoldable pub fallback_sock_listen :
      System Fault S → System Fault T → Fd → ℤ → S × T → Outcome Fault Errno (S × T)
  fallback_sock_listen primary secondary fd backlog (s, t) =
      or_else (primary (Request.sock_listen fd backlog) s) t
        λ errno. (errno, secondary (Request.sock_listen fd backlog))

  unfoldable pub fallback_sock_send_to :
      System Fault S
      → System Fault T
      → Fd
      → List (List ℕ)
      → SiFlags
      → SocketAddress
      → S × T
      → Outcome Fault (ℕ × Errno) (S × T)
  fallback_sock_send_to primary secondary fd iovecs flags addr (s, t) =
      or_else (primary (Request.sock_send_to fd iovecs flags addr) s) t
        λ (size, errno). (errno, secondary (Request.sock_send_to fd iovecs flags addr))

  unfoldable pub fallback_sock_recv_from :
      System Fault S
      → System Fault T
      → Fd
      → List (List ℕ)
      → RiFlags
      → S × T
      → Outcome Fault (List (List ℕ) × ℕ × RoFlags × SocketAddress × Errno) (S × T)
  fallback_sock_recv_from primary secondary fd iovecs flags (s, t) =
      or_else (primary (Request.sock_recv_from fd iovecs flags) s) t
        λ (iovecs, size, oflags, addr, errno).
          (errno, secondary (Request.sock_recv_from fd iovecs flags))
