-- ===== src/Wasicall/Observer/Sock.antt =====
-- internal/timemachine/wasicall/observer.go: the methods of observerSystem for sockets: connections and transfers.
use timecraft.Common.{List, Option, ℕ}
use timecraft.Common.Int.{ℤ}
use timecraft.Wasicall.Observer.{notify, observing}
use timecraft.Wasicall.Sockets.{SocketAddress, no_address}
use timecraft.Wasicall.Syscall.Call.{Syscall}
use timecraft.Wasicall.System.{zero_of}
use timecraft.Wasicall.System.Request.{Outcome, Request, System}
use timecraft.Wasicall.Wasi.{
  Errno, Fd, FdFlags, Protocol, ProtocolFamily, RiFlags, Rights, RoFlags, SdFlags, SiFlags,
  SocketType, Wasi,
}

module _ ⦃w : Wasi⦄ {Fault S T : Type 0} where
  unfoldable pub observer_sock_accept :
      System Fault S
      → Option (Syscall → T → T)
      → Option (Syscall → T → T)
      → Fd
      → FdFlags
      → S × T
      → Outcome Fault (Fd × SocketAddress × SocketAddress × Errno) (S × T)
  observer_sock_accept system before after fd flags (s, t) =
      let t =
        notify before
          (Syscall.sock_accept fd flags (zero_of w.fd) no_address no_address (zero_of w.errno)) t in
      observing after (system (Request.sock_accept fd flags) s) t
        λ (newfd, peer, addr, errno). Syscall.sock_accept fd flags newfd peer addr errno

  unfoldable pub observer_sock_recv :
      System Fault S
      → Option (Syscall → T → T)
      → Option (Syscall → T → T)
      → Fd
      → List (List ℕ)
      → RiFlags
      → S × T
      → Outcome Fault (List (List ℕ) × ℕ × RoFlags × Errno) (S × T)
  observer_sock_recv system before after fd iovecs iflags (s, t) =
      let t =
        notify before (Syscall.sock_recv fd iovecs iflags 0 (zero_of w.ro_flags) (zero_of w.errno))
          t in
      observing after (system (Request.sock_recv fd iovecs iflags) s) t
        λ (iovecs, size, oflags, errno). Syscall.sock_recv fd iovecs iflags size oflags errno

  unfoldable pub observer_sock_send :
      System Fault S
      → Option (Syscall → T → T)
      → Option (Syscall → T → T)
      → Fd
      → List (List ℕ)
      → SiFlags
      → S × T
      → Outcome Fault (ℕ × Errno) (S × T)
  observer_sock_send system before after fd iovecs iflags (s, t) =
      let t = notify before (Syscall.sock_send fd iovecs iflags 0 (zero_of w.errno)) t in
      observing after (system (Request.sock_send fd iovecs iflags) s) t
        λ (size, errno). Syscall.sock_send fd iovecs iflags size errno

  unfoldable pub observer_sock_shutdown :
      System Fault S
      → Option (Syscall → T → T)
      → Option (Syscall → T → T)
      → Fd
      → SdFlags
      → S × T
      → Outcome Fault Errno (S × T)
  observer_sock_shutdown system before after fd flags (s, t) =
      let t = notify before (Syscall.sock_shutdown fd flags (zero_of w.errno)) t in
      observing after (system (Request.sock_shutdown fd flags) s) t
        λ errno. Syscall.sock_shutdown fd flags errno

  unfoldable pub observer_sock_open :
      System Fault S
      → Option (Syscall → T → T)
      → Option (Syscall → T → T)
      → ProtocolFamily
      → SocketType
      → Protocol
      → Rights
      → Rights
      → S × T
      → Outcome Fault (Fd × Errno) (S × T)
  observer_sock_open system before after family socket_type protocol rights_base rights_inheriting
        (s, t) =
      let t =
        notify before
          (Syscall.sock_open family socket_type protocol rights_base rights_inheriting
            (zero_of w.fd) (zero_of w.errno))
          t in
      observing after
        (system (Request.sock_open family socket_type protocol rights_base rights_inheriting) s) t
        λ (fd, errno).
          Syscall.sock_open family socket_type protocol rights_base rights_inheriting fd errno

  unfoldable pub observer_sock_bind :
      System Fault S
      → Option (Syscall → T → T)
      → Option (Syscall → T → T)
      → Fd
      → SocketAddress
      → S × T
      → Outcome Fault (SocketAddress × Errno) (S × T)
  observer_sock_bind system before after fd bind (s, t) =
      let t = notify before (Syscall.sock_bind fd bind no_address (zero_of w.errno)) t in
      observing after (system (Request.sock_bind fd bind) s) t
        λ (addr, errno). Syscall.sock_bind fd bind addr errno

  unfoldable pub observer_sock_connect :
      System Fault S
      → Option (Syscall → T → T)
      → Option (Syscall → T → T)
      → Fd
      → SocketAddress
      → S × T
      → Outcome Fault (SocketAddress × Errno) (S × T)
  observer_sock_connect system before after fd peer (s, t) =
      let t = notify before (Syscall.sock_connect fd peer no_address (zero_of w.errno)) t in
      observing after (system (Request.sock_connect fd peer) s) t
        λ (addr, errno). Syscall.sock_connect fd peer addr errno

  unfoldable pub observer_sock_listen :
      System Fault S
      → Option (Syscall → T → T)
      → Option (Syscall → T → T)
      → Fd
      → ℤ
      → S × T
      → Outcome Fault Errno (S × T)
  observer_sock_listen system before after fd backlog (s, t) =
      let t = notify before (Syscall.sock_listen fd backlog (zero_of w.errno)) t in
      observing after (system (Request.sock_listen fd backlog) s) t
        λ errno. Syscall.sock_listen fd backlog errno

  unfoldable pub observer_sock_send_to :
      System Fault S
      → Option (Syscall → T → T)
      → Option (Syscall → T → T)
      → Fd
      → List (List ℕ)
      → SiFlags
      → SocketAddress
      → S × T
      → Outcome Fault (ℕ × Errno) (S × T)
  observer_sock_send_to system before after fd iovecs iflags addr (s, t) =
      let t = notify before (Syscall.sock_send_to fd iovecs iflags addr 0 (zero_of w.errno)) t in
      observing after (system (Request.sock_send_to fd iovecs iflags addr) s) t
        λ (size, errno). Syscall.sock_send_to fd iovecs iflags addr size errno

  unfoldable pub observer_sock_recv_from :
      System Fault S
      → Option (Syscall → T → T)
      → Option (Syscall → T → T)
      → Fd
      → List (List ℕ)
      → RiFlags
      → S × T
      → Outcome Fault (List (List ℕ) × ℕ × RoFlags × SocketAddress × Errno) (S × T)
  observer_sock_recv_from system before after fd iovecs iflags (s, t) =
      let t =
        notify before
          (Syscall.sock_recv_from fd iovecs iflags 0 (zero_of w.ro_flags) no_address
            (zero_of w.errno))
          t in
      observing after (system (Request.sock_recv_from fd iovecs iflags) s) t
        λ (iovecs, size, oflags, addr, errno).
          Syscall.sock_recv_from fd iovecs iflags size oflags addr errno
