-- ===== src/Wasicall/Observer/SockInfo.antt =====
-- internal/timemachine/wasicall/observer.go: the methods of observerSystem for sockets: options and addresses.
use timecraft.Common.{List, Option, ℕ}
use timecraft.Common.Int.{ℤ}
use timecraft.Wasicall.Observer.{notify, observing, observing_swapped}
use timecraft.Wasicall.Sockets.{AddressInfo, SocketAddress, SocketOptionValue, no_address, no_value}
use timecraft.Wasicall.Syscall.Call.{Syscall}
use timecraft.Wasicall.System.{cut, zero_of}
use timecraft.Wasicall.System.Request.{Outcome, Request, System}
use timecraft.Wasicall.Wasi.{Errno, Fd, SocketOption, Wasi}

module _ ⦃w : Wasi⦄ {Fault S T : Type 0} where
  unfoldable pub observer_sock_get_opt :
      System Fault S
      → Option (Syscall → T → T)
      → Option (Syscall → T → T)
      → Fd
      → SocketOption
      → S × T
      → Outcome Fault (SocketOptionValue × Errno) (S × T)
  observer_sock_get_opt system before after fd option (s, t) =
      let t = notify before (Syscall.sock_get_opt fd option no_value (zero_of w.errno)) t in
      observing after (system (Request.sock_get_opt fd option) s) t
        λ (value, errno). Syscall.sock_get_opt fd option value errno

  unfoldable pub observer_sock_set_opt :
      System Fault S
      → Option (Syscall → T → T)
      → Option (Syscall → T → T)
      → Fd
      → SocketOption
      → SocketOptionValue
      → S × T
      → Outcome Fault Errno (S × T)
  observer_sock_set_opt system before after fd option value (s, t) =
      let t = notify before (Syscall.sock_set_opt fd option value (zero_of w.errno)) t in
      observing after (system (Request.sock_set_opt fd option value) s) t
        λ errno. Syscall.sock_set_opt fd option value errno

  unfoldable pub observer_sock_local_address :
      System Fault S
      → Option (Syscall → T → T)
      → Option (Syscall → T → T)
      → Fd
      → S × T
      → Outcome Fault (SocketAddress × Errno) (S × T)
  observer_sock_local_address system before after fd (s, t) =
      let t = notify before (Syscall.sock_local_address fd no_address (zero_of w.errno)) t in
      observing after (system (Request.sock_local_address fd) s) t
        λ (addr, errno). Syscall.sock_local_address fd addr errno

  unfoldable pub observer_sock_remote_address :
      System Fault S
      → Option (Syscall → T → T)
      → Option (Syscall → T → T)
      → Fd
      → S × T
      → Outcome Fault (SocketAddress × Errno) (S × T)
  observer_sock_remote_address system before after fd (s, t) =
      let t = notify before (Syscall.sock_remote_address fd no_address (zero_of w.errno)) t in
      observing after (system (Request.sock_remote_address fd) s) t
        λ (addr, errno). Syscall.sock_remote_address fd addr errno

  unfoldable pub observer_sock_address_info :
      System Fault S
      → Option (Syscall → T → T)
      → Option (Syscall → T → T)
      → List ℕ
      → List ℕ
      → AddressInfo
      → List AddressInfo
      → S × T
      → Outcome Fault (List AddressInfo × ℤ × Errno) (S × T)
  observer_sock_address_info system before after name service hints results (s, t) =
      let t =
        notify before (Syscall.sock_address_info name service hints results (zero_of w.errno)) t in
      observing_swapped before after
        (system (Request.sock_address_info name service hints results) s) t
        λ (results, n, errno). Syscall.sock_address_info name service hints (cut n results) errno
