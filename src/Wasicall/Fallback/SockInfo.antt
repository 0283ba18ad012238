-- ===== src/Wasicall/Fallback/SockInfo.antt =====
-- internal/timemachine/wasicall/fallback.go: the methods of fallbackSystem for sockets: options and addresses.
use timecraft.Common.{List, ℕ}
use timecraft.Common.Int.{ℤ}
use timecraft.Wasicall.Fallback.{or_else}
use timecraft.Wasicall.Sockets.{AddressInfo, SocketAddress, SocketOptionValue}
use timecraft.Wasicall.System.Request.{Outcome, Request, System}
use timecraft.Wasicall.Wasi.{Errno, Fd, SocketOption, Wasi}

module _ ⦃w : Wasi⦄ {Fault S T : Type 0} where
  unfoldable pub fallback_sock_get_opt :
      System Fault S
      → System Fault T
      → Fd
      → SocketOption
      → S × T
      → Outcome Fault (SocketOptionValue × Errno) (S × T)
  fallback_sock_get_opt primary secondary fd option (s, t) =
      or_else (primary (Request.sock_get_opt fd option) s) t
        λ (value, errno). (errno, secondary (Request.sock_get_opt fd option))

  unfoldable pub fallback_sock_set_opt :
      System Fault S
      → System Fault T
      → Fd
      → SocketOption
      → SocketOptionValue
      → S × T
      → Outcome Fault Errno (S × T)
  fallback_sock_set_opt primary secondary fd option value (s, t) =
      or_else (primary (Request.sock_set_opt fd option value) s) t
        λ errno. (errno, secondary (Request.sock_set_opt fd option value))

  unfoldable pub fallback_sock_local_address :
      System Fault S → System Fault T → Fd → S × T → Outcome Fault (SocketAddress × Errno) (S × T)
  fallback_sock_local_address primary secondary fd (s, t) =
      or_else (primary (Request.sock_local_address fd) s) t
        λ (addr, errno). (errno, secondary (Request.sock_local_address fd))

  unfoldable pub fallback_sock_remote_address :
      System Fault S → System Fault T → Fd → S × T → Outcome Fault (SocketAddress × Errno) (S × T)
  fallback_sock_remote_address primary secondary fd (s, t) =
      or_else (primary (Request.sock_remote_address fd) s) t
        λ (addr, errno). (errno, secondary (Request.sock_remote_address fd))

  unfoldable pub fallback_sock_address_info :
      System Fault S
      → System Fault T
      → List ℕ
      → List ℕ
      → AddressInfo
      → List AddressInfo
      → S × T
      → Outcome Fault (List AddressInfo × ℤ × Errno) (S × T)
  fallback_sock_address_info primary secondary name service hints results (s, t) =
      or_else (primary (Request.sock_address_info name service hints results) s) t
        λ (results, n, errno).
          (errno, secondary (Request.sock_address_info name service hints results))
