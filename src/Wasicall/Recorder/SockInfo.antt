-- ===== src/Wasicall/Recorder/SockInfo.antt =====
-- internal/timemachine/wasicall/record.go: the methods of recorderSystem for sockets: options and addresses.
use timecraft.Common.{List, [], some, ℕ}
use timecraft.Common.Int.{ℤ}
use timecraft.Wasicall.Calls.SockInfo.{
  encode_sock_address_info, encode_sock_get_opt, encode_sock_local_address,
  encode_sock_remote_address, encode_sock_set_opt,
}
use timecraft.Wasicall.Recorder.{recording}
use timecraft.Wasicall.Sockets.{AddressInfo, SocketAddress, SocketOptionValue}
use timecraft.Wasicall.Syscall.Ids.{SyscallId}
use timecraft.Wasicall.System.{cut}
use timecraft.Wasicall.System.Request.{Outcome, Request, System}
use timecraft.Wasicall.Wasi.{Errno, Fd, SocketOption, Wasi}

module _ ⦃w : Wasi⦄ {Fault S T : Type 0} where
  unfoldable pub recorder_sock_get_opt :
      System Fault S
      → (SyscallId → List ℕ → T → T)
      → Fd
      → SocketOption
      → S × T
      → Outcome Fault (SocketOptionValue × Errno) (S × T)
  recorder_sock_get_opt system write fd option (s, t) =
      recording write SyscallId.sock_get_opt (system (Request.sock_get_opt fd option) s) t
        λ (value, errno). some (encode_sock_get_opt [] fd option value errno)

  unfoldable pub recorder_sock_set_opt :
      System Fault S
      → (SyscallId → List ℕ → T → T)
      → Fd
      → SocketOption
      → SocketOptionValue
      → S × T
      → Outcome Fault Errno (S × T)
  recorder_sock_set_opt system write fd option value (s, t) =
      recording write SyscallId.sock_set_opt (system (Request.sock_set_opt fd option value) s) t
        λ errno. some (encode_sock_set_opt [] fd option value errno)

  unfoldable pub recorder_sock_local_address :
      System Fault S
      → (SyscallId → List ℕ → T → T)
      → Fd
      → S × T
      → Outcome Fault (SocketAddress × Errno) (S × T)
  recorder_sock_local_address system write fd (s, t) =
      recording write SyscallId.sock_local_address (system (Request.sock_local_address fd) s) t
        λ (addr, errno). some (encode_sock_local_address [] fd addr errno)

  unfoldable pub recorder_sock_remote_address :
      System Fault S
      → (SyscallId → List ℕ → T → T)
      → Fd
      → S × T
      → Outcome Fault (SocketAddress × Errno) (S × T)
  recorder_sock_remote_address system write fd (s, t) =
      recording write SyscallId.sock_remote_address (system (Request.sock_remote_address fd) s) t
        λ (addr, errno). some (encode_sock_remote_address [] fd addr errno)

  unfoldable pub recorder_sock_address_info :
      System Fault S
      → (SyscallId → List ℕ → T → T)
      → List ℕ
      → List ℕ
      → AddressInfo
      → List AddressInfo
      → S × T
      → Outcome Fault (List AddressInfo × ℤ × Errno) (S × T)
  recorder_sock_address_info system write name service hints results (s, t) =
      recording write SyscallId.sock_address_info
        (system (Request.sock_address_info name service hints results) s) t
        λ (results, n, errno).
          some (encode_sock_address_info [] name service hints (cut n results) errno)
