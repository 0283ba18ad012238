-- ===== src/Wasicall/Replay/SockInfo.antt =====
-- internal/timemachine/wasicall/replay.go: the methods of Replay for sockets: options and addresses.
use timecraft.Common.{List, [], leb, length, ℕ, ◌∷◌}
use timecraft.Common.Int.{pos, ℤ}
use timecraft.Common.Result.{ok}
use timecraft.Wasicall.Calls.SockInfo.{
  decode_sock_address_info, decode_sock_get_opt, decode_sock_local_address,
  decode_sock_remote_address, decode_sock_set_opt,
}
use timecraft.Wasicall.Replay.Equal.{equal_socket_option_value, same_bytes, same_hints}
use timecraft.Wasicall.Replay.State.{Replay, checked, replaying}
use timecraft.Wasicall.Sockets.{AddressInfo, SocketAddress, SocketOptionValue, no_address, no_value}
use timecraft.Wasicall.Syscall.Ids.{SyscallId}
use timecraft.Wasicall.System.{copy, same}
use timecraft.Wasicall.System.Request.{Outcome}
use timecraft.Wasicall.Wasi.{Errno, Fd, SocketOption, Wasi}

module _ ⦃w : Wasi⦄ {Time Fault W : Type 0} where
  unfoldable pub replay_sock_get_opt :
      Fd
      → SocketOption
      → Replay Time Fault W
      → Outcome Fault (SocketOptionValue × Errno) (Replay Time Fault W)
  replay_sock_get_opt fd option r =
      replaying SyscallId.sock_get_opt (no_value, w.enosys) decode_sock_get_opt r
        λ (record_fd, record_option, value, errno) r.
          checked
            ((SyscallId.sock_get_opt, "fd", same w.fd fd record_fd)
              ∷ (SyscallId.sock_get_opt, "option", same w.socket_option option record_option)
              ∷ [])
            r (ok (value, errno), r)

  unfoldable pub replay_sock_set_opt :
      Fd
      → SocketOption
      → SocketOptionValue
      → Replay Time Fault W
      → Outcome Fault Errno (Replay Time Fault W)
  replay_sock_set_opt fd option value r =
      replaying SyscallId.sock_set_opt w.enosys decode_sock_set_opt r
        λ (record_fd, record_option, record_value, errno) r.
          checked
            ((SyscallId.sock_set_opt, "fd", same w.fd fd record_fd)
              ∷ (SyscallId.sock_set_opt, "option", same w.socket_option option record_option)
              ∷ (SyscallId.sock_set_opt, "value", equal_socket_option_value value record_value)
              ∷ [])
            r (ok errno, r)

  unfoldable pub replay_sock_local_address :
      Fd → Replay Time Fault W → Outcome Fault (SocketAddress × Errno) (Replay Time Fault W)
  replay_sock_local_address fd r =
      replaying SyscallId.sock_local_address (no_address, w.enosys) decode_sock_local_address r
        λ (record_fd, addr, errno) r.
          checked ((SyscallId.sock_local_address, "fd", same w.fd fd record_fd) ∷ []) r
            (ok (addr, errno), r)

  unfoldable pub replay_sock_remote_address :
      Fd → Replay Time Fault W → Outcome Fault (SocketAddress × Errno) (Replay Time Fault W)
  replay_sock_remote_address fd r =
      replaying SyscallId.sock_remote_address (no_address, w.enosys) decode_sock_remote_address r
        λ (record_fd, addr, errno) r.
          checked ((SyscallId.sock_remote_address, "fd", same w.fd fd record_fd) ∷ []) r
            (ok (addr, errno), r)

  unfoldable pub replay_sock_address_info :
      List ℕ
      → List ℕ
      → AddressInfo
      → List AddressInfo
      → Replay Time Fault W
      → Outcome Fault (List AddressInfo × ℤ × Errno) (Replay Time Fault W)
  replay_sock_address_info name service hints buffer r =
      replaying SyscallId.sock_address_info (buffer, pos 0, w.enosys) decode_sock_address_info r
        λ (record_name, record_service, record_hints, results, errno) r.
          checked
            ((SyscallId.sock_address_info, "name", same_bytes name record_name)
              ∷ (SyscallId.sock_address_info, "service", same_bytes service record_service)
              ∷ (SyscallId.sock_address_info, "hints", same_hints hints record_hints)
              ∷ (SyscallId.path_read_link, "results", leb (length results) (length buffer))
              ∷ [])
            r (ok (copy buffer results, pos (length results), errno), r)
