-- ===== src/Wasicall/Replay/Recorded/SockInfo.antt =====
-- The replay of the recorded calls: sockets: options and addresses.
use timecraft.Common.{List, [], refl, ℕ, ◌≡◌}
use timecraft.Common.Int.{ℤ}
use timecraft.Wasicall.Calls.SockInfo.{
  decode_sock_address_info, decode_sock_get_opt, decode_sock_local_address,
  decode_sock_remote_address, decode_sock_set_opt, encode_sock_address_info, encode_sock_get_opt,
  encode_sock_local_address, encode_sock_remote_address, encode_sock_set_opt,
}
use timecraft.Wasicall.Calls.SockInfo.RoundTrip.{
  sock_address_info_lem, sock_get_opt_lem, sock_local_address_lem, sock_remote_address_lem,
  sock_set_opt_lem,
}
use timecraft.Wasicall.Replay.Buffers.{copy-Counted, count-Counted, room-Counted}
use timecraft.Wasicall.Replay.Equal.{same_hints}
use timecraft.Wasicall.Replay.Recorded.{Answers, Holds, answers, passes, selves}
use timecraft.Wasicall.Replay.SockInfo.{
  replay_sock_address_info, replay_sock_get_opt, replay_sock_local_address,
  replay_sock_remote_address, replay_sock_set_opt,
}
use timecraft.Wasicall.Replay.State.{Replay, mismatches}
use timecraft.Wasicall.Sockets.{AddressInfo, SocketAddress, SocketOptionValue, no_address}
use timecraft.Wasicall.Syscall.Call.{Syscall}
use timecraft.Wasicall.Syscall.Ids.{SyscallId}
use timecraft.Wasicall.Syscall.Log.{Record}
use timecraft.Wasicall.Syscall.Recordable.{IsRecordable}
use timecraft.Wasicall.Syscall.RoundTrip.{decoded}
use timecraft.Wasicall.System.{cut}
use timecraft.Wasicall.System.Exchange.{Counted}
use timecraft.Wasicall.Wasi.{Errno, Fd, SocketOption, Wasi}
use timecraft.Wasicall.Words.RoundTrip.{Fits}

module _ ⦃w : Wasi⦄ {Time Fault W : Type 0} where
  pub replay_sock_get_opt-recorded :
      (fd : Fd) (option : SocketOption) (value : SocketOptionValue) (errno : Errno)
      (r : Replay Time Fault W) (rest : List (Record Time))
      → IsRecordable (Syscall.sock_get_opt fd option value errno)
      → Fits (encode_sock_get_opt [] fd option value errno)
      → Holds r SyscallId.sock_get_opt (encode_sock_get_opt [] fd option value errno) rest
      → Answers (replay_sock_get_opt fd option r) (value, errno) r rest
  unfolding replay_sock_get_opt mismatches
  replay_sock_get_opt-recorded fd option value errno r rest valid fits holds =
      answers _ _ _ holds
        (decoded decode_sock_get_opt _ (sock_get_opt_lem fd option value errno [] valid) fits)
        (passes _ _ (simp selves) (record { returned = refl; left = refl }))

  pub replay_sock_set_opt-recorded :
      (fd : Fd) (option : SocketOption) (value : SocketOptionValue) (errno : Errno)
      (r : Replay Time Fault W) (rest : List (Record Time))
      → IsRecordable (Syscall.sock_set_opt fd option value errno)
      → Fits (encode_sock_set_opt [] fd option value errno)
      → Holds r SyscallId.sock_set_opt (encode_sock_set_opt [] fd option value errno) rest
      → Answers (replay_sock_set_opt fd option value r) errno r rest
  unfolding replay_sock_set_opt mismatches
  replay_sock_set_opt-recorded fd option value errno r rest valid fits holds =
      answers _ _ _ holds
        (decoded decode_sock_set_opt _ (sock_set_opt_lem fd option value errno [] valid) fits)
        (passes _ _ (simp selves) (record { returned = refl; left = refl }))

  pub replay_sock_local_address-recorded :
      (fd : Fd) (addr : SocketAddress) (errno : Errno) (r : Replay Time Fault W)
      (rest : List (Record Time))
      → IsRecordable (Syscall.sock_local_address fd addr errno)
      → Fits (encode_sock_local_address [] fd addr errno)
      → Holds r SyscallId.sock_local_address (encode_sock_local_address [] fd addr errno) rest
      → Answers (replay_sock_local_address fd r) (addr, errno) r rest
  unfolding replay_sock_local_address mismatches
  replay_sock_local_address-recorded fd addr errno r rest valid fits holds =
      answers _ _ _ holds
        (decoded decode_sock_local_address _ (sock_local_address_lem fd addr errno [] valid) fits)
        (passes _ _ (simp selves) (record { returned = refl; left = refl }))

  pub replay_sock_remote_address-recorded :
      (fd : Fd) (addr : SocketAddress) (errno : Errno) (r : Replay Time Fault W)
      (rest : List (Record Time))
      → IsRecordable (Syscall.sock_remote_address fd addr errno)
      → Fits (encode_sock_remote_address [] fd addr errno)
      → Holds r SyscallId.sock_remote_address (encode_sock_remote_address [] fd addr errno) rest
      → Answers (replay_sock_remote_address fd r) (addr, errno) r rest
  unfolding replay_sock_remote_address mismatches
  replay_sock_remote_address-recorded fd addr errno r rest valid fits holds =
      answers _ _ _ holds
        (decoded decode_sock_remote_address _ (sock_remote_address_lem fd addr errno [] valid) fits)
        (passes _ _ (simp selves) (record { returned = refl; left = refl }))

  pub replay_sock_address_info-recorded :
      (name : List ℕ) (service : List ℕ) (hints : AddressInfo) (buffer : List AddressInfo)
      (buffer_after : List AddressInfo) (n : ℤ) (errno : Errno) (r : Replay Time Fault W)
      (rest : List (Record Time))
      → IsRecordable (Syscall.sock_address_info name service hints (cut n buffer_after) errno)
      → Counted n buffer buffer_after × (hints.address ≡ no_address)
      → Fits (encode_sock_address_info [] name service hints (cut n buffer_after) errno)
      → Holds r SyscallId.sock_address_info
          (encode_sock_address_info [] name service hints (cut n buffer_after) errno)
          rest
      → Answers
          (replay_sock_address_info name service hints buffer r)
          (buffer_after, n, errno)
          r
          rest
  unfolding replay_sock_address_info mismatches same_hints
  replay_sock_address_info-recorded name service hints buffer buffer_after n errno r rest valid
        answer fits holds =
      answers _ _ _ holds
        (decoded decode_sock_address_info _
          (sock_address_info_lem name service hints (cut n buffer_after) errno [] valid.0 valid.1)
          fits)
        (passes _ _ (simp (selves, room-Counted n buffer buffer_after answer.0, answer.1)) (
          rw
            (
              copy-Counted n buffer buffer_after answer.0,
              count-Counted n buffer buffer_after answer.0,
            )
            (record { returned = refl; left = refl })))
