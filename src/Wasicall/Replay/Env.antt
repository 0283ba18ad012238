-- ===== src/Wasicall/Replay/Env.antt =====
-- internal/timemachine/wasicall/replay.go: the methods of Replay for the arguments, the environment and the clocks.
use timecraft.Common.{List, [], ℕ, ◌∷◌}
use timecraft.Common.Int.{pos, ℤ}
use timecraft.Common.Result.{ok}
use timecraft.Wasicall.Calls.Env.{
  decode_args_get, decode_args_sizes_get, decode_clock_res_get, decode_clock_time_get,
  decode_environ_get, decode_environ_sizes_get,
}
use timecraft.Wasicall.Replay.State.{Replay, checked, replaying}
use timecraft.Wasicall.Syscall.Ids.{SyscallId}
use timecraft.Wasicall.System.{same, zero_of}
use timecraft.Wasicall.System.Request.{Outcome}
use timecraft.Wasicall.Wasi.{ClockId, Errno, Timestamp, Wasi}

module _ ⦃w : Wasi⦄ {Time Fault W : Type 0} where
  unfoldable pub replay_args_sizes_get :
      Replay Time Fault W → Outcome Fault (ℤ × ℤ × Errno) (Replay Time Fault W)
  replay_args_sizes_get r =
      replaying SyscallId.args_sizes_get (pos 0, pos 0, w.enosys) decode_args_sizes_get r
        λ (arg_count, string_bytes, errno) r. (ok (arg_count, string_bytes, errno), r)

  unfoldable pub replay_args_get :
      Replay Time Fault W → Outcome Fault (List (List ℕ) × Errno) (Replay Time Fault W)
  replay_args_get r =
      replaying SyscallId.args_get ([], w.enosys) decode_args_get r
        λ (args, errno) r. (ok (args, errno), r)

  unfoldable pub replay_environ_sizes_get :
      Replay Time Fault W → Outcome Fault (ℤ × ℤ × Errno) (Replay Time Fault W)
  replay_environ_sizes_get r =
      replaying SyscallId.environ_sizes_get (pos 0, pos 0, w.enosys) decode_environ_sizes_get r
        λ (env_count, string_bytes, errno) r. (ok (env_count, string_bytes, errno), r)

  unfoldable pub replay_environ_get :
      Replay Time Fault W → Outcome Fault (List (List ℕ) × Errno) (Replay Time Fault W)
  replay_environ_get r =
      replaying SyscallId.environ_get ([], w.enosys) decode_environ_get r
        λ (args, errno) r. (ok (args, errno), r)

  unfoldable pub replay_clock_res_get :
      ClockId → Replay Time Fault W → Outcome Fault (Timestamp × Errno) (Replay Time Fault W)
  replay_clock_res_get id r =
      replaying SyscallId.clock_res_get (zero_of w.timestamp, w.enosys) decode_clock_res_get r
        λ (record_id, timestamp, errno) r.
          checked ((SyscallId.clock_res_get, "id", same w.clock_id id record_id) ∷ []) r
            (ok (timestamp, errno), r)

  unfoldable pub replay_clock_time_get :
      ClockId
      → Timestamp
      → Replay Time Fault W
      → Outcome Fault (Timestamp × Errno) (Replay Time Fault W)
  replay_clock_time_get id precision r =
      replaying SyscallId.clock_time_get (zero_of w.timestamp, w.enosys) decode_clock_time_get r
        λ (record_id, record_precision, timestamp, errno) r.
          checked
            ((SyscallId.clock_time_get, "id", same w.clock_id id record_id)
              ∷ (SyscallId.clock_time_get, "precision", same w.timestamp precision record_precision)
              ∷ [])
            r (ok (timestamp, errno), r)
