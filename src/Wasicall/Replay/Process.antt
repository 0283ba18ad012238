-- ===== src/Wasicall/Replay/Process.antt =====
-- internal/timemachine/wasicall/replay.go: the methods of Replay for polling, the process and randomness.
use timecraft.Common.{List, [], leb, length, ℕ, ◌==◌, ◌∷◌}
use timecraft.Common.Int.{pos, ℤ}
use timecraft.Common.Result.{err, ok}
use timecraft.Wasicall.Calls.Process.{
  decode_poll_one_off, decode_proc_exit, decode_proc_raise, decode_random_get, decode_sched_yield,
}
use timecraft.Wasicall.Poll.{Event, Subscription}
use timecraft.Wasicall.Replay.Equal.{equal_subscriptions}
use timecraft.Wasicall.Replay.State.{Replay, checked, replaying}
use timecraft.Wasicall.Syscall.Ids.{SyscallId}
use timecraft.Wasicall.System.{copy, same}
use timecraft.Wasicall.System.Request.{Outcome, exit_error}
use timecraft.Wasicall.Wasi.{Errno, ExitCode, Signal, Wasi}

module _ ⦃w : Wasi⦄ {Time Fault W : Type 0} where
  unfoldable pub replay_poll_one_off :
      List Subscription
      → List Event
      → Replay Time Fault W
      → Outcome Fault (List Event × ℤ × Errno) (Replay Time Fault W)
  replay_poll_one_off subscriptions events r =
      replaying SyscallId.poll_one_off (events, pos 0, w.enosys) decode_poll_one_off r
        λ (record_subscriptions, record_events, errno) r.
          checked
            ((
              SyscallId.poll_one_off,
              "subscriptions",
              equal_subscriptions subscriptions record_subscriptions,
            )
              ∷ (SyscallId.poll_one_off, "events", leb (length record_events) (length events))
              ∷ [])
            r (ok (copy events record_events, pos (length record_events), errno), r)

  unfoldable pub replay_proc_exit :
      ExitCode → Replay Time Fault W → Outcome Fault Errno (Replay Time Fault W)
  replay_proc_exit exit_code r =
      replaying SyscallId.proc_exit w.enosys decode_proc_exit r λ (record_exit_code, errno) r.
        checked
          ((SyscallId.proc_exit, "exitCode", same w.exit_code exit_code record_exit_code) ∷ []) r
          (err (exit_error (w.exit_code.to_word exit_code)), r)

  unfoldable pub replay_proc_raise :
      Signal → Replay Time Fault W → Outcome Fault Errno (Replay Time Fault W)
  replay_proc_raise signal r =
      replaying SyscallId.proc_raise w.enosys decode_proc_raise r λ (record_signal, errno) r.
        checked ((SyscallId.proc_raise, "signal", same w.signal signal record_signal) ∷ []) r
          (ok errno, r)

  unfoldable pub replay_sched_yield :
      Replay Time Fault W → Outcome Fault Errno (Replay Time Fault W)
  replay_sched_yield r =
      replaying SyscallId.sched_yield w.enosys decode_sched_yield r λ errno r. (ok errno, r)

  unfoldable pub replay_random_get :
      List ℕ → Replay Time Fault W → Outcome Fault (List ℕ × Errno) (Replay Time Fault W)
  replay_random_get buffer r =
      replaying SyscallId.random_get (buffer, w.enosys) decode_random_get r
        λ (record_buffer, errno) r.
          checked ((SyscallId.random_get, "buffer", length buffer == length record_buffer) ∷ []) r
            (ok (copy buffer record_buffer, errno), r)
