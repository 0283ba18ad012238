-- ===== src/Wasicall/Replay/Recorded/Process.antt =====
-- The replay of the recorded calls: polling, the process and randomness.
use timecraft.Common.{List, [], arith, length, refl, some, sym, ℕ, ◌∙◌, ◌≡◌}
use timecraft.Common.Int.{ℤ}
use timecraft.Common.Result.{err, ok}
use timecraft.Wasicall.Calls.Process.{
  decode_poll_one_off, decode_proc_exit, decode_proc_raise, decode_random_get, decode_sched_yield,
  encode_poll_one_off, encode_proc_exit, encode_proc_raise, encode_random_get, encode_sched_yield,
}
use timecraft.Wasicall.Calls.Process.RoundTrip.{
  poll_one_off_lem, proc_exit_lem, proc_raise_lem, random_get_lem, sched_yield_lem,
}
use timecraft.Wasicall.Poll.{Event, Subscription}
use timecraft.Wasicall.Replay.Buffers.{copy-Counted, copy_all, count-Counted, room-Counted}
use timecraft.Wasicall.Replay.Process.{
  replay_poll_one_off, replay_proc_exit, replay_proc_raise, replay_random_get, replay_sched_yield,
}
use timecraft.Wasicall.Replay.Recorded.{
  Answers, Holds, answers, checked-passes, equal_subscriptions_self, passes, replaying-Holds,
  selves,
}
use timecraft.Wasicall.Replay.State.{Replay, advance, mismatches}
use timecraft.Wasicall.Syscall.Call.{Syscall}
use timecraft.Wasicall.Syscall.Ids.{SyscallId}
use timecraft.Wasicall.Syscall.Log.{Record}
use timecraft.Wasicall.Syscall.Recordable.{IsRecordable}
use timecraft.Wasicall.Syscall.RoundTrip.{decoded}
use timecraft.Wasicall.System.{cut}
use timecraft.Wasicall.System.Exchange.{Counted}
use timecraft.Wasicall.System.Request.{exit_error}
use timecraft.Wasicall.Wasi.{Errno, ExitCode, Signal, Wasi}
use timecraft.Wasicall.Words.{encode_scalar32, encode_u32, le_bytes}
use timecraft.Wasicall.Words.RoundTrip.{Fits}

module _ ⦃w : Wasi⦄ where
  poll_one_off-decoded :
      (subscriptions : List Subscription) (events : List Event) (errno : Errno) (bytes : List ℕ)
      → IsRecordable (Syscall.poll_one_off subscriptions events errno)
      → encode_poll_one_off [] subscriptions events errno ≡ some bytes
      → Fits bytes
      → decode_poll_one_off bytes ≡ ok (subscriptions, events, errno)
  poll_one_off-decoded subscriptions events errno bytes valid written fits =
      let (b, encoded, gives) = poll_one_off_lem subscriptions events errno [] valid.0 valid.1 in
      let same : bytes ≡ b = cc (sym written ∙ encoded) in
      rw same (decoded decode_poll_one_off b gives (rw same at fits))

module _ ⦃w : Wasi⦄ {Time Fault W : Type 0} where
  pub replay_poll_one_off-recorded :
      (subscriptions : List Subscription) (events : List Event) (events_after : List Event) (n : ℤ)
      (errno : Errno) (r : Replay Time Fault W) (rest : List (Record Time)) (bytes : List ℕ)
      → IsRecordable (Syscall.poll_one_off subscriptions (cut n events_after) errno)
      → Counted n events events_after
      → encode_poll_one_off [] subscriptions (cut n events_after) errno ≡ some bytes
      → Fits bytes
      → Holds r SyscallId.poll_one_off bytes rest
      → Answers (replay_poll_one_off subscriptions events r) (events_after, n, errno) r rest
  unfolding replay_poll_one_off mismatches
  replay_poll_one_off-recorded subscriptions events events_after n errno r rest bytes valid answer
        written fits holds =
      answers _ _ _ holds
        (poll_one_off-decoded subscriptions (cut n events_after) errno bytes valid written fits)
        (passes _ _
          (simp (
            room-Counted n events events_after answer,
            equal_subscriptions_self subscriptions valid.0,
          ))
          (rw
            (copy-Counted n events events_after answer, count-Counted n events events_after answer)
            (record { returned = refl; left = refl })))

  pub replay_proc_raise-recorded :
      (signal : Signal) (errno : Errno) (r : Replay Time Fault W) (rest : List (Record Time))
      → Fits (encode_proc_raise [] signal errno)
      → Holds r SyscallId.proc_raise (encode_proc_raise [] signal errno) rest
      → Answers (replay_proc_raise signal r) errno r rest
  unfolding replay_proc_raise mismatches
  replay_proc_raise-recorded signal errno r rest fits holds =
      answers _ _ _ holds (decoded decode_proc_raise _ (proc_raise_lem signal errno []) fits)
        (passes _ _ (simp selves) (record { returned = refl; left = refl }))

  pub replay_sched_yield-recorded :
      (errno : Errno) (r : Replay Time Fault W) (rest : List (Record Time))
      → Fits (encode_sched_yield [] errno)
      → Holds r SyscallId.sched_yield (encode_sched_yield [] errno) rest
      → Answers (replay_sched_yield r) errno r rest
  unfolding replay_sched_yield
  replay_sched_yield-recorded errno r rest fits holds =
      answers _ _ _ holds (decoded decode_sched_yield _ (sched_yield_lem errno []) fits)
        (record { returned = refl; left = refl })

  pub replay_random_get-recorded :
      (buffer : List ℕ) (buffer_after : List ℕ) (errno : Errno) (r : Replay Time Fault W)
      (rest : List (Record Time))
      → length buffer_after ≡ length buffer
      → Fits (encode_random_get [] buffer_after errno)
      → Holds r SyscallId.random_get (encode_random_get [] buffer_after errno) rest
      → Answers (replay_random_get buffer r) (buffer_after, errno) r rest
  unfolding replay_random_get mismatches
  replay_random_get-recorded buffer buffer_after errno r rest answer fits holds =
      answers _ _ _ holds (decoded decode_random_get _ (random_get_lem buffer_after errno []) fits)
        (passes _ _ (simp (selves, answer))
          (rw (copy_all buffer buffer_after answer) (record { returned = refl; left = refl })))

module _ ⦃w : Wasi⦄ where
  encode_proc_exit-Fits :
      (exit_code : ExitCode) (errno : Errno) → Fits (encode_proc_exit [] exit_code errno)
  unfolding encode_proc_exit encode_scalar32 encode_u32 le_bytes
  encode_proc_exit-Fits exit_code errno = omega arith

module _ ⦃w : Wasi⦄ {Time Fault W : Type 0} where
  pub replay_proc_exit-recorded :
      (exit_code : ExitCode) (r : Replay Time Fault W) (rest : List (Record Time))
      → Holds r SyscallId.proc_exit (encode_proc_exit [] exit_code w.esuccess) rest
      → replay_proc_exit exit_code r
        ≡ (err (exit_error (w.exit_code.to_word exit_code)), advance rest r)
  unfolding replay_proc_exit mismatches
  replay_proc_exit-recorded exit_code r rest holds =
      replaying-Holds _ _ _ holds (
        decoded decode_proc_exit _ (proc_exit_lem exit_code w.esuccess [])
          (encode_proc_exit-Fits exit_code w.esuccess))
      ∙ checked-passes _ _ _ (simp selves)
