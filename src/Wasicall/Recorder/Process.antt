-- ===== src/Wasicall/Recorder/Process.antt =====
-- internal/timemachine/wasicall/record.go: the methods of recorderSystem for polling, the process and randomness.
use timecraft.Common.{List, [], some, ℕ}
use timecraft.Common.Int.{ℤ}
use timecraft.Wasicall.Calls.Process.{
  encode_poll_one_off, encode_proc_exit, encode_proc_raise, encode_random_get, encode_sched_yield,
}
use timecraft.Wasicall.Poll.{Event, Subscription}
use timecraft.Wasicall.Recorder.{beside, recording}
use timecraft.Wasicall.Syscall.Ids.{SyscallId}
use timecraft.Wasicall.System.{cut}
use timecraft.Wasicall.System.Request.{Outcome, Request, System}
use timecraft.Wasicall.Wasi.{Errno, ExitCode, Signal, Wasi}

module _ ⦃w : Wasi⦄ {Fault S T : Type 0} where
  unfoldable pub recorder_poll_one_off :
      System Fault S
      → (SyscallId → List ℕ → T → T)
      → List Subscription
      → List Event
      → S × T
      → Outcome Fault (List Event × ℤ × Errno) (S × T)
  recorder_poll_one_off system write subscriptions events (s, t) =
      recording write SyscallId.poll_one_off (system (Request.poll_one_off subscriptions events) s)
        t λ (events, n, errno). encode_poll_one_off [] subscriptions (cut n events) errno

  unfoldable pub recorder_proc_exit :
      System Fault S → (SyscallId → List ℕ → T → T) → ExitCode → S × T → Outcome Fault Errno (S × T)
  recorder_proc_exit system write exit_code (s, t) =
      let t = write SyscallId.proc_exit (encode_proc_exit [] exit_code w.esuccess) t in
      beside t (system (Request.proc_exit exit_code) s)

  unfoldable pub recorder_proc_raise :
      System Fault S → (SyscallId → List ℕ → T → T) → Signal → S × T → Outcome Fault Errno (S × T)
  recorder_proc_raise system write signal (s, t) =
      recording write SyscallId.proc_raise (system (Request.proc_raise signal) s) t
        λ errno. some (encode_proc_raise [] signal errno)

  unfoldable pub recorder_sched_yield :
      System Fault S → (SyscallId → List ℕ → T → T) → S × T → Outcome Fault Errno (S × T)
  recorder_sched_yield system write (s, t) =
      recording write SyscallId.sched_yield (system Request.sched_yield s) t
        λ errno. some (encode_sched_yield [] errno)

  unfoldable pub recorder_random_get :
      System Fault S
      → (SyscallId → List ℕ → T → T)
      → List ℕ
      → S × T
      → Outcome Fault (List ℕ × Errno) (S × T)
  recorder_random_get system write b (s, t) =
      recording write SyscallId.random_get (system (Request.random_get b) s) t
        λ (b, errno). some (encode_random_get [] b errno)
