-- ===== src/Wasicall/Observer/Process.antt =====
-- internal/timemachine/wasicall/observer.go: the methods of observerSystem for polling, the process and randomness.
use timecraft.Common.{List, Option, ℕ}
use timecraft.Common.Int.{ℤ}
use timecraft.Wasicall.Observer.{notify, observing}
use timecraft.Wasicall.Poll.{Event, Subscription}
use timecraft.Wasicall.Syscall.Call.{Syscall}
use timecraft.Wasicall.System.{cut, zero_of}
use timecraft.Wasicall.System.Request.{Outcome, Request, System}
use timecraft.Wasicall.Wasi.{Errno, ExitCode, Signal, Wasi}

module _ ⦃w : Wasi⦄ {Fault S T : Type 0} where
  unfoldable pub observer_poll_one_off :
      System Fault S
      → Option (Syscall → T → T)
      → Option (Syscall → T → T)
      → List Subscription
      → List Event
      → S × T
      → Outcome Fault (List Event × ℤ × Errno) (S × T)
  observer_poll_one_off system before after subscriptions events (s, t) =
      let t = notify before (Syscall.poll_one_off subscriptions events (zero_of w.errno)) t in
      observing after (system (Request.poll_one_off subscriptions events) s) t
        λ (events, count, errno). Syscall.poll_one_off subscriptions (cut count events) errno

  unfoldable pub observer_proc_exit :
      System Fault S
      → Option (Syscall → T → T)
      → Option (Syscall → T → T)
      → ExitCode
      → S × T
      → Outcome Fault Errno (S × T)
  observer_proc_exit system before after exit_code (s, t) =
      let t = notify before (Syscall.proc_exit exit_code (zero_of w.errno)) t in
      observing after (system (Request.proc_exit exit_code) s) t
        λ errno. Syscall.proc_exit exit_code errno

  unfoldable pub observer_proc_raise :
      System Fault S
      → Option (Syscall → T → T)
      → Option (Syscall → T → T)
      → Signal
      → S × T
      → Outcome Fault Errno (S × T)
  observer_proc_raise system before after signal (s, t) =
      let t = notify before (Syscall.proc_raise signal (zero_of w.errno)) t in
      observing after (system (Request.proc_raise signal) s) t
        λ errno. Syscall.proc_raise signal errno

  unfoldable pub observer_sched_yield :
      System Fault S
      → Option (Syscall → T → T)
      → Option (Syscall → T → T)
      → S × T
      → Outcome Fault Errno (S × T)
  observer_sched_yield system before after (s, t) =
      let t = notify before (Syscall.sched_yield (zero_of w.errno)) t in
      observing after (system Request.sched_yield s) t λ errno. Syscall.sched_yield errno

  unfoldable pub observer_random_get :
      System Fault S
      → Option (Syscall → T → T)
      → Option (Syscall → T → T)
      → List ℕ
      → S × T
      → Outcome Fault (List ℕ × Errno) (S × T)
  observer_random_get system before after b (s, t) =
      let t = notify before (Syscall.random_get b (zero_of w.errno)) t in
      observing after (system (Request.random_get b) s) t λ (b, errno). Syscall.random_get b errno
