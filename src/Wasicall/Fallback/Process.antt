-- ===== src/Wasicall/Fallback/Process.antt =====
-- internal/timemachine/wasicall/fallback.go: the methods of fallbackSystem for polling, the process and randomness.
use timecraft.Common.{List, ℕ}
use timecraft.Common.Int.{ℤ}
use timecraft.Wasicall.Fallback.{or_else}
use timecraft.Wasicall.Poll.{Event, Subscription}
use timecraft.Wasicall.System.Request.{Outcome, Request, System}
use timecraft.Wasicall.Wasi.{Errno, ExitCode, Signal, Wasi}

module _ ⦃w : Wasi⦄ {Fault S T : Type 0} where
  unfoldable pub fallback_poll_one_off :
      System Fault S
      → System Fault T
      → List Subscription
      → List Event
      → S × T
      → Outcome Fault (List Event × ℤ × Errno) (S × T)
  fallback_poll_one_off primary secondary subscriptions events (s, t) =
      or_else (primary (Request.poll_one_off subscriptions events) s) t
        λ (events, count, errno). (errno, secondary (Request.poll_one_off subscriptions events))

  unfoldable pub fallback_proc_exit :
      System Fault S → System Fault T → ExitCode → S × T → Outcome Fault Errno (S × T)
  fallback_proc_exit primary secondary exit_code (s, t) =
      or_else (primary (Request.proc_exit exit_code) s) t
        λ errno. (errno, secondary (Request.proc_exit exit_code))

  unfoldable pub fallback_proc_raise :
      System Fault S → System Fault T → Signal → S × T → Outcome Fault Errno (S × T)
  fallback_proc_raise primary secondary signal (s, t) =
      or_else (primary (Request.proc_raise signal) s) t
        λ errno. (errno, secondary (Request.proc_raise signal))

  unfoldable pub fallback_sched_yield :
      System Fault S → System Fault T → S × T → Outcome Fault Errno (S × T)
  fallback_sched_yield primary secondary (s, t) =
      or_else (primary Request.sched_yield s) t λ errno. (errno, secondary Request.sched_yield)

  unfoldable pub fallback_random_get :
      System Fault S → System Fault T → List ℕ → S × T → Outcome Fault (List ℕ × Errno) (S × T)
  fallback_random_get primary secondary b (s, t) =
      or_else (primary (Request.random_get b) s) t
        λ (b, errno). (errno, secondary (Request.random_get b))
