-- ===== src/Wasicall/Observer/Env.antt =====
-- internal/timemachine/wasicall/observer.go: the methods of observerSystem for the arguments, the environment and the clocks.
use timecraft.Common.{List, Option, [], ℕ}
use timecraft.Common.Int.{pos, ℤ}
use timecraft.Wasicall.Observer.{notify, observing}
use timecraft.Wasicall.Syscall.Call.{Syscall}
use timecraft.Wasicall.System.{zero_of}
use timecraft.Wasicall.System.Request.{Outcome, Request, System}
use timecraft.Wasicall.Wasi.{ClockId, Errno, Timestamp, Wasi}

module _ ⦃w : Wasi⦄ {Fault S T : Type 0} where
  unfoldable pub observer_args_sizes_get :
      System Fault S
      → Option (Syscall → T → T)
      → Option (Syscall → T → T)
      → S × T
      → Outcome Fault (ℤ × ℤ × Errno) (S × T)
  observer_args_sizes_get system before after (s, t) =
      let t = notify before (Syscall.args_sizes_get (pos 0) (pos 0) (zero_of w.errno)) t in
      observing after (system Request.args_sizes_get s) t
        λ (arg_count, string_bytes, errno). Syscall.args_sizes_get arg_count string_bytes errno

  unfoldable pub observer_args_get :
      System Fault S
      → Option (Syscall → T → T)
      → Option (Syscall → T → T)
      → S × T
      → Outcome Fault (List (List ℕ) × Errno) (S × T)
  observer_args_get system before after (s, t) =
      let t = notify before (Syscall.args_get [] (zero_of w.errno)) t in
      observing after (system Request.args_get s) t λ (args, errno). Syscall.args_get args errno

  unfoldable pub observer_environ_sizes_get :
      System Fault S
      → Option (Syscall → T → T)
      → Option (Syscall → T → T)
      → S × T
      → Outcome Fault (ℤ × ℤ × Errno) (S × T)
  observer_environ_sizes_get system before after (s, t) =
      let t = notify before (Syscall.environ_sizes_get (pos 0) (pos 0) (zero_of w.errno)) t in
      observing after (system Request.environ_sizes_get s) t
        λ (env_count, string_bytes, errno). Syscall.environ_sizes_get env_count string_bytes errno

  unfoldable pub observer_environ_get :
      System Fault S
      → Option (Syscall → T → T)
      → Option (Syscall → T → T)
      → S × T
      → Outcome Fault (List (List ℕ) × Errno) (S × T)
  observer_environ_get system before after (s, t) =
      let t = notify before (Syscall.environ_get [] (zero_of w.errno)) t in
      observing after (system Request.environ_get s) t λ (env, errno). Syscall.environ_get env errno

  unfoldable pub observer_clock_res_get :
      System Fault S
      → Option (Syscall → T → T)
      → Option (Syscall → T → T)
      → ClockId
      → S × T
      → Outcome Fault (Timestamp × Errno) (S × T)
  observer_clock_res_get system before after clock_id (s, t) =
      let t =
        notify before (Syscall.clock_res_get clock_id (zero_of w.timestamp) (zero_of w.errno)) t in
      observing after (system (Request.clock_res_get clock_id) s) t
        λ (timestamp, errno). Syscall.clock_res_get clock_id timestamp errno

  unfoldable pub observer_clock_time_get :
      System Fault S
      → Option (Syscall → T → T)
      → Option (Syscall → T → T)
      → ClockId
      → Timestamp
      → S × T
      → Outcome Fault (Timestamp × Errno) (S × T)
  observer_clock_time_get system before after clock_id precision (s, t) =
      let t =
        notify before
          (Syscall.clock_time_get clock_id precision (zero_of w.timestamp) (zero_of w.errno)) t in
      observing after (system (Request.clock_time_get clock_id precision) s) t
        λ (timestamp, errno). Syscall.clock_time_get clock_id precision timestamp errno
