-- ===== src/Wasicall/Fallback/Env.antt =====
-- internal/timemachine/wasicall/fallback.go: the methods of fallbackSystem for the arguments, the environment and the clocks.
use timecraft.Common.{List, ℕ}
use timecraft.Common.Int.{ℤ}
use timecraft.Wasicall.Fallback.{or_else}
use timecraft.Wasicall.System.Request.{Outcome, Request, System}
use timecraft.Wasicall.Wasi.{ClockId, Errno, Timestamp, Wasi}

module _ ⦃w : Wasi⦄ {Fault S T : Type 0} where
  unfoldable pub fallback_args_sizes_get :
      System Fault S → System Fault T → S × T → Outcome Fault (ℤ × ℤ × Errno) (S × T)
  fallback_args_sizes_get primary secondary (s, t) =
      or_else (primary Request.args_sizes_get s) t
        λ (arg_count, string_bytes, errno). (errno, secondary Request.args_sizes_get)

  unfoldable pub fallback_args_get :
      System Fault S → System Fault T → S × T → Outcome Fault (List (List ℕ) × Errno) (S × T)
  fallback_args_get primary secondary (s, t) =
      or_else (primary Request.args_get s) t λ (args, errno). (errno, secondary Request.args_get)

  unfoldable pub fallback_environ_sizes_get :
      System Fault S → System Fault T → S × T → Outcome Fault (ℤ × ℤ × Errno) (S × T)
  fallback_environ_sizes_get primary secondary (s, t) =
      or_else (primary Request.environ_sizes_get s) t
        λ (env_count, string_bytes, errno). (errno, secondary Request.environ_sizes_get)

  unfoldable pub fallback_environ_get :
      System Fault S → System Fault T → S × T → Outcome Fault (List (List ℕ) × Errno) (S × T)
  fallback_environ_get primary secondary (s, t) =
      or_else (primary Request.environ_get s) t
        λ (env, errno). (errno, secondary Request.environ_get)

  unfoldable pub fallback_clock_res_get :
      System Fault S → System Fault T → ClockId → S × T → Outcome Fault (Timestamp × Errno) (S × T)
  fallback_clock_res_get primary secondary id (s, t) =
      or_else (primary (Request.clock_res_get id) s) t
        λ (precision, errno). (errno, secondary (Request.clock_res_get id))

  unfoldable pub fallback_clock_time_get :
      System Fault S
      → System Fault T
      → ClockId
      → Timestamp
      → S × T
      → Outcome Fault (Timestamp × Errno) (S × T)
  fallback_clock_time_get primary secondary id precision (s, t) =
      or_else (primary (Request.clock_time_get id precision) s) t
        λ (timestamp, errno). (errno, secondary (Request.clock_time_get id precision))
