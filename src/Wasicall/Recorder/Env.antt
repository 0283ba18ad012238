-- ===== src/Wasicall/Recorder/Env.antt =====
-- internal/timemachine/wasicall/record.go: the methods of recorderSystem for the arguments, the environment and the clocks.
use timecraft.Common.{List, [], some, ℕ}
use timecraft.Common.Int.{ℤ}
use timecraft.Wasicall.Calls.Env.{
  encode_args_get, encode_args_sizes_get, encode_clock_res_get, encode_clock_time_get,
  encode_environ_get, encode_environ_sizes_get,
}
use timecraft.Wasicall.Recorder.{recording}
use timecraft.Wasicall.Syscall.Ids.{SyscallId}
use timecraft.Wasicall.System.Request.{Outcome, Request, System}
use timecraft.Wasicall.Wasi.{ClockId, Errno, Timestamp, Wasi}

module _ ⦃w : Wasi⦄ {Fault S T : Type 0} where
  unfoldable pub recorder_args_sizes_get :
      System Fault S → (SyscallId → List ℕ → T → T) → S × T → Outcome Fault (ℤ × ℤ × Errno) (S × T)
  recorder_args_sizes_get system write (s, t) =
      recording write SyscallId.args_sizes_get (system Request.args_sizes_get s) t
        λ (arg_count, string_bytes, errno).
          some (encode_args_sizes_get [] arg_count string_bytes errno)

  unfoldable pub recorder_args_get :
      System Fault S
      → (SyscallId → List ℕ → T → T)
      → S × T
      → Outcome Fault (List (List ℕ) × Errno) (S × T)
  recorder_args_get system write (s, t) =
      recording write SyscallId.args_get (system Request.args_get s) t
        λ (args, errno). some (encode_args_get [] args errno)

  unfoldable pub recorder_environ_sizes_get :
      System Fault S → (SyscallId → List ℕ → T → T) → S × T → Outcome Fault (ℤ × ℤ × Errno) (S × T)
  recorder_environ_sizes_get system write (s, t) =
      recording write SyscallId.environ_sizes_get (system Request.environ_sizes_get s) t
        λ (env_count, string_bytes, errno).
          some (encode_environ_sizes_get [] env_count string_bytes errno)

  unfoldable pub recorder_environ_get :
      System Fault S
      → (SyscallId → List ℕ → T → T)
      → S × T
      → Outcome Fault (List (List ℕ) × Errno) (S × T)
  recorder_environ_get system write (s, t) =
      recording write SyscallId.environ_get (system Request.environ_get s) t
        λ (env, errno). some (encode_environ_get [] env errno)

  unfoldable pub recorder_clock_res_get :
      System Fault S
      → (SyscallId → List ℕ → T → T)
      → ClockId
      → S × T
      → Outcome Fault (Timestamp × Errno) (S × T)
  recorder_clock_res_get system write id (s, t) =
      recording write SyscallId.clock_res_get (system (Request.clock_res_get id) s) t
        λ (timestamp, errno). some (encode_clock_res_get [] id timestamp errno)

  unfoldable pub recorder_clock_time_get :
      System Fault S
      → (SyscallId → List ℕ → T → T)
      → ClockId
      → Timestamp
      → S × T
      → Outcome Fault (Timestamp × Errno) (S × T)
  recorder_clock_time_get system write id precision (s, t) =
      recording write SyscallId.clock_time_get (system (Request.clock_time_get id precision) s) t
        λ (timestamp, errno). some (encode_clock_time_get [] id precision timestamp errno)
