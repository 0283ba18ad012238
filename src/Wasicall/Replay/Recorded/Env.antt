-- ===== src/Wasicall/Replay/Recorded/Env.antt =====
-- The replay of the recorded calls: the arguments, the environment and the clocks.
use timecraft.Common.{List, [], refl, ℕ}
use timecraft.Common.Int.{ℤ}
use timecraft.Wasicall.Calls.Env.{
  decode_args_get, decode_args_sizes_get, decode_clock_res_get, decode_clock_time_get,
  decode_environ_get, decode_environ_sizes_get, encode_args_get, encode_args_sizes_get,
  encode_clock_res_get, encode_clock_time_get, encode_environ_get, encode_environ_sizes_get,
}
use timecraft.Wasicall.Calls.Env.RoundTrip.{
  args_get_lem, args_sizes_get_lem, clock_res_get_lem, clock_time_get_lem, environ_get_lem,
  environ_sizes_get_lem,
}
use timecraft.Wasicall.Replay.Env.{
  replay_args_get, replay_args_sizes_get, replay_clock_res_get, replay_clock_time_get,
  replay_environ_get, replay_environ_sizes_get,
}
use timecraft.Wasicall.Replay.Recorded.{Answers, Holds, answers, passes, selves}
use timecraft.Wasicall.Replay.State.{Replay, mismatches}
use timecraft.Wasicall.Syscall.Call.{Syscall}
use timecraft.Wasicall.Syscall.Ids.{SyscallId}
use timecraft.Wasicall.Syscall.Log.{Record}
use timecraft.Wasicall.Syscall.Recordable.{IsRecordable}
use timecraft.Wasicall.Syscall.RoundTrip.{decoded}
use timecraft.Wasicall.Wasi.{ClockId, Errno, Timestamp, Wasi}
use timecraft.Wasicall.Words.RoundTrip.{Fits}

module _ ⦃w : Wasi⦄ {Time Fault W : Type 0} where
  pub replay_args_sizes_get-recorded :
      (arg_count : ℤ) (string_bytes : ℤ) (errno : Errno) (r : Replay Time Fault W)
      (rest : List (Record Time))
      → IsRecordable (Syscall.args_sizes_get arg_count string_bytes errno)
      → Fits (encode_args_sizes_get [] arg_count string_bytes errno)
      → Holds r SyscallId.args_sizes_get
          (encode_args_sizes_get [] arg_count string_bytes errno)
          rest
      → Answers (replay_args_sizes_get r) (arg_count, string_bytes, errno) r rest
  unfolding replay_args_sizes_get
  replay_args_sizes_get-recorded arg_count string_bytes errno r rest valid fits holds =
      answers _ _ _ holds
        (decoded decode_args_sizes_get _
          (args_sizes_get_lem arg_count string_bytes errno [] valid.0 valid.1) fits)
        (record { returned = refl; left = refl })

  pub replay_args_get-recorded :
      (args : List (List ℕ)) (errno : Errno) (r : Replay Time Fault W) (rest : List (Record Time))
      → IsRecordable (Syscall.args_get args errno)
      → Fits (encode_args_get [] args errno)
      → Holds r SyscallId.args_get (encode_args_get [] args errno) rest
      → Answers (replay_args_get r) (args, errno) r rest
  unfolding replay_args_get
  replay_args_get-recorded args errno r rest valid fits holds =
      answers _ _ _ holds (decoded decode_args_get _ (args_get_lem args errno [] valid) fits)
        (record { returned = refl; left = refl })

  pub replay_environ_sizes_get-recorded :
      (env_count : ℤ) (string_bytes : ℤ) (errno : Errno) (r : Replay Time Fault W)
      (rest : List (Record Time))
      → IsRecordable (Syscall.environ_sizes_get env_count string_bytes errno)
      → Fits (encode_environ_sizes_get [] env_count string_bytes errno)
      → Holds r SyscallId.environ_sizes_get
          (encode_environ_sizes_get [] env_count string_bytes errno)
          rest
      → Answers (replay_environ_sizes_get r) (env_count, string_bytes, errno) r rest
  unfolding replay_environ_sizes_get
  replay_environ_sizes_get-recorded env_count string_bytes errno r rest valid fits holds =
      answers _ _ _ holds
        (decoded decode_environ_sizes_get _
          (environ_sizes_get_lem env_count string_bytes errno [] valid.0 valid.1) fits)
        (record { returned = refl; left = refl })

  pub replay_environ_get-recorded :
      (env : List (List ℕ)) (errno : Errno) (r : Replay Time Fault W) (rest : List (Record Time))
      → IsRecordable (Syscall.environ_get env errno)
      → Fits (encode_environ_get [] env errno)
      → Holds r SyscallId.environ_get (encode_environ_get [] env errno) rest
      → Answers (replay_environ_get r) (env, errno) r rest
  unfolding replay_environ_get
  replay_environ_get-recorded env errno r rest valid fits holds =
      answers _ _ _ holds (decoded decode_environ_get _ (environ_get_lem env errno [] valid) fits)
        (record { returned = refl; left = refl })

  pub replay_clock_res_get-recorded :
      (id : ClockId) (timestamp : Timestamp) (errno : Errno) (r : Replay Time Fault W)
      (rest : List (Record Time))
      → Fits (encode_clock_res_get [] id timestamp errno)
      → Holds r SyscallId.clock_res_get (encode_clock_res_get [] id timestamp errno) rest
      → Answers (replay_clock_res_get id r) (timestamp, errno) r rest
  unfolding replay_clock_res_get mismatches
  replay_clock_res_get-recorded id timestamp errno r rest fits holds =
      answers _ _ _ holds
        (decoded decode_clock_res_get _ (clock_res_get_lem id timestamp errno []) fits)
        (passes _ _ (simp selves) (record { returned = refl; left = refl }))

  pub replay_clock_time_get-recorded :
      (id : ClockId) (precision : Timestamp) (timestamp : Timestamp) (errno : Errno)
      (r : Replay Time Fault W) (rest : List (Record Time))
      → Fits (encode_clock_time_get [] id precision timestamp errno)
      → Holds r SyscallId.clock_time_get
          (encode_clock_time_get [] id precision timestamp errno)
          rest
      → Answers (replay_clock_time_get id precision r) (timestamp, errno) r rest
  unfolding replay_clock_time_get mismatches
  replay_clock_time_get-recorded id precision timestamp errno r rest fits holds =
      answers _ _ _ holds
        (decoded decode_clock_time_get _ (clock_time_get_lem id precision timestamp errno []) fits)
        (passes _ _ (simp selves) (record { returned = refl; left = refl }))
