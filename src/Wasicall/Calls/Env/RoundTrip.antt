-- ===== src/Wasicall/Calls/Env/RoundTrip.antt =====
-- The round trips of the codec of the arguments, the environment and the clocks.
use timecraft.Common.{List, [], length, refl, ℕ, ◌++◌, ◌<◌, ◌^◌, ◌≡◌}
use timecraft.Common.Int.{ℤ}
use timecraft.Common.Result.{ok}
use timecraft.Wasicall.Calls.Env.{
  decode_args_get, decode_args_sizes_get, decode_clock_res_get, decode_clock_time_get,
  decode_environ_get, decode_environ_sizes_get, encode_args_get, encode_args_sizes_get,
  encode_clock_res_get, encode_clock_time_get, encode_environ_get, encode_environ_sizes_get,
}
use timecraft.Wasicall.Lists.{encode_strings-append, string_list}
use timecraft.Wasicall.Wasi.{ClockId, Errno, Timestamp, Wasi}
use timecraft.Wasicall.Words.RoundTrip.{
  Fits, IsInt64, appended, int_codec, read_then, scalar32, scalar64,
}

module _ ⦃w : Wasi⦄ where
  pub args_sizes_get_lem :
      (arg_count : ℤ) (string_bytes : ℤ) (errno : Errno) (rest : List ℕ)
      → IsInt64 arg_count
      → IsInt64 string_bytes
      → Fits (encode_args_sizes_get [] arg_count string_bytes errno ++ rest)
      → decode_args_sizes_get (encode_args_sizes_get [] arg_count string_bytes errno ++ rest)
        ≡ ok (arg_count, string_bytes, errno)
  unfolding encode_args_sizes_get decode_args_sizes_get
  args_sizes_get_lem arg_count string_bytes errno rest valid_arg_count valid_string_bytes fits =
      let fits = simp appended at fits in
      simp appended (
        read_then (scalar32 w.errno) errno _ tt fits λ fits.
          read_then int_codec arg_count _ valid_arg_count fits
            λ fits. read_then int_codec string_bytes _ valid_string_bytes fits λ fits. refl)

  pub args_get_lem :
      (args : List (List ℕ)) (errno : Errno) (rest : List ℕ)
      → length args < 2 ^ 32
      → Fits (encode_args_get [] args errno ++ rest)
      → decode_args_get (encode_args_get [] args errno ++ rest) ≡ ok (args, errno)
  unfolding encode_args_get decode_args_get
  args_get_lem args errno rest valid_args fits =
      let fits = simp (appended, encode_strings-append) at fits in
      simp (appended, encode_strings-append)
        (read_then (scalar32 w.errno) errno _ tt fits
          λ fits. read_then string_list args _ valid_args fits λ fits. refl)

  pub environ_sizes_get_lem :
      (env_count : ℤ) (string_bytes : ℤ) (errno : Errno) (rest : List ℕ)
      → IsInt64 env_count
      → IsInt64 string_bytes
      → Fits (encode_environ_sizes_get [] env_count string_bytes errno ++ rest)
      → decode_environ_sizes_get (encode_environ_sizes_get [] env_count string_bytes errno ++ rest)
        ≡ ok (env_count, string_bytes, errno)
  unfolding encode_environ_sizes_get decode_environ_sizes_get
  environ_sizes_get_lem env_count string_bytes errno rest valid_env_count valid_string_bytes fits =
      let fits = simp appended at fits in
      simp appended (
        read_then (scalar32 w.errno) errno _ tt fits λ fits.
          read_then int_codec env_count _ valid_env_count fits
            λ fits. read_then int_codec string_bytes _ valid_string_bytes fits λ fits. refl)

  pub environ_get_lem :
      (env : List (List ℕ)) (errno : Errno) (rest : List ℕ)
      → length env < 2 ^ 32
      → Fits (encode_environ_get [] env errno ++ rest)
      → decode_environ_get (encode_environ_get [] env errno ++ rest) ≡ ok (env, errno)
  unfolding encode_environ_get decode_environ_get
  environ_get_lem env errno rest valid_env fits =
      let fits = simp (appended, encode_strings-append) at fits in
      simp (appended, encode_strings-append)
        (read_then (scalar32 w.errno) errno _ tt fits
          λ fits. read_then string_list env _ valid_env fits λ fits. refl)

  pub clock_res_get_lem :
      (id : ClockId) (timestamp : Timestamp) (errno : Errno) (rest : List ℕ)
      → Fits (encode_clock_res_get [] id timestamp errno ++ rest)
      → decode_clock_res_get (encode_clock_res_get [] id timestamp errno ++ rest)
        ≡ ok (id, timestamp, errno)
  unfolding encode_clock_res_get decode_clock_res_get
  clock_res_get_lem id timestamp errno rest fits =
      let fits = simp appended at fits in
      simp appended (
        read_then (scalar32 w.errno) errno _ tt fits λ fits.
          read_then (scalar32 w.clock_id) id _ tt fits
            λ fits. read_then (scalar64 w.timestamp) timestamp _ tt fits λ fits. refl)

  pub clock_time_get_lem :
      (id : ClockId) (precision : Timestamp) (timestamp : Timestamp) (errno : Errno) (rest : List ℕ)
      → Fits (encode_clock_time_get [] id precision timestamp errno ++ rest)
      → decode_clock_time_get (encode_clock_time_get [] id precision timestamp errno ++ rest)
        ≡ ok (id, precision, timestamp, errno)
  unfolding encode_clock_time_get decode_clock_time_get
  clock_time_get_lem id precision timestamp errno rest fits =
      let fits = simp appended at fits in
      simp appended (
        read_then (scalar32 w.errno) errno _ tt fits λ fits.
          read_then (scalar32 w.clock_id) id _ tt fits λ fits.
            read_then (scalar64 w.timestamp) precision _ tt fits
              λ fits. read_then (scalar64 w.timestamp) timestamp _ tt fits λ fits. refl)
