-- ===== src/Wasicall/Calls/Env.antt =====
-- internal/timemachine/wasicall/codec.go: the Codec methods of the arguments, the environment and the clocks.
pub mod RoundTrip
use timecraft.Common.{List, ℕ}
use timecraft.Common.Int.{ℤ}
use timecraft.Common.Result.{Result, ok, ◌>>=◌}
use timecraft.Wasicall.Lists.{decode_strings, encode_strings}
use timecraft.Wasicall.Scalars.{
  decode_clock_id, decode_errno, decode_timestamp, encode_clock_id, encode_errno, encode_timestamp,
}
use timecraft.Wasicall.Wasi.{ClockId, Errno, Timestamp, Wasi}
use timecraft.Wasicall.Words.{CodecError, decode_int, encode_int}

module _ ⦃w : Wasi⦄ where
  unfoldable pub encode_args_sizes_get : List ℕ → ℤ → ℤ → Errno → List ℕ
  encode_args_sizes_get buffer arg_count string_bytes errno =
      let buffer = encode_errno buffer errno in
      let buffer = encode_int buffer arg_count in encode_int buffer string_bytes

  unfoldable pub decode_args_sizes_get : List ℕ → Result CodecError (ℤ × ℤ × Errno)
  decode_args_sizes_get buffer = do
    (errno, buffer) ← decode_errno buffer
    (arg_count, buffer) ← decode_int buffer
    (string_bytes, _) ← decode_int buffer
    ok (arg_count, string_bytes, errno)

  unfoldable pub encode_args_get : List ℕ → List (List ℕ) → Errno → List ℕ
  encode_args_get buffer args errno =
      let buffer = encode_errno buffer errno in encode_strings buffer args

  unfoldable pub decode_args_get : List ℕ → Result CodecError (List (List ℕ) × Errno)
  decode_args_get buffer = do
    (errno, buffer) ← decode_errno buffer
    (args, _) ← decode_strings buffer
    ok (args, errno)

  unfoldable pub encode_environ_sizes_get : List ℕ → ℤ → ℤ → Errno → List ℕ
  encode_environ_sizes_get buffer env_count string_bytes errno =
      let buffer = encode_errno buffer errno in
      let buffer = encode_int buffer env_count in encode_int buffer string_bytes

  unfoldable pub decode_environ_sizes_get : List ℕ → Result CodecError (ℤ × ℤ × Errno)
  decode_environ_sizes_get buffer = do
    (errno, buffer) ← decode_errno buffer
    (env_count, buffer) ← decode_int buffer
    (string_bytes, _) ← decode_int buffer
    ok (env_count, string_bytes, errno)

  unfoldable pub encode_environ_get : List ℕ → List (List ℕ) → Errno → List ℕ
  encode_environ_get buffer env errno =
      let buffer = encode_errno buffer errno in encode_strings buffer env

  unfoldable pub decode_environ_get : List ℕ → Result CodecError (List (List ℕ) × Errno)
  decode_environ_get buffer = do
    (errno, buffer) ← decode_errno buffer
    (env, _) ← decode_strings buffer
    ok (env, errno)

  unfoldable pub encode_clock_res_get : List ℕ → ClockId → Timestamp → Errno → List ℕ
  encode_clock_res_get buffer id timestamp errno =
      let buffer = encode_errno buffer errno in
      let buffer = encode_clock_id buffer id in encode_timestamp buffer timestamp

  unfoldable pub decode_clock_res_get : List ℕ → Result CodecError (ClockId × Timestamp × Errno)
  decode_clock_res_get buffer = do
    (errno, buffer) ← decode_errno buffer
    (id, buffer) ← decode_clock_id buffer
    (timestamp, _) ← decode_timestamp buffer
    ok (id, timestamp, errno)

  unfoldable pub encode_clock_time_get : List ℕ → ClockId → Timestamp → Timestamp → Errno → List ℕ
  encode_clock_time_get buffer id precision timestamp errno =
      let buffer = encode_errno buffer errno in
      let buffer = encode_clock_id buffer id in
      let buffer = encode_timestamp buffer precision in encode_timestamp buffer timestamp

  unfoldable pub decode_clock_time_get :
      List ℕ → Result CodecError (ClockId × Timestamp × Timestamp × Errno)
  decode_clock_time_get buffer = do
    (errno, buffer) ← decode_errno buffer
    (id, buffer) ← decode_clock_id buffer
    (precision, buffer) ← decode_timestamp buffer
    (timestamp, _) ← decode_timestamp buffer
    ok (id, precision, timestamp, errno)
