-- ===== src/Wasicall/Calls/Process.antt =====
-- internal/timemachine/wasicall/codec.go: the Codec methods of polling, the process and randomness.
pub mod RoundTrip
use mathlib.Core.Option
use timecraft.Common.{List, Option, ℕ}
use timecraft.Common.Result.{Result, ok, ◌>>=◌}
use timecraft.Wasicall.Poll.{
  Event, Subscription, decode_events, decode_subscriptions, encode_events, encode_subscriptions,
}
use timecraft.Wasicall.Scalars.{
  decode_errno, decode_exit_code, decode_signal, encode_errno, encode_exit_code, encode_signal,
}
use timecraft.Wasicall.Wasi.{Errno, ExitCode, Signal, Wasi}
use timecraft.Wasicall.Words.{CodecError, decode_bytes, encode_bytes}

module _ ⦃w : Wasi⦄ where
  unfoldable pub encode_poll_one_off :
      List ℕ → List Subscription → List Event → Errno → Option (List ℕ)
  unfolding Option.bind
  encode_poll_one_off buffer subscriptions events errno =
      let buffer = encode_errno buffer errno in
      Option.bind (encode_subscriptions buffer subscriptions)
        (λ buffer. encode_events buffer events)

  unfoldable pub decode_poll_one_off :
      List ℕ → Result CodecError (List Subscription × List Event × Errno)
  decode_poll_one_off buffer = do
    (errno, buffer) ← decode_errno buffer
    (subscriptions, buffer) ← decode_subscriptions buffer
    (events, _) ← decode_events buffer
    ok (subscriptions, events, errno)

  unfoldable pub encode_proc_exit : List ℕ → ExitCode → Errno → List ℕ
  encode_proc_exit buffer exit_code errno =
      let buffer = encode_errno buffer errno in encode_exit_code buffer exit_code

  unfoldable pub decode_proc_exit : List ℕ → Result CodecError (ExitCode × Errno)
  decode_proc_exit buffer = do
    (errno, buffer) ← decode_errno buffer
    (exit_code, _) ← decode_exit_code buffer
    ok (exit_code, errno)

  unfoldable pub encode_proc_raise : List ℕ → Signal → Errno → List ℕ
  encode_proc_raise buffer signal errno =
      let buffer = encode_errno buffer errno in encode_signal buffer signal

  unfoldable pub decode_proc_raise : List ℕ → Result CodecError (Signal × Errno)
  decode_proc_raise buffer = do
    (errno, buffer) ← decode_errno buffer
    (signal, _) ← decode_signal buffer
    ok (signal, errno)

  unfoldable pub encode_sched_yield : List ℕ → Errno → List ℕ
  encode_sched_yield buffer errno = encode_errno buffer errno

  unfoldable pub decode_sched_yield : List ℕ → Result CodecError (Errno)
  decode_sched_yield buffer = do (errno, _) ← decode_errno buffer; ok errno

  unfoldable pub encode_random_get : List ℕ → List ℕ → Errno → List ℕ
  encode_random_get buffer b errno = let buffer = encode_errno buffer errno in encode_bytes buffer b

  unfoldable pub decode_random_get : List ℕ → Result CodecError (List ℕ × Errno)
  decode_random_get buffer = do
    (errno, buffer) ← decode_errno buffer
    (result, _) ← decode_bytes buffer
    ok (result, errno)
