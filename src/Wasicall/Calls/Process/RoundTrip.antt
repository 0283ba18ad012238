-- ===== src/Wasicall/Calls/Process/RoundTrip.antt =====
-- The round trips of the codec of polling, the process and randomness.
use timecraft.Common.{List, [], ap, refl, some, ℕ, ◌++◌, ◌∙◌, ◌≡◌}
use timecraft.Common.Result.{ok}
use timecraft.Wasicall.Calls.Process.{
  decode_poll_one_off, decode_proc_exit, decode_proc_raise, decode_random_get, decode_sched_yield,
  encode_poll_one_off, encode_proc_exit, encode_proc_raise, encode_random_get, encode_sched_yield,
}
use timecraft.Wasicall.Lists.{list_bytes, list_codec}
use timecraft.Wasicall.Poll.{Event, Subscription}
use timecraft.Wasicall.Poll.RoundTrip.{
  encode_events-append, encode_subscriptions-append, event_codec, subscription_codec,
}
use timecraft.Wasicall.Wasi.{Errno, ExitCode, Signal, Wasi}
use timecraft.Wasicall.Words.{le_bytes}
use timecraft.Wasicall.Words.RoundTrip.{Fits, appended, bytes_codec, read_then, scalar32}

module _ ⦃w : Wasi⦄ where
  pub proc_exit_lem :
      (exit_code : ExitCode) (errno : Errno) (rest : List ℕ)
      → Fits (encode_proc_exit [] exit_code errno ++ rest)
      → decode_proc_exit (encode_proc_exit [] exit_code errno ++ rest) ≡ ok (exit_code, errno)
  unfolding encode_proc_exit decode_proc_exit
  proc_exit_lem exit_code errno rest fits =
      let fits = simp appended at fits in
      simp appended (
        read_then (scalar32 w.errno) errno _ tt fits
          λ fits. read_then (scalar32 w.exit_code) exit_code _ tt fits λ fits. refl)

  pub proc_raise_lem :
      (signal : Signal) (errno : Errno) (rest : List ℕ)
      → Fits (encode_proc_raise [] signal errno ++ rest)
      → decode_proc_raise (encode_proc_raise [] signal errno ++ rest) ≡ ok (signal, errno)
  unfolding encode_proc_raise decode_proc_raise
  proc_raise_lem signal errno rest fits =
      let fits = simp appended at fits in
      simp appended (
        read_then (scalar32 w.errno) errno _ tt fits
          λ fits. read_then (scalar32 w.signal) signal _ tt fits λ fits. refl)

  pub sched_yield_lem :
      (errno : Errno) (rest : List ℕ)
      → Fits (encode_sched_yield [] errno ++ rest)
      → decode_sched_yield (encode_sched_yield [] errno ++ rest) ≡ ok errno
  unfolding encode_sched_yield decode_sched_yield
  sched_yield_lem errno rest fits =
      let fits = simp appended at fits in
      simp appended (read_then (scalar32 w.errno) errno _ tt fits λ fits. refl)

  pub random_get_lem :
      (b : List ℕ) (errno : Errno) (rest : List ℕ)
      → Fits (encode_random_get [] b errno ++ rest)
      → decode_random_get (encode_random_get [] b errno ++ rest) ≡ ok (b, errno)
  unfolding encode_random_get decode_random_get
  random_get_lem b errno rest fits =
      let fits = simp appended at fits in
      simp appended (
        read_then (scalar32 w.errno) errno _ tt fits
          λ fits. read_then bytes_codec b _ tt fits λ fits. refl)

  -- Here the encoder may panic, which it does not on subscriptions and events of known types.
  pub poll_one_off_lem :
      (subscriptions : List Subscription) (events : List Event) (errno : Errno) (rest : List ℕ)
      → (list_codec subscription_codec).IsValid subscriptions
      → (list_codec event_codec).IsValid events
      → (bytes : List ℕ) × (encode_poll_one_off [] subscriptions events errno ≡ some bytes)
        × (Fits (bytes ++ rest)
            → decode_poll_one_off (bytes ++ rest) ≡ ok (subscriptions, events, errno))
  unfolding encode_poll_one_off decode_poll_one_off
  poll_one_off_lem subscriptions events errno rest valid_subscriptions valid_events = (
    le_bytes 4 (w.errno.to_word errno)
        ++ (list_bytes subscription_codec subscriptions ++ list_bytes event_codec events),
    rw (encode_subscriptions-append _ subscriptions valid_subscriptions.1)
        (encode_events-append _ events valid_events.1 ∙ ap some (simp appended)),
    λ fits.
        let fits = simp appended at fits in
        simp appended (
          read_then (scalar32 w.errno) errno _ tt fits λ fits.
            read_then (list_codec subscription_codec) subscriptions _ valid_subscriptions fits
              λ fits. read_then (list_codec event_codec) events _ valid_events fits λ fits. refl),
  )
