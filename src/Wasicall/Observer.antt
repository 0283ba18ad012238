-- ===== src/Wasicall/Observer.antt =====
-- internal/timemachine/wasicall/observer.go: a system that tells two callbacks of each call, before
-- and after it. The callbacks change a state T, and `none` is a nil callback.
pub mod Env
pub mod File
pub mod Io
pub mod Paths
pub mod Process
pub mod Sock
pub mod SockInfo
pub mod Dispatch
pub mod Told
use timecraft.Common.{Option, none, some}
use timecraft.Common.Result.{err, ok}
use timecraft.Wasicall.Syscall.Call.{Syscall}
use timecraft.Wasicall.System.Request.{Outcome, nil_function}
use timecraft.Wasicall.Wasi.{Wasi}

module _ ⦃w : Wasi⦄ {T : Type 0} where
  abbrev pub notify : Option (Syscall → T → T) → Syscall → T → T
  notify none c t = t
  notify (some callback) c t = callback c t

  unfoldable pub observing :
      {Fault S A : Type 0}
      → Option (Syscall → T → T)
      → Outcome Fault A S
      → T
      → (A → Syscall)
      → Outcome Fault A (S × T)
  observing after (err panic, s) t describe = (err panic, (s, t))
  observing after (ok response, s) t describe =
      (ok response, (s, notify after (describe response) t))

  -- The same but for the callback after the call: the code tests that one and calls the other.
  unfoldable pub observing_swapped :
      {Fault S A : Type 0}
      → Option (Syscall → T → T)
      → Option (Syscall → T → T)
      → Outcome Fault A S
      → T
      → (A → Syscall)
      → Outcome Fault A (S × T)
  observing_swapped before after (err panic, s) t describe = (err panic, (s, t))
  observing_swapped before none (ok response, s) t describe = (ok response, (s, t))
  observing_swapped none (some callback) (ok response, s) t describe = (err nil_function, (s, t))
  observing_swapped (some earlier) (some callback) (ok response, s) t describe =
      (ok response, (s, earlier (describe response) t))

  -- Close, with the error that it returns.
  unfoldable pub observer_close :
      {Fault S : Type 0} → (S → Option Fault × S) → S × T → Option Fault × (S × T)
  observer_close close (s, t) = let (error, s) = close s in (error, (s, t))
