-- ===== src/Wasicall/Fallback.antt =====
-- internal/timemachine/wasicall/fallback.go: a system that asks a second one where the first
-- answers ENOSYS. A buffer goes to the second as the first left it.
pub mod Env
pub mod File
pub mod Io
pub mod Paths
pub mod Process
pub mod Sock
pub mod SockInfo
pub mod Dispatch
pub mod Answers
use timecraft.Common.{Option, if◌then◌else◌, none, some}
use timecraft.Common.Result.{err, ok}
use timecraft.Wasicall.System.{same}
use timecraft.Wasicall.System.Request.{Outcome}
use timecraft.Wasicall.Wasi.{Errno, Wasi}

module _ ⦃w : Wasi⦄ {Fault S T A : Type 0} where
  abbrev pub settled : A → S → T → Errno × (T → Outcome Fault A T) → Outcome Fault A (S × T)
  settled response s t (errno, retry) =
      if same w.errno errno w.enosys then ((retry t).0, (s, (retry t).1)) else (ok response, (s, t))

  -- `next` gives the errno of the primary's answer and the call of the secondary after it.
  unfoldable pub or_else :
      Outcome Fault A S → T → (A → Errno × (T → Outcome Fault A T)) → Outcome Fault A (S × T)
  or_else (err panic, s) t next = (err panic, (s, t))
  or_else (ok response, s) t next = settled response s t (next response)

module _ {Fault S T : Type 0} where
  -- Close: both are closed, and the first error is returned.
  unfoldable pub fallback_close :
      (S → Option Fault × S) → (T → Option Fault × T) → S × T → Option Fault × (S × T)
  fallback_close close_primary close_secondary (s, t) =
      let (error, s) = close_primary s in
      let (error2, t) = close_secondary t in
      (elim error [ none ↦ error2 | some fault ↦ some fault ], (s, t))
