-- ===== src/Wasicall/Recorder.antt =====
-- internal/timemachine/wasicall/record.go: a system that hands each call of another system to
-- `write`, whose state T stands beside that system's state S.
pub mod Env
pub mod File
pub mod Io
pub mod Paths
pub mod Process
pub mod Sock
pub mod SockInfo
pub mod Dispatch
pub mod Made
pub mod Encodable
pub mod Transparent
use timecraft.Common.{List, Option, none, some, ℕ}
use timecraft.Common.Result.{err, ok}
use timecraft.Wasicall.Syscall.Ids.{SyscallId}
use timecraft.Wasicall.System.Request.{Outcome, unencodable}
use timecraft.Wasicall.Wasi.{Wasi}

module _ ⦃w : Wasi⦄ {Fault S T A : Type 0} where
  -- The encoder panics on `none`.
  abbrev pub writing :
      (SyscallId → List ℕ → T → T)
      → SyscallId
      → A
      → S
      → T
      → Option (List ℕ)
      → Outcome Fault A (S × T)
  writing write id response s t none = (err unencodable, (s, t))
  writing write id response s t (some bytes) = (ok response, (s, write id bytes t))

  -- The call made first, then its record.
  unfoldable pub recording :
      (SyscallId → List ℕ → T → T)
      → SyscallId
      → Outcome Fault A S
      → T
      → (A → Option (List ℕ))
      → Outcome Fault A (S × T)
  recording write id (err panic, s) t encode = (err panic, (s, t))
  recording write id (ok response, s) t encode = writing write id response s t (encode response)

  -- The record written first.
  abbrev pub beside : T → Outcome Fault A S → Outcome Fault A (S × T)
  beside t (result, s) = (result, (s, t))

module _ {Fault S T : Type 0} where
  -- Close, with the error that it returns.
  unfoldable pub recorder_close : (S → Option Fault × S) → S × T → Option Fault × (S × T)
  recorder_close close (s, t) = let (error, s) = close s in (error, (s, t))
