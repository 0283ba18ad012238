-- ===== src/Wasicall/Exit.antt =====
-- internal/timemachine/wasicall/exit.go: a system that panics on every call.
use timecraft.Common.{ℕ, ◌%◌, ◌-◌, ◌^◌}
use timecraft.Common.Int.{negsuc, pos, ℤ}
use timecraft.Common.Result.{err}
use timecraft.Wasicall.System.Request.{System, exit_error}
use timecraft.Wasicall.Wasi.{Wasi}

-- Go's conversion of an int to uint32.
abbrev pub to_uint32 : ℤ → ℕ
to_uint32 (pos n) = n % 2 ^ 32
to_uint32 (negsuc n) = 2 ^ 32 - 1 - n % 2 ^ 32

module _ ⦃w : Wasi⦄ {Fault S : Type 0} where
  unfoldable pub exit_system : ℤ → System Fault S
  exit_system exit_code q s = (err (exit_error (to_uint32 exit_code)), s)
