-- ===== src/Wasicall/System/Guest.antt =====
-- A WebAssembly module as the systems see it: it makes a call, goes on with what the call gives, and
-- ends. Its run against a system.
use timecraft.Common.Result.{err, ok}
use timecraft.Wasicall.System.Request.{Outcome, Request, Response, System}
use timecraft.Wasicall.Wasi.{Wasi}

module _ ⦃w : Wasi⦄ where
  pub data Guest (A : Type 0) : Type 0 where
    done : A → Guest A
    call : (q : Request) → (Response q → Guest A) → Guest A

  -- A panic ends the run.
  abbrev pub continuing :
      {Fault S A B : Type 0} → (A → S → Outcome Fault B S) → Outcome Fault A S → Outcome Fault B S
  continuing next (ok response, s) = next response s
  continuing next (err panic, s) = (err panic, s)

  unfoldable pub run : {Fault S A : Type 0} → System Fault S → Guest A → S → Outcome Fault A S
  run system (done a) s = (ok a, s)
  run system (call q continue) s =
      continuing (λ response. run system (continue response)) (system q s)
