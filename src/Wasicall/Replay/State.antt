-- ===== src/Wasicall/Replay/State.antt =====
-- internal/timemachine/wasicall/replay.go: the state of a Replay and the steps that its methods
-- share. The slices that it keeps for the next call only save allocations. `write` is the method
-- Write of an io.Writer with a state W; its Boolean says whether it returned an error.
use Prim.Native.String.{String}
use mathlib.Core.Option
use timecraft.Common.{Bool, List, Option, [], false, if◌then◌else◌, none, some, true, ℕ, ◌==◌, ◌∷◌}
use timecraft.Common.Result.{Result, err, ok}
use timecraft.Wasicall.Syscall.Ids.{SyscallId, id_number}
use timecraft.Wasicall.Syscall.Log.{Record, Records}
use timecraft.Wasicall.System.{copy, none_fd, same}
use timecraft.Wasicall.System.Request.{
  Outcome, index_out_of_range, read_failed, undecodable, unexpected_params, unexpected_syscall,
}
use timecraft.Wasicall.Wasi.{Fd, Wasi}
use timecraft.Wasicall.Words.{CodecError}

module _ ⦃w : Wasi⦄ where
  pub record Replay (Time Fault W : Type 0) : Type 0 where
    pub stdout_writer : W
    pub stderr_writer : W
    pub stdout : Fd
    pub stderr : Fd
    pub records : Records Time Fault
    pub strict : Bool

-- The parameters that fail their test.
unfoldable pub mismatches : List (SyscallId × String × Bool) → List (SyscallId × String)
mismatches [] = []
mismatches ((id, name, true) ∷ params) = mismatches params
mismatches ((id, name, false) ∷ params) = (id, name) ∷ mismatches params

-- copy(iovecs[i], recordIOVecs[i]) for each recorded buffer.
unfoldable pub copy_each : List (List ℕ) → List (List ℕ) → Option (List (List ℕ))
copy_each iovecs [] = some iovecs
copy_each [] (source ∷ sources) = none
copy_each (iovec ∷ iovecs) (source ∷ sources) =
    Option.map (λ rest. copy iovec source ∷ rest) (copy_each iovecs sources)

module _ ⦃w : Wasi⦄ {Time Fault W : Type 0} where
  -- NewReplay, with `discard` for io.Discard.
  unfoldable pub new_replay : W → Records Time Fault → Replay Time Fault W
  new_replay discard records = record {
    stdout_writer = discard;
    stderr_writer = discard;
    stdout = w.fd.of_word 1;
    stderr = w.fd.of_word 2;
    records = records;
    strict = true;
  }

  abbrev pub advance : List (Record Time) → Replay Time Fault W → Replay Time Fault W
  advance items r = record r { records = record { items = items; fault = r.records.fault } }

  abbrev pub at_log_end :
      Option Fault → Replay Time Fault W → Outcome Fault (Option (List ℕ)) (Replay Time Fault W)
  at_log_end none r = (ok none, r)
  at_log_end (some fault) r = (err (read_failed fault), r)

  abbrev pub take_record :
      SyscallId
      → Replay Time Fault W
      → List (Record Time)
      → Outcome Fault (Option (List ℕ)) (Replay Time Fault W)
  take_record id r [] = at_log_end r.records.fault r
  take_record id r (item ∷ items) =
      if item.function_id == id_number id
      then (ok (some item.function_call), advance items r)
      else (err (unexpected_syscall item.function_id id), advance items r)

  -- The bytes of the next record; `none` at the end of the log.
  unfoldable pub read_record :
      SyscallId → Replay Time Fault W → Outcome Fault (Option (List ℕ)) (Replay Time Fault W)
  read_record id r = take_record id r r.records.items

  abbrev pub with_decoded :
      {A B : Type 0}
      → (A → Replay Time Fault W → Outcome Fault B (Replay Time Fault W))
      → Replay Time Fault W
      → Result CodecError A
      → Outcome Fault B (Replay Time Fault W)
  with_decoded continue r (ok a) = continue a r
  with_decoded continue r (err e) = (err (undecodable e), r)

  -- What a method makes of that.
  unfoldable pub answering :
      {A B : Type 0}
      → B
      → (List ℕ → Result CodecError A)
      → (A → Replay Time Fault W → Outcome Fault B (Replay Time Fault W))
      → Outcome Fault (Option (List ℕ)) (Replay Time Fault W)
      → Outcome Fault B (Replay Time Fault W)
  answering default decode continue (err panic, r) = (err panic, r)
  answering default decode continue (ok none, r) = (ok default, r)
  answering default decode continue (ok (some bytes), r) = with_decoded continue r (decode bytes)

  -- How each method starts: the record is read and decoded. At the end of the log the call gives
  -- `default`.
  unfoldable pub replaying :
      {A B : Type 0}
      → SyscallId
      → B
      → (List ℕ → Result CodecError A)
      → Replay Time Fault W
      → (A → Replay Time Fault W → Outcome Fault B (Replay Time Fault W))
      → Outcome Fault B (Replay Time Fault W)
  replaying id default decode r continue = answering default decode continue (read_record id r)

  abbrev pub rejecting :
      {B : Type 0}
      → List (SyscallId × String)
      → Replay Time Fault W
      → Outcome Fault B (Replay Time Fault W)
      → Outcome Fault B (Replay Time Fault W)
  rejecting [] r result = result
  rejecting (m ∷ ms) r result = (err (unexpected_params (m ∷ ms)), r)

  -- In strict mode a call with other parameters than the recorded ones panics.
  unfoldable pub checked :
      {B : Type 0}
      → List (SyscallId × String × Bool)
      → Replay Time Fault W
      → Outcome Fault B (Replay Time Fault W)
      → Outcome Fault B (Replay Time Fault W)
  unfolding mismatches
  checked params r result = if r.strict then rejecting (mismatches params) r result else result

  abbrev pub filling :
      {B : Type 0}
      → Option (List (List ℕ))
      → Replay Time Fault W
      → (List (List ℕ) → B)
      → Outcome Fault B (Replay Time Fault W)
  filling none r finish = (err index_out_of_range, r)
  filling (some iovecs) r finish = (ok (finish iovecs), r)

  -- FDClose's switch.
  unfoldable pub closing : Fd → Replay Time Fault W → Replay Time Fault W
  closing fd r =
      if same w.fd fd r.stdout
      then record r { stdout = none_fd }
      else if same w.fd fd r.stderr
      then record r { stderr = none_fd }
      else r

  -- FDRenumber's switch.
  unfoldable pub renumbering : Fd → Fd → Replay Time Fault W → Replay Time Fault W
  renumbering from to r =
      if same w.fd from r.stdout
      then record r { stdout = to }
      else if same w.fd from r.stderr
      then record r { stderr = to }
      else r

-- The writes stop at the first error.
unfoldable pub write_iovecs : {W : Type 0} → (W → List ℕ → W × Bool) → W → List (List ℕ) → W
write_iovecs write out [] = out
write_iovecs write out (iovec ∷ iovecs) =
    let (out, stopped) = write out iovec in
    let rest = write_iovecs write out iovecs in if stopped then out else rest

module _ ⦃w : Wasi⦄ {Time Fault W : Type 0} where
  -- FDWrite's switch.
  unfoldable pub echo :
      (W → List ℕ → W × Bool) → Fd → List (List ℕ) → Replay Time Fault W → Replay Time Fault W
  unfolding write_iovecs
  echo write fd iovecs r =
      if same w.fd fd none_fd
      then r
      else if same w.fd fd r.stdout
      then record r { stdout_writer = write_iovecs write r.stdout_writer iovecs }
      else if same w.fd fd r.stderr
      then record r { stderr_writer = write_iovecs write r.stderr_writer iovecs }
      else r
