-- ===== src/Wasicall/Replay/Guest.antt =====
-- internal/timemachine/wasicall/record.go and replay.go together: a guest whose calls are recorded,
-- and the replay of what was recorded.
use timecraft.Common.{Bool, List, Option, [], ap, append-nil, sym, ℕ, ◌≡◌}
use timecraft.Stream.ReadAll.{all_read}
use timecraft.Wasicall.Recorder.Dispatch.{recorder}
use timecraft.Wasicall.Replay.Dispatch.{replay}
use timecraft.Wasicall.Recorder.Transparent.{append_record}
use timecraft.Wasicall.Replay.Refinement.{IsReplayable, replays}
use timecraft.Wasicall.Replay.State.{new_replay}
use timecraft.Wasicall.Syscall.Log.{Record}
use timecraft.Wasicall.System.Guest.{Guest, run}
use timecraft.Wasicall.System.Request.{System}
use timecraft.Wasicall.Wasi.{Wasi}

module _ ⦃w : Wasi⦄ {Time Fault S W A : Type 0} where
  -- Let every call of a guest's run against a system either be a ProcExit that panics with its exit
  -- code, or give a response that the codec records within its bounds (`IsRecordable`: the ranges
  -- of Go's types; fewer than 2 ^ 32 list members, buffers, and bytes in the buffers of a read;
  -- subscriptions and events of the three known types, with the data of their type alone), in less
  -- than 2 ^ 32 bytes, and that its record determines (`IsReproducible`: a read changes only the
  -- first bytes of its buffers, as many as its count says, none if that is negative as an int32; a
  -- count of entries, link bytes, events or addresses is not negative and within the slice, of
  -- which nothing else changes; RandomGet keeps the length of its buffer; the hints of
  -- SockAddressInfo carry no address). Then the guest runs against a new Replay of the log of its
  -- recording to the same result or panic as against the system, and the whole log is read.
  pub run-replay :
      (clock : List (Record Time) → Time) (write : W → List ℕ → W × Bool) (system : System Fault S)
      (discard : W) (fault : Option Fault) (g : Guest A) (s : S)
      → IsReplayable system g s
      → (log : List (Record Time)) × ((run (recorder system (append_record clock)) g (s, [])).1.1
          ≡ log)
        × ((run (replay write) g (new_replay discard (record { items = log; fault = fault }))).0
            ≡ (run system g s).0)
        × ((run
              (replay write)
              g
              (new_replay discard (record { items = log; fault = fault }))).1.records
            ≡ record { items = []; fault = fault })
  unfolding new_replay
  run-replay clock write system discard fault g s h =
      let r = replays clock write system g s [] h in
      let fresh = new_replay discard (record { items = r.added; fault = fault }) in
      let (same_result, all_read) = r.replayed fresh [] (sym (append-nil r.added)) in
      (r.added, ap (λ x. x.1.1) r.recorded_run, same_result, all_read)
