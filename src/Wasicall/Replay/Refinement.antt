-- ===== src/Wasicall/Replay/Refinement.antt =====
-- A guest that runs against the replay of its own recording.
use timecraft.Common.{
  Bool, List, Option, [], ap, append-nil, append_assoc, none, refl, some, ℕ, ◌++◌, ◌∙◌, ◌∷◌, ◌≡◌,
  ◌≢◌,
}
use timecraft.Common.Result.{err, ok}
use timecraft.Wasicall.Calls.Process.{encode_proc_exit}
use timecraft.Wasicall.Recorder.{recording, writing}
use timecraft.Wasicall.Recorder.Dispatch.{recorder}
use timecraft.Wasicall.Recorder.Made.{recorder-made}
use timecraft.Wasicall.Recorder.Process.{recorder_proc_exit}
use timecraft.Wasicall.Recorder.Transparent.{append_record}
use timecraft.Wasicall.Replay.Dispatch.{replay}
use timecraft.Wasicall.Replay.Faithful.{replay-made}
use timecraft.Wasicall.Replay.Recorded.{Holds}
use timecraft.Wasicall.Replay.Recorded.Process.{replay_proc_exit-recorded}
use timecraft.Wasicall.Replay.State.{Replay}
use timecraft.Wasicall.Syscall.Ids.{SyscallId, id_number}
use timecraft.Wasicall.Syscall.Log.{Record}
use timecraft.Wasicall.Syscall.Recordable.{IsRecordable}
use timecraft.Wasicall.Syscall.Recorder.{encode_call}
use timecraft.Wasicall.Syscall.RoundTrip.{encode_call-returns}
use timecraft.Wasicall.System.Exchange.{IsReproducible, made, request_id}
use timecraft.Wasicall.System.Guest.{Guest, call, continuing, done, run}
use timecraft.Wasicall.System.Request.{Outcome, Panic, Request, Response, System, exit_error}
use timecraft.Wasicall.Wasi.{Wasi}
use timecraft.Wasicall.Words.RoundTrip.{Fits}

module _ ⦃w : Wasi⦄ where
  -- ProcExit ends the guest with its exit code.
  abbrev pub IsExit : {Fault : Type 0} → Request → Panic Fault → Type 0
  IsExit (Request.proc_exit exit_code) panic = panic ≡ exit_error (w.exit_code.to_word exit_code)
  IsExit _ panic = ⊥

  abbrev pub IsShort : Option (List ℕ) → Type 0
  IsShort none = Unit
  IsShort (some bytes) = Fits bytes

module _ ⦃w : Wasi⦄ {Fault S : Type 0} where
  -- The codec can record the response, its record determines it, and the record is not too long.
  abbrev pub Continues :
      (q : Request) → (Response q → S → Type 0) → Outcome Fault (Response q) S → Type 0
  Continues q next (ok response, s) =
      IsRecordable (made q response)
      × IsReproducible q response
      × IsShort (encode_call (made q response))
      × next response s
  Continues q next (err panic, s) = IsExit q panic

  -- Every call of the guest's run either goes on so or ends the guest.
  unfoldable pub IsReplayable : {A : Type 0} → System Fault S → Guest A → S → Type 0
  IsReplayable system (done a) s = Unit
  IsReplayable system (call q continue) s =
      Continues q (λ response. IsReplayable system (continue response)) (system q s)

module _ ⦃w : Wasi⦄ where
  continuing-ok :
      {Fault B C T : Type 0} (next : B → T → Outcome Fault C T) (outcome : Outcome Fault B T)
      (b : B)
      → outcome.0 ≡ ok b
      → continuing next outcome ≡ next b outcome.1
  continuing-ok next (result, s) b e = rw e refl

module _ ⦃w : Wasi⦄ where
  not_an_exit :
      (q : Request) (response : Response q)
      → IsReproducible q response
      → request_id q ≢ SyscallId.proc_exit
  unfolding request_id
  not_an_exit (Request.proc_exit _) response answer e = absurd answer
  not_an_exit _ response answer e = absurd (cc e)

  recorder-ok :
      {Time Fault S : Type 0} (clock : List (Record Time) → Time) (system : System Fault S)
      (q : Request) (s : S) (log : List (Record Time)) (response : Response q) (after : S)
      (bytes : List ℕ)
      → system q s ≡ (ok response, after)
      → IsReproducible q response
      → encode_call (made q response) ≡ some bytes
      → recorder system (append_record clock) q (s, log)
        ≡ (ok response, (after, append_record clock (request_id q) bytes log))
  unfolding recording
  recorder-ok clock system q s log response after bytes answered answer written =
      recorder-made system (append_record clock) q s log (not_an_exit q response answer)
      ∙ ap
          (λ outcome.
            recording (append_record clock) (request_id q) outcome log
              (λ r. encode_call (made q r)))
          answered
      ∙ ap (writing (append_record clock) (request_id q) response after log) written

module _ ⦃w : Wasi⦄ {Time Fault S W A : Type 0} (clock : List (Record Time) → Time)
    (write : W → List ℕ → W × Bool) (system : System Fault S) where
  -- The records that a run adds to the log, and a replay of them.
  pub record Replays (g : Guest A) (s : S) (log : List (Record Time)) : Type 0 where
    pub added : List (Record Time)
    pub recorded_run :
        run (recorder system (append_record clock)) g (s, log)
        ≡ ((run system g s).0, ((run system g s).1, log ++ added))
    pub replayed :
        (r : Replay Time Fault W) (rest : List (Record Time))
        → r.records.items ≡ added ++ rest
        → ((run (replay write) g r).0 ≡ (run system g s).0)
          × ((run (replay write) g r).1.records ≡ record { items = rest; fault = r.records.fault })

  run_on :
      (q : Request) (continue : Response q → Guest A) (s : S) (response : Response q) (after : S)
      → system q s ≡ (ok response, after)
      → run system (call q continue) s ≡ run system (continue response) after
  unfolding run
  run_on q continue s response after answered =
      ap (continuing λ response. run system (continue response)) answered

  replayed-ok :
      (q : Request) (continue : Response q → Guest A) (response : Response q) (bytes : List ℕ)
      (r : Replay Time Fault W) (rest : List (Record Time))
      → IsRecordable (made q response)
      → IsReproducible q response
      → encode_call (made q response) ≡ some bytes
      → Fits bytes
      → Holds r (request_id q) bytes rest
      → (r1 : Replay Time Fault W) × (r1.records ≡ record { items = rest; fault = r.records.fault })
        × (run (replay write) (call q continue) r ≡ run (replay write) (continue response) r1)
  unfolding run
  replayed-ok q continue response bytes r rest valid answer written fits holds =
      let step = replay-made write q response r rest bytes valid answer written fits holds in
      (
        (replay write q r).1,
        step.left,
        continuing-ok (λ response. run (replay write) (continue response)) (replay write q r)
            response step.returned,
      )

  Replays-ok :
      (q : Request) (continue : Response q → Guest A) (s : S) (log : List (Record Time))
      (response : Response q) (after : S)
      → system q s ≡ (ok response, after)
      → IsRecordable (made q response)
      → IsReproducible q response
      → IsShort (encode_call (made q response))
      → ((log : List (Record Time)) → Replays (continue response) after log)
      → Replays (call q continue) s log
  unfolding run
  Replays-ok q continue s log response after answered valid answer short later =
      let (bytes, written) = encode_call-returns (made q response) valid in
      let fits : Fits bytes = rw written at short in
      let item : Record Time = record {
        time = clock log;
        function_id = id_number (request_id q);
        function_call = bytes;
      } in
      let rest_run = later (log ++ (item ∷ [])) in
      let on = run_on q continue s response after answered in
      record {
        added = item ∷ rest_run.added;
        recorded_run =
            ap
              (continuing
                λ response. run (recorder system (append_record clock)) (continue response))
              (recorder-ok clock system q s log response after bytes answered answer written)
            ∙ rest_run.recorded_run
            ∙ rw (on, append_assoc log (item ∷ []) rest_run.added) refl;
        replayed = λ r rest items.
            let (r1, left, goes_on) =
              replayed-ok q continue response bytes r (rest_run.added ++ rest) valid answer written
                fits (record { time = clock log; items = items }) in
            let (same_result, nothing_left) = rest_run.replayed r1 rest (ap (λ x. x.items) left) in
            rw (goes_on, on)
              (same_result, nothing_left ∙ ap (λ x. record { items = rest; fault = x.fault }) left);
      }

  Replays-exit :
      (q : Request) (continue : Response q → Guest A) (s : S) (log : List (Record Time))
      (panic : Panic Fault) (after : S)
      → system q s ≡ (err panic, after)
      → IsExit q panic
      → Replays (call q continue) s log
  unfolding run recorder recorder_proc_exit replay
  Replays-exit (Request.proc_exit exit_code) continue s log panic after ended exits =
      let bytes = encode_proc_exit [] exit_code w.esuccess in
      let item : Record Time = record {
        time = clock log;
        function_id = id_number SyscallId.proc_exit;
        function_call = bytes;
      } in
      record {
        added = item ∷ [];
        recorded_run = rw ended refl;
        replayed = λ r rest items.
            let step =
              replay_proc_exit-recorded exit_code r rest
                (record { time = clock log; items = items }) in
            rw (step, ended, exits) (refl, refl);
      }
  Replays-exit _ continue s log panic after ended exits = absurd exits

  Replays-call :
      (q : Request) (continue : Response q → Guest A) (s : S) (log : List (Record Time))
      (outcome : Outcome Fault (Response q) S)
      → ((response : Response q) (after : S) (log : List (Record Time))
          → IsReplayable system (continue response) after
          → Replays (continue response) after log)
      → system q s ≡ outcome
      → Continues q (λ response. IsReplayable system (continue response)) outcome
      → Replays (call q continue) s log
  Replays-call q continue s log (ok response, after) later answered
        (valid, answer, short, goes_on) =
      Replays-ok q continue s log response after answered valid answer short
        λ log. later response after log goes_on
  Replays-call q continue s log (err panic, after) later ended exits =
      Replays-exit q continue s log panic after ended exits

  pub replays :
      (g : Guest A) (s : S) (log : List (Record Time)) → IsReplayable system g s → Replays g s log
  unfolding run IsReplayable
  replays (done a) s log h = record {
    added = [];
    recorded_run = rw (append-nil log) refl;
    replayed =
        λ r rest items. (refl, ap (λ x. record { items = x; fault = r.records.fault }) items);
  }
  replays (call q continue) s log h =
      Replays-call q continue s log (system q s)
        (λ response after log valid. replays (continue response) after log valid) refl h
