-- ===== src/Wasicall/Recorder/Transparent.antt =====
-- A recorder around any system: the guest does not notice it, and the log gets its calls.
use timecraft.Common.{
  List, [], ap, append-nil, append_assoc, refl, some, sym, ℕ, ◌++◌, ◌∙◌, ◌∷◌, ◌≡◌, ◌≢◌,
}
use timecraft.Common.Result.{err, ok}
use timecraft.Wasicall.Recorder.{beside, recording, writing}
use timecraft.Wasicall.Recorder.Dispatch.{recorder}
use timecraft.Wasicall.Recorder.Encodable.{IsEncodable, encode_call-made}
use timecraft.Wasicall.Recorder.Made.{recorder-made}
use timecraft.Wasicall.Recorder.Process.{recorder_proc_exit}
use timecraft.Wasicall.Syscall.Call.{Syscall, syscall_id}
use timecraft.Wasicall.Syscall.Ids.{SyscallId, id_number}
use timecraft.Wasicall.Syscall.Log.{Record}
use timecraft.Wasicall.Syscall.Recorder.{encode_call}
use timecraft.Wasicall.System.Exchange.{made, request_id}
use timecraft.Wasicall.System.Guest.{Guest, call, continuing, done, run}
use timecraft.Wasicall.System.Request.{Outcome, Request, Response, System}
use timecraft.Wasicall.Wasi.{Errno, ExitCode, Wasi}

-- The log that a recorder appends to; `clock` gives the time of the next record.
abbrev pub append_record :
    {Time : Type 0}
    → (List (Record Time) → Time)
    → SyscallId
    → List ℕ
    → List (Record Time)
    → List (Record Time)
append_record clock id bytes log =
    log ++ (record { time = clock log; function_id = id_number id; function_call = bytes } ∷ [])

module _ ⦃w : Wasi⦄ {Fault S : Type 0} where
  abbrev pub Goes :
      (q : Request) → (Response q → S → Type 0) → Outcome Fault (Response q) S → Type 0
  Goes q next (ok response, s) = IsEncodable q response × next response s
  Goes q next (err panic, s) = Unit

  -- So it is with every call of the guest's run that returns.
  unfoldable pub IsRecorded : {A : Type 0} → System Fault S → Guest A → S → Type 0
  IsRecorded system (done a) s = Unit
  IsRecorded system (call q continue) s =
      Goes q (λ response. IsRecorded system (continue response)) (system q s)

module _ ⦃w : Wasi⦄ {Fault S : Type 0} where
  -- The calls that a run makes, as the log is to have them: those that return, and ProcExit.
  abbrev pub written_call : (q : Request) → Outcome Fault (Response q) S → List Syscall
  written_call q (ok response, s) = made q response ∷ []
  written_call (Request.proc_exit exit_code) (err panic, s) =
      Syscall.proc_exit exit_code w.esuccess ∷ []
  written_call q (err panic, s) = []

  abbrev pub after_call : {A : Type 0} → (A → S → List Syscall) → Outcome Fault A S → List Syscall
  after_call next (ok response, s) = next response s
  after_call next (err panic, s) = []

  unfoldable pub calls : {A : Type 0} → System Fault S → Guest A → S → List Syscall
  calls system (done a) s = []
  calls system (call q continue) s =
      written_call q (system q s)
      ++ after_call (λ response. calls system (continue response)) (system q s)

module _ ⦃w : Wasi⦄ {Time : Type 0} where
  -- Records that hold these calls, in order, under their numbers.
  abbrev pub Logged : List (Record Time) → List Syscall → Type 0
  Logged [] [] = Unit
  Logged [] (c ∷ cs) = ⊥
  Logged (item ∷ items) [] = ⊥
  Logged (item ∷ items) (c ∷ cs) =
      (item.function_id ≡ id_number (syscall_id c))
      × (encode_call c ≡ some item.function_call)
      × Logged items cs

  Logged-append :
      (xs ys : List (Record Time)) (cs ds : List Syscall)
      → Logged xs cs
      → Logged ys ds
      → Logged (xs ++ ys) (cs ++ ds)
  Logged-append [] ys [] ds h k = k
  Logged-append [] ys (c ∷ cs) ds h k = absurd h
  Logged-append (x ∷ xs) ys [] ds h k = absurd h
  Logged-append (x ∷ xs) ys (c ∷ cs) ds (number, bytes, h) k =
      (number, bytes, Logged-append xs ys cs ds h k)

module _ ⦃w : Wasi⦄ where
  syscall_id-made :
      (q : Request) (response : Response q)
      → id_number (request_id q) ≡ id_number (syscall_id (made q response))
  unfolding syscall_id made request_id
  syscall_id-made Request.args_sizes_get response = refl
  syscall_id-made _ response = refl

module _ ⦃w : Wasi⦄ {Time Fault S : Type 0} (clock : List (Record Time) → Time)
    (system : System Fault S) where
  -- A call behind the recorder: its outcome is the system's, and the log gets its record.
  abbrev Kept : (q : Request) → S → List (Record Time) → Outcome Fault (Response q) S → Type 0
  Kept q s log outcome =
      (added : List (Record Time)) × (recorder system (append_record clock) q (s, log)
        ≡ (outcome.0, (outcome.1, log ++ added)))
      × Logged added (written_call q outcome)

  recording-Kept :
      (q : Request) (s : S) (log : List (Record Time)) (outcome : Outcome Fault (Response q) S)
      (next : Response q → S → Type 0)
      → request_id q ≢ SyscallId.proc_exit
      → system q s ≡ outcome
      → Goes q next outcome
      → Kept q s log outcome
  unfolding recording request_id
  recording-Kept q s log (ok response, after) next other answered (known, goes_on) =
      let (bytes, written) = encode_call-made q response known in
      (
        _,
        recorder-made system (append_record clock) q s log other
            ∙ ap
                (λ outcome.
                  recording (append_record clock) (request_id q) outcome log
                    (λ r. encode_call (made q r)))
                answered
            ∙ ap (writing (append_record clock) (request_id q) response after log) written,
        (syscall_id-made q response, written, tt),
      )
  recording-Kept (Request.proc_exit _) s log (err panic, after) next other ended goes =
      absurd (other refl)
  recording-Kept q s log (err panic, after) next other ended goes = (
    [],
    recorder-made system (append_record clock) q s log other
        ∙ ap
            (λ outcome.
              recording (append_record clock) (request_id q) outcome log
                (λ r. encode_call (made q r)))
            ended
        ∙ ap (λ l. (err panic, (after, l))) (sym (append-nil log)),
    tt,
  )

  exit-Kept :
      (exit_code : ExitCode) (s : S) (log : List (Record Time)) (outcome : Outcome Fault Errno S)
      → system (Request.proc_exit exit_code) s ≡ outcome
      → Kept (Request.proc_exit exit_code) s log outcome
  unfolding recorder recorder_proc_exit syscall_id encode_call made
  exit-Kept exit_code s log (ok errno, after) answered =
      (_, ap (beside _) answered, (refl, refl, tt))
  exit-Kept exit_code s log (err panic, after) ended = (_, ap (beside _) ended, (refl, refl, tt))

  call-Kept :
      (q : Request) (s : S) (log : List (Record Time)) (next : Response q → S → Type 0)
      → Goes q next (system q s)
      → Kept q s log (system q s)
  unfolding recorder recorder_proc_exit request_id syscall_id encode_call made
  call-Kept (Request.proc_exit exit_code) s log next goes =
      exit-Kept exit_code s log (system (Request.proc_exit exit_code) s) refl
  call-Kept q s log next goes = recording-Kept q s log (system q s) next (λ e. cc e) refl goes

  -- The rest of the run after a call.
  abbrev Continued :
      (q : Request)
      → {A : Type 0} → (Response q → Guest A)
      → List (Record Time)
      → Outcome Fault (Response q) S
      → Type 0
  Continued q continue log outcome =
      (added : List (Record Time)) × (continuing
          (λ response. run (recorder system (append_record clock)) (continue response))
          (outcome.0, (outcome.1, log))
        ≡ (
          (continuing (λ response. run system (continue response)) outcome).0,
          ((continuing (λ response. run system (continue response)) outcome).1, log ++ added),
        ))
      × Logged added (after_call (λ response. calls system (continue response)) outcome)

  abbrev Recorded : {A : Type 0} → Guest A → S → List (Record Time) → Type 0
  Recorded g s log =
      (added : List (Record Time)) × (run (recorder system (append_record clock)) g (s, log)
        ≡ ((run system g s).0, ((run system g s).1, log ++ added)))
      × Logged added (calls system g s)

  run-continuing :
      {A : Type 0} (q : Request) (continue : Response q → Guest A) (log : List (Record Time))
      (outcome : Outcome Fault (Response q) S)
      → ((response : Response q) (after : S) (log : List (Record Time))
          → IsRecorded system (continue response) after
          → Recorded (continue response) after log)
      → Goes q (λ response. IsRecorded system (continue response)) outcome
      → Continued q continue log outcome
  run-continuing q continue log (ok response, after) later (known, goes_on) =
      later response after log goes_on
  run-continuing q continue log (err panic, after) later goes =
      ([], ap (λ l. (err panic, (after, l))) (sym (append-nil log)), tt)

  -- Behind a recorder a guest ends as it does against the system alone, with the same result or
  -- panic, and leaves it in the same state. The log gets, in order, the encodings of the calls that
  -- return, and of ProcExit with ESUCCESS, and nothing else. This holds of any system and any guest
  -- that gives PollOneOff only subscriptions of the three known event types, if the events that
  -- PollOneOff counts are of these types too.
  pub run-recorder :
      {A : Type 0} (g : Guest A) (s : S) (log : List (Record Time))
      → IsRecorded system g s
      → (added : List (Record Time)) × (run (recorder system (append_record clock)) g (s, log)
          ≡ ((run system g s).0, ((run system g s).1, log ++ added)))
        × Logged added (calls system g s)
  unfolding run IsRecorded calls
  run-recorder (done a) s log recorded = ([], ap (λ l. (ok a, (s, l))) (sym (append-nil log)), tt)
  run-recorder (call q continue) s log recorded =
      let (first, step, holds) = call-Kept q s log _ recorded in
      let (others, rest, hold) =
        run-continuing q continue (log ++ first) (system q s)
          (λ response after log h. run-recorder (continue response) after log h) recorded in
      let ended = run system (call q continue) s in
      (
        first ++ others,
        ap (continuing λ response. run (recorder system (append_record clock)) (continue response))
              step
            ∙ rest
            ∙ ap (λ l. (ended.0, (ended.1, l))) (append_assoc log first others),
        Logged-append first others _ _ holds hold,
      )
