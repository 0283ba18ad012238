-- ===== src/Wasicall/Tests/Systems.antt =====
-- The properties of the systems at concrete calls.
use timecraft.Common.{
  Bool, List, [], arith, false, if◌then◌else◌, none, refl, some, true, ℕ, ◌++◌, ◌∷◌, ◌≡◌, ◌≢◌,
}
use timecraft.Common.Int.{pos}
use timecraft.Common.Result.{err, ok}
use timecraft.Wasicall.Calls.Io.{decode_fd_sync, encode_fd_read}
use timecraft.Wasicall.Errno.{errno_system}
use timecraft.Wasicall.Fallback.Answers.{fallback-errno_system, run-fallback}
use timecraft.Wasicall.Fallback.Dispatch.{fallback}
use timecraft.Wasicall.Iovecs.{encode_iovecs_prefix}
use timecraft.Wasicall.Observer.Dispatch.{observer}
use timecraft.Wasicall.Observer.Told.{
  asked, observer-answered, observer-transparent, observer_sock_address_info-swapped, told,
}
use timecraft.Wasicall.Recorder.Dispatch.{recorder}
use timecraft.Wasicall.Recorder.Transparent.{IsRecorded, Logged, append_record, calls, run-recorder}
use timecraft.Wasicall.Replay.Agrees.{Agrees}
use timecraft.Wasicall.Replay.Dispatch.{replay}
use timecraft.Wasicall.Replay.Guest.{run-replay}
use timecraft.Wasicall.Replay.Hints.{replay_sock_address_info-hints}
use timecraft.Wasicall.Replay.Io.{replay_fd_sync}
use timecraft.Wasicall.Replay.Refinement.{IsReplayable}
use timecraft.Wasicall.Replay.State.{
  Replay, advance, answering, checked, mismatches, new_replay, read_record, replaying,
}
use timecraft.Wasicall.Replay.Steps.{Moves, replay-Moves}
use timecraft.Wasicall.Replay.Strict.{replay-Agrees}
use timecraft.Wasicall.Replay.Unanswered.{replay-end, replay-failed, replay-unexpected}
use timecraft.Wasicall.Sockets.{AddressInfo, unix_address}
use timecraft.Wasicall.Syscall.Call.{Syscall}
use timecraft.Wasicall.Syscall.Ids.{id_number}
use timecraft.Wasicall.Syscall.Log.{Record}
use timecraft.Wasicall.Syscall.Reader.{decode_call}
use timecraft.Wasicall.Syscall.Recorder.{encode_call}
use timecraft.Wasicall.System.{same}
use timecraft.Wasicall.System.Exchange.{made, request_id}
use timecraft.Wasicall.System.Guest.{Guest, call, done, run}
use timecraft.Wasicall.System.Request.{
  Request, System, exit_error, nil_function, raised, read_failed, unexpected_syscall,
}
use timecraft.Wasicall.Tests.Unsigned.{U32, u32, u32_scalar, unsigned}
use timecraft.Wasicall.Words.{
  decode_scalar32, decode_u32, encode_bytes, encode_scalar32, encode_u32, le_bytes, le_value,
}

-- A system whose state is the bytes that are left to read from descriptor 3; other calls fail with
-- the fault 9, and ProcExit exits.
abbrev reading : System ⦃w = unsigned⦄ ℕ (List ℕ)
reading (Request.fd_read _ iovecs) (a ∷ b ∷ c ∷ s) =
    (ok ((a ∷ b ∷ []) ∷ (c ∷ 0 ∷ []) ∷ [], 3, unsigned.esuccess), s)
reading (Request.fd_sync _) s = (ok unsigned.esuccess, s)
reading (Request.proc_exit exit_code) s = (err (exit_error exit_code.0), s)
reading _ s = (err (raised 9), s)

abbrev descriptor : U32
descriptor = u32 3 (omega arith)

-- A guest that reads into two buffers of two bytes and exits with the count of the bytes read.
abbrev reader : Guest ⦃w = unsigned⦄ ℕ
reader =
    call (Request.fd_read descriptor ((0 ∷ 0 ∷ []) ∷ (0 ∷ 0 ∷ []) ∷ [])) λ (iovecs, size, errno).
      call (Request.proc_exit (unsigned.exit_code.of_word size)) λ errno. done 0

abbrev log_clock : List (Record ℕ) → ℕ
log_clock log = 70

abbrev no_output : ℕ → List ℕ → ℕ × Bool
no_output out bytes = (out, false)

reader-IsReplayable : IsReplayable reading reader (1 ∷ 2 ∷ 3 ∷ [])
unfolding IsReplayable made encode_call encode_fd_read encode_u32 encode_iovecs_prefix encode_bytes
    encode_scalar32 le_bytes
reader-IsReplayable = (omega arith, (refl, refl, (refl, refl, tt)), omega arith, refl)

reader-IsRecorded : IsRecorded reading reader (1 ∷ 2 ∷ 3 ∷ [])
unfolding IsRecorded
reader-IsRecorded = (tt, tt)

run-recorder_example :
    (added : List (Record ℕ)) × (run
        (recorder reading (append_record log_clock))
        reader
        (1 ∷ 2 ∷ 3 ∷ [], [])
      ≡ (
        (run reading reader (1 ∷ 2 ∷ 3 ∷ [])).0,
        ((run reading reader (1 ∷ 2 ∷ 3 ∷ [])).1, [] ++ added),
      ))
    × Logged added (calls reading reader (1 ∷ 2 ∷ 3 ∷ []))
run-recorder_example = run-recorder log_clock reading reader (1 ∷ 2 ∷ 3 ∷ []) [] reader-IsRecorded

run-replay_example :
    (log : List (Record ℕ)) × ((run
        (recorder reading (append_record log_clock))
        reader
        (1 ∷ 2 ∷ 3 ∷ [], [])).1.1
      ≡ log)
    × ((run {Fault = ℕ}
          (replay no_output)
          reader
          (new_replay 0 (record { items = log; fault = none }))).0
        ≡ (run reading reader (1 ∷ 2 ∷ 3 ∷ [])).0)
    × ((run {Fault = ℕ}
          (replay no_output)
          reader
          (new_replay 0 (record { items = log; fault = none }))).1.records
        ≡ record { items = []; fault = none })
run-replay_example =
    run-replay log_clock no_output reading 0 none reader (1 ∷ 2 ∷ 3 ∷ []) reader-IsReplayable

-- The guest exits with the number of bytes that it read.
run-reader : (run reading reader (1 ∷ 2 ∷ 3 ∷ [])).0 ≡ err (exit_error 3)
unfolding run
run-reader = refl

abbrev at_end : Replay ⦃w = unsigned⦄ ℕ ℕ ℕ
at_end = record {
  stdout_writer = 0;
  stderr_writer = 0;
  stdout = u32 1 (omega arith);
  stderr = u32 2 (omega arith);
  records = record { items = []; fault = none };
  strict = true;
}

-- The log holds an FDSync of descriptor 3 that succeeded.
abbrev synced : Record ℕ
synced = record { time = 70; function_id = 24; function_call = 0 ∷ 0 ∷ 0 ∷ 0 ∷ 3 ∷ 0 ∷ 0 ∷ 0 ∷ [] }

abbrev before_sync : Replay ⦃w = unsigned⦄ ℕ ℕ ℕ
before_sync = record at_end { records = record { items = synced ∷ []; fault = none } }

replay-end_example :
    replay no_output (Request.fd_sync descriptor) at_end
    ≡ errno_system unsigned.enosys (Request.fd_sync descriptor) at_end
replay-end_example = replay-end no_output (Request.fd_sync descriptor) at_end refl

abbrev unreadable : Replay ⦃w = unsigned⦄ ℕ ℕ ℕ
unreadable = record at_end { records = record { items = []; fault = some 5 } }

replay-failed_example :
    replay no_output Request.sched_yield unreadable ≡ (err (read_failed 5), unreadable)
replay-failed_example = replay-failed no_output Request.sched_yield unreadable 5 refl

other_call : synced.function_id ≢ id_number (request_id ⦃w = unsigned⦄ Request.sched_yield)
unfolding id_number request_id
other_call = λ e. cc e

replay-unexpected_example :
    replay no_output Request.sched_yield before_sync
    ≡ (err (unexpected_syscall 24 (request_id Request.sched_yield)), advance [] before_sync)
replay-unexpected_example =
    replay-unexpected no_output Request.sched_yield before_sync synced [] refl other_call

replay-Moves_example : Moves before_sync (replay no_output Request.sched_yield before_sync)
replay-Moves_example = replay-Moves no_output Request.sched_yield before_sync

sync-answered :
    (replay no_output (Request.fd_sync descriptor) before_sync).0 ≡ ok (unsigned.errno.of_word 0)
unfolding replay replay_fd_sync replaying answering read_record decode_fd_sync checked mismatches
    decode_u32 le_value decode_scalar32 id_number
sync-answered = refl

replay-Agrees_example :
    (24 ≡ id_number (request_id ⦃w = unsigned⦄ (Request.fd_sync descriptor)))
    × (c : Syscall ⦃w = unsigned⦄) × (decode_call
          (request_id (Request.fd_sync descriptor))
          synced.function_call
        ≡ ok c)
    × Agrees (Request.fd_sync descriptor) c
replay-Agrees_example =
    replay-Agrees no_output (Request.fd_sync descriptor) before_sync (unsigned.errno.of_word 0)
      synced [] refl sync-answered refl

abbrev odd_hints : AddressInfo ⦃w = unsigned⦄
odd_hints = record {
  flags = u32 0 (omega arith);
  family = u32 0 (omega arith);
  socket_type = u32 0 (omega arith);
  protocol = u32 0 (omega arith);
  address = unix_address [];
  canonical_name = [];
}

replay_sock_address_info-hints_example :
    (replay no_output (Request.sock_address_info [] [] odd_hints []) before_sync).0
    ≢ ok ([], pos 0, unsigned.esuccess)
replay_sock_address_info-hints_example =
    replay_sock_address_info-hints no_output [] [] odd_hints [] before_sync synced [] refl refl
      (λ e. cc e) ([], pos 0, unsigned.esuccess)

run-fallback_example :
    run (fallback (replay no_output) reading) reader (at_end, 1 ∷ 2 ∷ 3 ∷ [])
    ≡ ((run reading reader (1 ∷ 2 ∷ 3 ∷ [])).0, (at_end, (run reading reader (1 ∷ 2 ∷ 3 ∷ [])).1))
run-fallback_example = run-fallback no_output reading reader at_end (1 ∷ 2 ∷ 3 ∷ []) refl

fallback-errno_system_example :
    fallback {S = ℕ}
      (errno_system (u32 8 (omega arith)))
      reading
      (Request.fd_sync descriptor)
      (5, 1 ∷ [])
    ≡ (if same u32_scalar (u32 8 (omega arith)) unsigned.enosys
        then (
          (reading (Request.fd_sync descriptor) (1 ∷ [])).0,
          (5, (reading (Request.fd_sync descriptor) (1 ∷ [])).1),
        )
        else (
          (errno_system {S = ℕ} (u32 8 (omega arith)) (Request.fd_sync descriptor) 5).0,
          (5, 1 ∷ []),
        ))
fallback-errno_system_example =
    fallback-errno_system (u32 8 (omega arith)) reading (Request.fd_sync descriptor) 5 (1 ∷ [])

-- A callback that keeps the calls.
abbrev keep : Syscall ⦃w = unsigned⦄ → List (Syscall ⦃w = unsigned⦄) → List (Syscall ⦃w = unsigned⦄)
keep c calls = c ∷ calls

observer-answered_example :
    observer reading none (some keep) (Request.fd_sync descriptor) ([], [])
    ≡ (ok unsigned.esuccess, ([], told (Request.fd_sync descriptor) unsigned.esuccess ∷ []))
unfolding request_id
observer-answered_example =
    observer-answered reading none (some keep) (Request.fd_sync descriptor) unsigned.esuccess [] []
      [] refl (λ e. cc e)

observer-transparent_example :
    ((observer reading (some keep) (some keep) (Request.fd_sync descriptor) ([], [])).0
      ≡ (reading (Request.fd_sync descriptor) []).0)
    × ((observer reading (some keep) (some keep) (Request.fd_sync descriptor) ([], [])).1.0
        ≡ (reading (Request.fd_sync descriptor) []).1)
observer-transparent_example =
    observer-transparent reading (some keep) (some keep) (Request.fd_sync descriptor) [] []
      (λ e. absurd (cc e))

-- A system that finds no address.
abbrev nameless : System ⦃w = unsigned⦄ ℕ ℕ
nameless (Request.sock_address_info _ _ _ buffer) s = (ok (buffer, pos 0, unsigned.esuccess), s)
nameless _ s = (err (raised 9), s)

observer_sock_address_info-swapped_example :
    (observer nameless none (some keep) (Request.sock_address_info [] [] odd_hints []) (0, [])
      ≡ (err nil_function, (0, [])))
    × (observer nameless
          (some keep)
          (some keep)
          (Request.sock_address_info [] [] odd_hints [])
          (0, [])
        ≡ (
          ok ([], pos 0, unsigned.esuccess),
          (
            0,
            made (Request.sock_address_info [] [] odd_hints []) ([], pos 0, unsigned.esuccess)
                ∷ asked (Request.sock_address_info [] [] odd_hints [])
                ∷ [],
          ),
        ))
observer_sock_address_info-swapped_example =
    observer_sock_address_info-swapped nameless keep keep [] [] odd_hints []
      ([], pos 0, unsigned.esuccess) 0 0 [] refl
