-- ===== src/Wasicall/Syscall/Log.antt =====
-- internal/timemachine/wasicall/reader.go: Reader.ReadSyscall, over the records that the log yields.
-- The types of times and of the log's own errors are parameters.
use timecraft.Common.{
  List, Option, [], ap, arith, length, map, none, refl, replicate, some, suc, zero, ℕ, ◌++◌, ◌+◌,
  ◌∙◌, ◌∷◌, ◌≡◌,
}
use timecraft.Common.Result.{Result, err, ok}
use timecraft.Wasicall.Syscall.Call.{Syscall, syscall_id}
use timecraft.Wasicall.Syscall.Ids.{id_number}
use timecraft.Wasicall.Syscall.Reader.{DecodeError, decode_record}
use timecraft.Wasicall.Syscall.Recordable.{IsRecordable, recorded}
use timecraft.Wasicall.Syscall.Recorder.{encode_call}
use timecraft.Wasicall.Syscall.RoundTrip.{decode_record-encode_call}
use timecraft.Wasicall.Wasi.{Wasi}
use timecraft.Wasicall.Words.RoundTrip.{Fits}

pub record Record (Time : Type 0) : Type 0 where
  pub time : Time
  pub function_id : ℕ
  pub function_call : List ℕ

-- The records still to come, and the error that the iterator has after them, if any.
pub record Records (Time Fault : Type 0) : Type 0 where
  pub items : List (Record Time)
  pub fault : Option Fault

pub data ReadError (Fault : Type 0) : Type 0 where
  eof : ReadError Fault
  failed : Fault → ReadError Fault
  undecoded : DecodeError → ReadError Fault

abbrev pub at_end : {Fault : Type 0} → Option Fault → ReadError Fault
at_end none = eof
at_end (some fault) = failed fault

-- The records hold what the recorder writes of the calls, in order.
abbrev pub IsRecording :
    ⦃w : Wasi⦄ {Time : Type 0} → List (Time × Syscall) → List (Record Time) → Type 0
IsRecording [] [] = Unit
IsRecording [] (r ∷ records) = ⊥
IsRecording (c ∷ calls) [] = ⊥
IsRecording ((time, c) ∷ calls) (r ∷ records) =
    (r.time ≡ time)
    × (r.function_id ≡ id_number (syscall_id c))
    × (encode_call c ≡ some r.function_call)
    × Fits r.function_call
    × IsRecordable c
    × IsRecording calls records

module _ ⦃w : Wasi⦄ {Time Fault : Type 0} where
  abbrev pub timed : Time → Result DecodeError Syscall → Result (ReadError Fault) (Time × Syscall)
  timed time (ok call) = ok (time, call)
  timed time (err e) = err (undecoded e)

  unfoldable pub read_syscall :
      Records Time Fault → Result (ReadError Fault) (Time × Syscall) × Records Time Fault
  read_syscall r = elim r.items [
    | [] ↦ (err (at_end r.fault), r)
    | item ∷ items ↦ (
      timed item.time (decode_record item.function_id item.function_call),
      record r { items = items },
    )
  ]

  -- A number of reads in a row: their results, and the records then left.
  unfoldable pub read_many :
      ℕ → Records Time Fault → List (Result (ReadError Fault) (Time × Syscall)) × Records Time Fault
  unfolding read_syscall
  read_many zero r = ([], r)
  read_many (suc n) r =
      let (result, r) = read_syscall r in let (results, r) = read_many n r in (result ∷ results, r)

  abbrev pub as_read : Time × Syscall → Result (ReadError Fault) (Time × Syscall)
  as_read (time, c) = ok (time, recorded c)

  read_many-empty :
      (n : ℕ) (fault : Option Fault)
      → read_many n (record { items = []; fault = fault })
        ≡ (replicate n (err (at_end fault)), record { items = []; fault = fault })
  unfolding read_many read_syscall
  read_many-empty zero fault = refl
  read_many-empty (suc n) fault =
      let after = read_many-empty n fault in λ i. (err (at_end fault) ∷ (after i).0, (after i).1)

  read_one :
      (time : Time) (c : Syscall) (r : Record Time)
      → r.time ≡ time
      → r.function_id ≡ id_number (syscall_id c)
      → decode_record (id_number (syscall_id c)) r.function_call ≡ ok (recorded c)
      → timed r.time (decode_record r.function_id r.function_call) ≡ as_read (time, c)
  read_one time c r at_time same decoded =
      (λ i. timed (at_time i) (decode_record (same i) r.function_call)) ∙ ap (timed time) decoded

  -- Of records that hold calls which the recorder wrote, in order, each less than 2 ^ 32 bytes, the
  -- reader yields these calls in order with their times, the buffers of reads cut to what was read;
  -- from then on it yields the log's error, or the end of the file if there is none.
  pub read_many-recording :
      (calls : List (Time × Syscall)) (records : List (Record Time)) (fault : Option Fault) (n : ℕ)
      → IsRecording calls records
      → read_many (length calls + n) (record { items = records; fault = fault }) ≡ (
        map as_read calls ++ replicate n (err (at_end fault)),
        record { items = []; fault = fault },
      )
  unfolding read_many read_syscall
  read_many-recording [] [] fault n h =
      let e : 0 + n ≡ n = omega arith in rw e (read_many-empty n fault)
  read_many-recording [] (r ∷ records) fault n h = absurd h
  read_many-recording (c ∷ calls) [] fault n h = absurd h
  read_many-recording ((time, c) ∷ calls) (r ∷ records) fault n
        (at_time, same, written, fits, valid, later) =
      let e : suc (length calls) + n ≡ suc (length calls + n) = omega arith in
      let first =
        read_one time c r at_time same
          (decode_record-encode_call c r.function_call valid written fits) in
      let after = read_many-recording calls records fault n later in
      rw e (λ i. (first i ∷ (after i).0, (after i).1))
