-- ===== src/Wasicall/Tests.antt =====
-- The properties of the codec at concrete calls.
mod Unsigned
mod Systems
use mathlib.Core.List.{flatten}
use timecraft.Common.{List, [], arith, false, none, refl, some, ℕ, ◌++◌, ◌↔◌, ◌∷◌, ◌≡◌, ◌≤◌}
use timecraft.Common.Result.{err, ok}
use timecraft.Wasicall.Calls.Io.{encode_fd_read}
use timecraft.Wasicall.Iovecs.{encode_iovecs_prefix}
use timecraft.Wasicall.Iovecs.Prefix.{decode_iovecs-encode_iovecs_prefix, recorded_iovecs}
use timecraft.Wasicall.Lists.{decode_iovecs}
use timecraft.Wasicall.Poll.{
  Event, decode_event_body, encode_event, is_clock_event, is_fd_event, zero_fd_read_write,
}
use timecraft.Wasicall.Syscall.Call.{Syscall, fd_read, syscall_id}
use timecraft.Wasicall.Syscall.Ids.{SyscallId, id_number}
use timecraft.Wasicall.Syscall.Log.{failed, read_many, read_many-recording}
use timecraft.Wasicall.Syscall.Reader.{decode_error, decode_record, unknown_syscall}
use timecraft.Wasicall.Syscall.Recordable.{recorded}
use timecraft.Wasicall.Syscall.Recorder.{encode_call}
use timecraft.Wasicall.Syscall.RoundTrip.{decode_record-encode_call}
use timecraft.Wasicall.Syscall.Short.{decode_record-short}
use timecraft.Wasicall.Syscall.Unknown.{decode_record-unknown}
use timecraft.Wasicall.Tests.Unsigned.{u32, unsigned}
use timecraft.Wasicall.Words.{
  encode_bytes, encode_scalar32, encode_u32, invalid_event_type, le_bytes, short_buffer,
}
use timecraft.Wasicall.Words.RoundTrip.{Fits}

-- A read of three bytes into two buffers of two.
abbrev three_bytes : Syscall ⦃w = unsigned⦄
three_bytes =
    fd_read (u32 3 (omega arith)) ((1 ∷ 2 ∷ []) ∷ (3 ∷ 4 ∷ []) ∷ []) 3 (u32 0 (omega arith))

-- The errno, the descriptor, the count of two buffers, the bytes of each, and the size.
abbrev three_bytes_record : List ℕ
three_bytes_record =
    0 ∷ 0 ∷ 0 ∷ 0 ∷ 3 ∷ 0 ∷ 0 ∷ 0 ∷ 2 ∷ 0 ∷ 0 ∷ 0 ∷ 2 ∷ 0 ∷ 0 ∷ 0 ∷ 1 ∷ 2 ∷ 1 ∷ 0 ∷ 0 ∷ 0 ∷ 3 ∷ 3
    ∷ 0 ∷ 0 ∷ 0 ∷ []

three_bytes-written : encode_call three_bytes ≡ some three_bytes_record
unfolding encode_call encode_fd_read encode_u32 encode_iovecs_prefix encode_bytes encode_scalar32
    le_bytes
three_bytes-written = refl

decode_record-encode_call_example :
    decode_record (id_number (syscall_id three_bytes)) three_bytes_record
    ≡ ok (recorded three_bytes)
decode_record-encode_call_example =
    decode_record-encode_call three_bytes three_bytes_record (omega arith) three_bytes-written
      (omega arith)

-- A log that fails with the fault 5 after one record, at the time 70.
read_many-recording_example :
    read_many {Time = ℕ} {Fault = ℕ} 2 (record {
      items = record { time = 70; function_id = 20; function_call = three_bytes_record } ∷ [];
      fault = some 5;
    })
    ≡ (ok (70, recorded three_bytes) ∷ err (failed 5) ∷ [], record { items = []; fault = some 5 })
unfolding id_number syscall_id
read_many-recording_example =
    read_many-recording ((70, three_bytes) ∷ [])
      (record { time = 70; function_id = 20; function_call = three_bytes_record } ∷ []) (some 5) 1
      (refl, refl, three_bytes-written, omega arith, omega arith, tt)

-- The third byte is the front of the second buffer.
recorded-three_bytes :
    recorded three_bytes
    ≡ fd_read (u32 3 (omega arith)) ((1 ∷ 2 ∷ []) ∷ (3 ∷ []) ∷ []) 3 (u32 0 (omega arith))
unfolding recorded recorded_iovecs
recorded-three_bytes = refl

prefix-Fits : Fits (encode_iovecs_prefix [] ((1 ∷ 2 ∷ []) ∷ (3 ∷ 4 ∷ []) ∷ []) 3 ++ (9 ∷ []))
unfolding encode_iovecs_prefix encode_u32 encode_bytes le_bytes
prefix-Fits = omega arith

-- The buffers of the same read.
decode_iovecs-encode_iovecs_prefix_example :
    (kept : List (List ℕ)) × (decode_iovecs
        (encode_iovecs_prefix [] ((1 ∷ 2 ∷ []) ∷ (3 ∷ 4 ∷ []) ∷ []) 3 ++ (9 ∷ []))
      ≡ ok (kept, 9 ∷ []))
    × (flatten kept ≡ 1 ∷ 2 ∷ 3 ∷ [])
unfolding flatten
decode_iovecs-encode_iovecs_prefix_example =
    decode_iovecs-encode_iovecs_prefix ((1 ∷ 2 ∷ []) ∷ (3 ∷ 4 ∷ []) ∷ []) 3 (9 ∷ []) (omega arith)
      (omega arith) prefix-Fits

decode_record-unknown_example :
    (decode_record ⦃w = unsigned⦄ 57 [] ≡ err (unknown_syscall 57)) ↔ (57 ≤ 57)
decode_record-unknown_example = decode_record-unknown ⦃w = unsigned⦄ 57 []

decode_record-short_example :
    decode_record ⦃w = unsigned⦄ (id_number SyscallId.fd_read) (1 ∷ 2 ∷ 3 ∷ [])
    ≡ err (decode_error short_buffer)
decode_record-short_example =
    decode_record-short ⦃w = unsigned⦄ SyscallId.fd_read (1 ∷ 2 ∷ 3 ∷ []) (omega arith)
