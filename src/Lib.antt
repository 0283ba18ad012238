-- ===== src/Lib.antt =====
-- timecraft runs WebAssembly modules that speak WASI preview 1, records every system call of a
-- guest in a log, and replays the run from that log. This library models the recording and the
-- replay, call by call and down to the bytes of a record, the systems that stand around them, and
-- three packages that the log and the sandbox use.
--
-- The program's parts. A guest calls the WASI functions of internal/sandbox; a recorder
-- (internal/timemachine/wasicall/record.go) stands in front, makes each call, and writes the
-- parameters, the results and the errno as bytes (codec.go) into a log of batches
-- (internal/timemachine). A reader (reader.go) turns the bytes of a record into a system call
-- value (syscall.go). A replay (replay.go) is a system that answers the guest from the records and
-- compares the guest's parameters with the recorded ones. A fallback (fallback.go) asks a second
-- system where the first gives ENOSYS, and an observer (observer.go) tells callbacks of each call.
--
-- Which file models which part:
--   Common: lists over the native numbers, Boolean tests, integers, results of fallible code.
--   Wasicall.Wasi: the types of github.com/stealthrocket/wasi-go, which is another repository. A
--     `Wasi` is a parameter: the conversions of the scalar types between their machine word and
--     their value, the constants that the code branches on, and the union in a subscription.
--   Wasicall.Words, Scalars, Lists, Stats, Sockets, Poll, Iovecs: the encodeX and decodeX functions
--     of internal/timemachine/wasicall/codec.go, under these names in snake case. A buffer is a
--     list of bytes; encode_x appends to it, decode_x gives the value and what is left, or the
--     error. An encoder that panics returns an Option, with none for the panic.
--   Wasicall.Calls: the methods of Codec, two for each of the 57 system calls.
--   Wasicall.Syscall: syscall.go (the constants and the call values), the encoding half of each
--     method of record.go, Decoder.Decode of reader.go, and in Log its ReadSyscall, over a list of
--     records and the error that the log ends in.
--   Wasicall.System: the interface of wasi-go between a guest and a system. A `System` is a step on
--     a state: of a `Request` (a call with its parameters) it gives an `Outcome`, a response (the
--     results, the errno, and what the call left in the guest's buffers) or a panic. A guest is
--     a tree: a call, and for each response what the guest does next. Exchange pairs a request and a
--     response to the call value that a record holds, Guest runs a guest against a system.
--   Wasicall.Recorder, Replay, Fallback, Observer, Exit, Errno: the systems of record.go, replay.go,
--     fallback.go, observer.go, exit.go and errno.go. Each has one definition for each method, under
--     the method's name in snake case after the system's (replay_fd_read is Replay.FDRead), and one
--     of the system's name that sends a request to its method. The systems around which they stand,
--     the io.Writer of a replay and the callbacks of an observer are parameters.
--   The RoundTrip children hold the round trips, through the record `Codec` of
--     Wasicall.Words.RoundTrip, which each type fills once.
--   Fspath: internal/sandbox/fspath/fspath.go, the paths that the sandbox's file systems walk, as
--     lists of bytes. Its child Words describes the elements of a path without the code's loops.
--   Ipam: internal/ipam, the pool from which the sandbox's networks take their IPv4 addresses, and
--     the set of bits below it; of the IPv6 addresses the sum and the difference (Ipv6). Ipam.Bits
--     has the laws of single bits that the library lacks.
--   Stream: of internal/stream the reader of a sequence, Seek, ReadAtLeast, ReadFull and ReadAll
--     (stream.go), and MultiReader over readers of sequences (multi.go).
--
-- Bounds. Words are numbers below 2 ^ 32 or 2 ^ 64 with the wrap-around written out: a length is
-- stored modulo 2 ^ 32, an int as the 64 bits of its two's complement. So the round trips ask of
-- a buffer that it be shorter than 2 ^ 32 bytes (`Fits`), of a list that it have fewer than 2 ^ 32
-- members, and of an int that it lie in the range of int64 (`IsInt64`). The codec recurs on the
-- buffer, on the list or on the count that it has read, and the replay on the guest, so that neither
-- needs fuel. The loops of fspath drop at least one byte in each round and run on fuel, one more
-- than the length of the path. ReadAtLeast reads at least one value in a round that gives no error,
-- and ReadAll leaves less than there was, so that their fuel is one more than the values asked for
-- and than the values there are. Offsets in a pool of addresses are numbers, cut to 32 bits where
-- ipv4.go converts them.
--
-- Not modelled: the clock that the recorder reads, which is a parameter; the panic of the codec on a
-- socket address or an option value of a type that it does not list; readers of MultiReader that
-- are not lists; the texts of errors and the printing of calls; the slices that the reader keeps to
-- save allocations; the rest of internal/stream; the log files, the registry and the object store;
-- the sandbox's system calls and file systems, which stand behind operating system calls; the pool
-- of the IPv6 addresses; the servers and the command line.
pub mod Common
pub mod Fspath
pub mod Ipam
pub mod Stream
pub mod Wasicall
