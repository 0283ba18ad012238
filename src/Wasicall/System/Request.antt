-- ===== src/Wasicall/System/Request.antt =====
-- github.com/stealthrocket/wasi-go's interface System: a call with its parameters, what it gives
-- back, and the ways it can panic. A buffer that a call fills is a parameter and, as the call leaves
-- it, the first of the results. `Fault` is what other code (the reader of the log, the system
-- itself) may raise.
use Prim.Native.String.{String}
use timecraft.Common.{List, ℕ}
use timecraft.Common.Int.{ℤ}
use timecraft.Common.Result.{Result}
use timecraft.Wasicall.Poll.{Event, Subscription}
use timecraft.Wasicall.Sockets.{AddressInfo, SocketAddress, SocketOptionValue}
use timecraft.Wasicall.Stats.{DirEntry, FdStat, FileStat, PreStat}
use timecraft.Wasicall.Syscall.Ids.{SyscallId}
use timecraft.Wasicall.Wasi.{
  Advice, ClockId, DirCookie, Errno, ExitCode, Fd, FdFlags, FileDelta, FileSize, FstFlags,
  LookupFlags, OpenFlags, Protocol, ProtocolFamily, RiFlags, Rights, RoFlags, SdFlags, SiFlags,
  Signal, SocketOption, SocketType, Timestamp, Wasi, Whence,
}
use timecraft.Wasicall.Words.{CodecError}

module _ ⦃w : Wasi⦄ where
  pub data Request : Type 0 where
    args_sizes_get : Request
    args_get : Request
    environ_sizes_get : Request
    environ_get : Request
    clock_res_get : ClockId → Request
    clock_time_get : ClockId → Timestamp → Request
    fd_advise : Fd → FileSize → FileSize → Advice → Request
    fd_allocate : Fd → FileSize → FileSize → Request
    fd_close : Fd → Request
    fd_data_sync : Fd → Request
    fd_stat_get : Fd → Request
    fd_stat_set_flags : Fd → FdFlags → Request
    fd_stat_set_rights : Fd → Rights → Rights → Request
    fd_file_stat_get : Fd → Request
    fd_file_stat_set_size : Fd → FileSize → Request
    fd_file_stat_set_times : Fd → Timestamp → Timestamp → FstFlags → Request
    fd_pread : Fd → List (List ℕ) → FileSize → Request
    fd_pre_stat_get : Fd → Request
    fd_pre_stat_dir_name : Fd → Request
    fd_pwrite : Fd → List (List ℕ) → FileSize → Request
    fd_read : Fd → List (List ℕ) → Request
    fd_read_dir : Fd → List DirEntry → DirCookie → ℤ → Request
    fd_renumber : Fd → Fd → Request
    fd_seek : Fd → FileDelta → Whence → Request
    fd_sync : Fd → Request
    fd_tell : Fd → Request
    fd_write : Fd → List (List ℕ) → Request
    path_create_directory : Fd → List ℕ → Request
    path_file_stat_get : Fd → LookupFlags → List ℕ → Request
    path_file_stat_set_times :
        Fd → LookupFlags → List ℕ → Timestamp → Timestamp → FstFlags → Request
    path_link : Fd → LookupFlags → List ℕ → Fd → List ℕ → Request
    path_open : Fd → LookupFlags → List ℕ → OpenFlags → Rights → Rights → FdFlags → Request
    path_read_link : Fd → List ℕ → List ℕ → Request
    path_remove_directory : Fd → List ℕ → Request
    path_rename : Fd → List ℕ → Fd → List ℕ → Request
    path_symlink : List ℕ → Fd → List ℕ → Request
    path_unlink_file : Fd → List ℕ → Request
    poll_one_off : List Subscription → List Event → Request
    proc_exit : ExitCode → Request
    proc_raise : Signal → Request
    sched_yield : Request
    random_get : List ℕ → Request
    sock_accept : Fd → FdFlags → Request
    sock_recv : Fd → List (List ℕ) → RiFlags → Request
    sock_send : Fd → List (List ℕ) → SiFlags → Request
    sock_shutdown : Fd → SdFlags → Request
    sock_open : ProtocolFamily → SocketType → Protocol → Rights → Rights → Request
    sock_bind : Fd → SocketAddress → Request
    sock_connect : Fd → SocketAddress → Request
    sock_listen : Fd → ℤ → Request
    sock_send_to : Fd → List (List ℕ) → SiFlags → SocketAddress → Request
    sock_recv_from : Fd → List (List ℕ) → RiFlags → Request
    sock_get_opt : Fd → SocketOption → Request
    sock_set_opt : Fd → SocketOption → SocketOptionValue → Request
    sock_local_address : Fd → Request
    sock_remote_address : Fd → Request
    sock_address_info : List ℕ → List ℕ → AddressInfo → List AddressInfo → Request

  abbrev pub Response : Request → Type 0
  Response Request.args_sizes_get = ℤ × ℤ × Errno
  Response Request.args_get = List (List ℕ) × Errno
  Response Request.environ_sizes_get = ℤ × ℤ × Errno
  Response Request.environ_get = List (List ℕ) × Errno
  Response (Request.clock_res_get _) = Timestamp × Errno
  Response (Request.clock_time_get _ _) = Timestamp × Errno
  Response (Request.fd_advise _ _ _ _) = Errno
  Response (Request.fd_allocate _ _ _) = Errno
  Response (Request.fd_close _) = Errno
  Response (Request.fd_data_sync _) = Errno
  Response (Request.fd_stat_get _) = FdStat × Errno
  Response (Request.fd_stat_set_flags _ _) = Errno
  Response (Request.fd_stat_set_rights _ _ _) = Errno
  Response (Request.fd_file_stat_get _) = FileStat × Errno
  Response (Request.fd_file_stat_set_size _ _) = Errno
  Response (Request.fd_file_stat_set_times _ _ _ _) = Errno
  Response (Request.fd_pread _ _ _) = List (List ℕ) × ℕ × Errno
  Response (Request.fd_pre_stat_get _) = PreStat × Errno
  Response (Request.fd_pre_stat_dir_name _) = List ℕ × Errno
  Response (Request.fd_pwrite _ _ _) = ℕ × Errno
  Response (Request.fd_read _ _) = List (List ℕ) × ℕ × Errno
  Response (Request.fd_read_dir _ _ _ _) = List DirEntry × ℤ × Errno
  Response (Request.fd_renumber _ _) = Errno
  Response (Request.fd_seek _ _ _) = FileSize × Errno
  Response (Request.fd_sync _) = Errno
  Response (Request.fd_tell _) = FileSize × Errno
  Response (Request.fd_write _ _) = ℕ × Errno
  Response (Request.path_create_directory _ _) = Errno
  Response (Request.path_file_stat_get _ _ _) = FileStat × Errno
  Response (Request.path_file_stat_set_times _ _ _ _ _ _) = Errno
  Response (Request.path_link _ _ _ _ _) = Errno
  Response (Request.path_open _ _ _ _ _ _ _) = Fd × Errno
  Response (Request.path_read_link _ _ _) = List ℕ × ℤ × Errno
  Response (Request.path_remove_directory _ _) = Errno
  Response (Request.path_rename _ _ _ _) = Errno
  Response (Request.path_symlink _ _ _) = Errno
  Response (Request.path_unlink_file _ _) = Errno
  Response (Request.poll_one_off _ _) = List Event × ℤ × Errno
  Response (Request.proc_exit _) = Errno
  Response (Request.proc_raise _) = Errno
  Response Request.sched_yield = Errno
  Response (Request.random_get _) = List ℕ × Errno
  Response (Request.sock_accept _ _) = Fd × SocketAddress × SocketAddress × Errno
  Response (Request.sock_recv _ _ _) = List (List ℕ) × ℕ × RoFlags × Errno
  Response (Request.sock_send _ _ _) = ℕ × Errno
  Response (Request.sock_shutdown _ _) = Errno
  Response (Request.sock_open _ _ _ _ _) = Fd × Errno
  Response (Request.sock_bind _ _) = SocketAddress × Errno
  Response (Request.sock_connect _ _) = SocketAddress × Errno
  Response (Request.sock_listen _ _) = Errno
  Response (Request.sock_send_to _ _ _ _) = ℕ × Errno
  Response (Request.sock_recv_from _ _ _) = List (List ℕ) × ℕ × RoFlags × SocketAddress × Errno
  Response (Request.sock_get_opt _ _) = SocketOptionValue × Errno
  Response (Request.sock_set_opt _ _ _) = Errno
  Response (Request.sock_local_address _) = SocketAddress × Errno
  Response (Request.sock_remote_address _) = SocketAddress × Errno
  Response (Request.sock_address_info _ _ _ _) = List AddressInfo × ℤ × Errno

-- replay.go: ReadError, DecodeError, UnexpectedSyscallError and UnexpectedSyscallParamError without
-- the values that its message prints, and errors.Join of these; sys.ExitError with its exit code;
-- the run-time panics on an index out of range and on a call of a nil function; the codec's panic
-- on a value that it cannot encode; and what other code raises.
pub data Panic (Fault : Type 0) : Type 0 where
  read_failed : Fault → Panic Fault
  undecodable : CodecError → Panic Fault
  unexpected_syscall : ℕ → SyscallId → Panic Fault
  unexpected_params : List (SyscallId × String) → Panic Fault
  exit_error : ℕ → Panic Fault
  index_out_of_range : Panic Fault
  nil_function : Panic Fault
  unencodable : Panic Fault
  raised : Fault → Panic Fault

module _ ⦃w : Wasi⦄ where
  -- What a call gives in a state, and the state after it.
  abbrev pub Outcome {ℓ} : Type 0 → Type ℓ → Type 0 → Type ℓ
  Outcome Fault A S = Result (Panic Fault) A × S

  abbrev pub System : Type 0 → Type 0 → Type 0
  System Fault S = (q : Request) → S → Outcome Fault (Response q) S
