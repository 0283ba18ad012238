-- ===== src/Wasicall/Syscall/Call.antt =====
-- internal/timemachine/wasicall/syscall.go and record.go: a system call with its parameters and
-- results, a constructor for each Syscall structure, and the bytes that the recorder writes for it.
use timecraft.Common.{List, ℕ}
use timecraft.Common.Int.{ℤ}
use timecraft.Wasicall.Poll.{Event, Subscription}
use timecraft.Wasicall.Sockets.{AddressInfo, SocketAddress, SocketOptionValue}
use timecraft.Wasicall.Stats.{DirEntry, FdStat, FileStat, PreStat}
use timecraft.Wasicall.Syscall.Ids.{SyscallId}
use timecraft.Wasicall.Wasi.{
  Advice, ClockId, DirCookie, Errno, ExitCode, Fd, FdFlags, FileDelta, FileSize, FstFlags,
  LookupFlags, OpenFlags, Protocol, ProtocolFamily, RiFlags, Rights, RoFlags, SdFlags, SiFlags,
  Signal, SocketOption, SocketType, Timestamp, Wasi, Whence,
}

module _ ⦃w : Wasi⦄ where
  pub data Syscall : Type 0 where
    args_sizes_get : ℤ → ℤ → Errno → Syscall
    args_get : List (List ℕ) → Errno → Syscall
    environ_sizes_get : ℤ → ℤ → Errno → Syscall
    environ_get : List (List ℕ) → Errno → Syscall
    clock_res_get : ClockId → Timestamp → Errno → Syscall
    clock_time_get : ClockId → Timestamp → Timestamp → Errno → Syscall
    fd_advise : Fd → FileSize → FileSize → Advice → Errno → Syscall
    fd_allocate : Fd → FileSize → FileSize → Errno → Syscall
    fd_close : Fd → Errno → Syscall
    fd_data_sync : Fd → Errno → Syscall
    fd_stat_get : Fd → FdStat → Errno → Syscall
    fd_stat_set_flags : Fd → FdFlags → Errno → Syscall
    fd_stat_set_rights : Fd → Rights → Rights → Errno → Syscall
    fd_file_stat_get : Fd → FileStat → Errno → Syscall
    fd_file_stat_set_size : Fd → FileSize → Errno → Syscall
    fd_file_stat_set_times : Fd → Timestamp → Timestamp → FstFlags → Errno → Syscall
    fd_pread : Fd → List (List ℕ) → FileSize → ℕ → Errno → Syscall
    fd_pre_stat_get : Fd → PreStat → Errno → Syscall
    fd_pre_stat_dir_name : Fd → List ℕ → Errno → Syscall
    fd_pwrite : Fd → List (List ℕ) → FileSize → ℕ → Errno → Syscall
    fd_read : Fd → List (List ℕ) → ℕ → Errno → Syscall
    fd_read_dir : Fd → List DirEntry → DirCookie → ℤ → Errno → Syscall
    fd_renumber : Fd → Fd → Errno → Syscall
    fd_seek : Fd → FileDelta → Whence → FileSize → Errno → Syscall
    fd_sync : Fd → Errno → Syscall
    fd_tell : Fd → FileSize → Errno → Syscall
    fd_write : Fd → List (List ℕ) → ℕ → Errno → Syscall
    path_create_directory : Fd → List ℕ → Errno → Syscall
    path_file_stat_get : Fd → LookupFlags → List ℕ → FileStat → Errno → Syscall
    path_file_stat_set_times :
        Fd → LookupFlags → List ℕ → Timestamp → Timestamp → FstFlags → Errno → Syscall
    path_link : Fd → LookupFlags → List ℕ → Fd → List ℕ → Errno → Syscall
    path_open :
        Fd → LookupFlags → List ℕ → OpenFlags → Rights → Rights → FdFlags → Fd → Errno → Syscall
    path_read_link : Fd → List ℕ → List ℕ → Errno → Syscall
    path_remove_directory : Fd → List ℕ → Errno → Syscall
    path_rename : Fd → List ℕ → Fd → List ℕ → Errno → Syscall
    path_symlink : List ℕ → Fd → List ℕ → Errno → Syscall
    path_unlink_file : Fd → List ℕ → Errno → Syscall
    poll_one_off : List Subscription → List Event → Errno → Syscall
    proc_exit : ExitCode → Errno → Syscall
    proc_raise : Signal → Errno → Syscall
    sched_yield : Errno → Syscall
    random_get : List ℕ → Errno → Syscall
    sock_accept : Fd → FdFlags → Fd → SocketAddress → SocketAddress → Errno → Syscall
    sock_recv : Fd → List (List ℕ) → RiFlags → ℕ → RoFlags → Errno → Syscall
    sock_send : Fd → List (List ℕ) → SiFlags → ℕ → Errno → Syscall
    sock_shutdown : Fd → SdFlags → Errno → Syscall
    sock_open : ProtocolFamily → SocketType → Protocol → Rights → Rights → Fd → Errno → Syscall
    sock_bind : Fd → SocketAddress → SocketAddress → Errno → Syscall
    sock_connect : Fd → SocketAddress → SocketAddress → Errno → Syscall
    sock_listen : Fd → ℤ → Errno → Syscall
    sock_send_to : Fd → List (List ℕ) → SiFlags → SocketAddress → ℕ → Errno → Syscall
    sock_recv_from : Fd → List (List ℕ) → RiFlags → ℕ → RoFlags → SocketAddress → Errno → Syscall
    sock_get_opt : Fd → SocketOption → SocketOptionValue → Errno → Syscall
    sock_set_opt : Fd → SocketOption → SocketOptionValue → Errno → Syscall
    sock_local_address : Fd → SocketAddress → Errno → Syscall
    sock_remote_address : Fd → SocketAddress → Errno → Syscall
    sock_address_info : List ℕ → List ℕ → AddressInfo → List AddressInfo → Errno → Syscall

  -- The method ID.
  unfoldable pub syscall_id : Syscall → SyscallId
  syscall_id (args_sizes_get _ _ _) = SyscallId.args_sizes_get
  syscall_id (args_get _ _) = SyscallId.args_get
  syscall_id (environ_sizes_get _ _ _) = SyscallId.environ_sizes_get
  syscall_id (environ_get _ _) = SyscallId.environ_get
  syscall_id (clock_res_get _ _ _) = SyscallId.clock_res_get
  syscall_id (clock_time_get _ _ _ _) = SyscallId.clock_time_get
  syscall_id (fd_advise _ _ _ _ _) = SyscallId.fd_advise
  syscall_id (fd_allocate _ _ _ _) = SyscallId.fd_allocate
  syscall_id (fd_close _ _) = SyscallId.fd_close
  syscall_id (fd_data_sync _ _) = SyscallId.fd_data_sync
  syscall_id (fd_stat_get _ _ _) = SyscallId.fd_stat_get
  syscall_id (fd_stat_set_flags _ _ _) = SyscallId.fd_stat_set_flags
  syscall_id (fd_stat_set_rights _ _ _ _) = SyscallId.fd_stat_set_rights
  syscall_id (fd_file_stat_get _ _ _) = SyscallId.fd_file_stat_get
  syscall_id (fd_file_stat_set_size _ _ _) = SyscallId.fd_file_stat_set_size
  syscall_id (fd_file_stat_set_times _ _ _ _ _) = SyscallId.fd_file_stat_set_times
  syscall_id (fd_pread _ _ _ _ _) = SyscallId.fd_pread
  syscall_id (fd_pre_stat_get _ _ _) = SyscallId.fd_pre_stat_get
  syscall_id (fd_pre_stat_dir_name _ _ _) = SyscallId.fd_pre_stat_dir_name
  syscall_id (fd_pwrite _ _ _ _ _) = SyscallId.fd_pwrite
  syscall_id (fd_read _ _ _ _) = SyscallId.fd_read
  syscall_id (fd_read_dir _ _ _ _ _) = SyscallId.fd_read_dir
  syscall_id (fd_renumber _ _ _) = SyscallId.fd_renumber
  syscall_id (fd_seek _ _ _ _ _) = SyscallId.fd_seek
  syscall_id (fd_sync _ _) = SyscallId.fd_sync
  syscall_id (fd_tell _ _ _) = SyscallId.fd_tell
  syscall_id (fd_write _ _ _ _) = SyscallId.fd_write
  syscall_id (path_create_directory _ _ _) = SyscallId.path_create_directory
  syscall_id (path_file_stat_get _ _ _ _ _) = SyscallId.path_file_stat_get
  syscall_id (path_file_stat_set_times _ _ _ _ _ _ _) = SyscallId.path_file_stat_set_times
  syscall_id (path_link _ _ _ _ _ _) = SyscallId.path_link
  syscall_id (path_open _ _ _ _ _ _ _ _ _) = SyscallId.path_open
  syscall_id (path_read_link _ _ _ _) = SyscallId.path_read_link
  syscall_id (path_remove_directory _ _ _) = SyscallId.path_remove_directory
  syscall_id (path_rename _ _ _ _ _) = SyscallId.path_rename
  syscall_id (path_symlink _ _ _ _) = SyscallId.path_symlink
  syscall_id (path_unlink_file _ _ _) = SyscallId.path_unlink_file
  syscall_id (poll_one_off _ _ _) = SyscallId.poll_one_off
  syscall_id (proc_exit _ _) = SyscallId.proc_exit
  syscall_id (proc_raise _ _) = SyscallId.proc_raise
  syscall_id (sched_yield _) = SyscallId.sched_yield
  syscall_id (random_get _ _) = SyscallId.random_get
  syscall_id (sock_accept _ _ _ _ _ _) = SyscallId.sock_accept
  syscall_id (sock_recv _ _ _ _ _ _) = SyscallId.sock_recv
  syscall_id (sock_send _ _ _ _ _) = SyscallId.sock_send
  syscall_id (sock_shutdown _ _ _) = SyscallId.sock_shutdown
  syscall_id (sock_open _ _ _ _ _ _ _) = SyscallId.sock_open
  syscall_id (sock_bind _ _ _ _) = SyscallId.sock_bind
  syscall_id (sock_connect _ _ _ _) = SyscallId.sock_connect
  syscall_id (sock_listen _ _ _) = SyscallId.sock_listen
  syscall_id (sock_send_to _ _ _ _ _ _) = SyscallId.sock_send_to
  syscall_id (sock_recv_from _ _ _ _ _ _ _) = SyscallId.sock_recv_from
  syscall_id (sock_get_opt _ _ _ _) = SyscallId.sock_get_opt
  syscall_id (sock_set_opt _ _ _ _) = SyscallId.sock_set_opt
  syscall_id (sock_local_address _ _ _) = SyscallId.sock_local_address
  syscall_id (sock_remote_address _ _ _) = SyscallId.sock_remote_address
  syscall_id (sock_address_info _ _ _ _ _) = SyscallId.sock_address_info

  -- The method Error.
  unfoldable pub syscall_errno : Syscall → Errno
  syscall_errno (args_sizes_get _ _ errno) = errno
  syscall_errno (args_get _ errno) = errno
  syscall_errno (environ_sizes_get _ _ errno) = errno
  syscall_errno (environ_get _ errno) = errno
  syscall_errno (clock_res_get _ _ errno) = errno
  syscall_errno (clock_time_get _ _ _ errno) = errno
  syscall_errno (fd_advise _ _ _ _ errno) = errno
  syscall_errno (fd_allocate _ _ _ errno) = errno
  syscall_errno (fd_close _ errno) = errno
  syscall_errno (fd_data_sync _ errno) = errno
  syscall_errno (fd_stat_get _ _ errno) = errno
  syscall_errno (fd_stat_set_flags _ _ errno) = errno
  syscall_errno (fd_stat_set_rights _ _ _ errno) = errno
  syscall_errno (fd_file_stat_get _ _ errno) = errno
  syscall_errno (fd_file_stat_set_size _ _ errno) = errno
  syscall_errno (fd_file_stat_set_times _ _ _ _ errno) = errno
  syscall_errno (fd_pread _ _ _ _ errno) = errno
  syscall_errno (fd_pre_stat_get _ _ errno) = errno
  syscall_errno (fd_pre_stat_dir_name _ _ errno) = errno
  syscall_errno (fd_pwrite _ _ _ _ errno) = errno
  syscall_errno (fd_read _ _ _ errno) = errno
  syscall_errno (fd_read_dir _ _ _ _ errno) = errno
  syscall_errno (fd_renumber _ _ errno) = errno
  syscall_errno (fd_seek _ _ _ _ errno) = errno
  syscall_errno (fd_sync _ errno) = errno
  syscall_errno (fd_tell _ _ errno) = errno
  syscall_errno (fd_write _ _ _ errno) = errno
  syscall_errno (path_create_directory _ _ errno) = errno
  syscall_errno (path_file_stat_get _ _ _ _ errno) = errno
  syscall_errno (path_file_stat_set_times _ _ _ _ _ _ errno) = errno
  syscall_errno (path_link _ _ _ _ _ errno) = errno
  syscall_errno (path_open _ _ _ _ _ _ _ _ errno) = errno
  syscall_errno (path_read_link _ _ _ errno) = errno
  syscall_errno (path_remove_directory _ _ errno) = errno
  syscall_errno (path_rename _ _ _ _ errno) = errno
  syscall_errno (path_symlink _ _ _ errno) = errno
  syscall_errno (path_unlink_file _ _ errno) = errno
  syscall_errno (poll_one_off _ _ errno) = errno
  syscall_errno (proc_exit _ errno) = errno
  syscall_errno (proc_raise _ errno) = errno
  syscall_errno (sched_yield errno) = errno
  syscall_errno (random_get _ errno) = errno
  syscall_errno (sock_accept _ _ _ _ _ errno) = errno
  syscall_errno (sock_recv _ _ _ _ _ errno) = errno
  syscall_errno (sock_send _ _ _ _ errno) = errno
  syscall_errno (sock_shutdown _ _ errno) = errno
  syscall_errno (sock_open _ _ _ _ _ _ errno) = errno
  syscall_errno (sock_bind _ _ _ errno) = errno
  syscall_errno (sock_connect _ _ _ errno) = errno
  syscall_errno (sock_listen _ _ errno) = errno
  syscall_errno (sock_send_to _ _ _ _ _ errno) = errno
  syscall_errno (sock_recv_from _ _ _ _ _ _ errno) = errno
  syscall_errno (sock_get_opt _ _ _ errno) = errno
  syscall_errno (sock_set_opt _ _ _ errno) = errno
  syscall_errno (sock_local_address _ _ errno) = errno
  syscall_errno (sock_remote_address _ _ errno) = errno
  syscall_errno (sock_address_info _ _ _ _ errno) = errno
