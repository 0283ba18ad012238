-- ===== src/Wasicall/Errno.antt =====
-- internal/timemachine/wasicall/errno.go: a system that answers every call with one errno.
use timecraft.Common.{[]}
use timecraft.Common.Int.{pos}
use timecraft.Common.Result.{ok}
use timecraft.Wasicall.Sockets.{no_address, no_value}
use timecraft.Wasicall.System.{none_fd, zero_fd_stat, zero_file_stat, zero_of, zero_pre_stat}
use timecraft.Wasicall.System.Request.{Request, System}
use timecraft.Wasicall.Wasi.{Errno, Wasi}

module _ ⦃w : Wasi⦄ {Fault S : Type 0} where
  unfoldable pub errno_system : Errno → System Fault S
  errno_system e Request.args_sizes_get s = (ok (pos 0, pos 0, e), s)
  errno_system e Request.args_get s = (ok ([], e), s)
  errno_system e Request.environ_sizes_get s = (ok (pos 0, pos 0, e), s)
  errno_system e Request.environ_get s = (ok ([], e), s)
  errno_system e (Request.clock_res_get _) s = (ok (zero_of w.timestamp, e), s)
  errno_system e (Request.clock_time_get _ _) s = (ok (zero_of w.timestamp, e), s)
  errno_system e (Request.fd_advise _ _ _ _) s = (ok e, s)
  errno_system e (Request.fd_allocate _ _ _) s = (ok e, s)
  errno_system e (Request.fd_close _) s = (ok e, s)
  errno_system e (Request.fd_data_sync _) s = (ok e, s)
  errno_system e (Request.fd_stat_get _) s = (ok (zero_fd_stat, e), s)
  errno_system e (Request.fd_stat_set_flags _ _) s = (ok e, s)
  errno_system e (Request.fd_stat_set_rights _ _ _) s = (ok e, s)
  errno_system e (Request.fd_file_stat_get _) s = (ok (zero_file_stat, e), s)
  errno_system e (Request.fd_file_stat_set_size _ _) s = (ok e, s)
  errno_system e (Request.fd_file_stat_set_times _ _ _ _) s = (ok e, s)
  errno_system e (Request.fd_pread _ iovecs _) s = (ok (iovecs, 0, e), s)
  errno_system e (Request.fd_pre_stat_get _) s = (ok (zero_pre_stat, e), s)
  errno_system e (Request.fd_pre_stat_dir_name _) s = (ok ([], e), s)
  errno_system e (Request.fd_pwrite _ _ _) s = (ok (0, e), s)
  errno_system e (Request.fd_read _ iovecs) s = (ok (iovecs, 0, e), s)
  errno_system e (Request.fd_read_dir _ entries _ _) s = (ok (entries, pos 0, e), s)
  errno_system e (Request.fd_renumber _ _) s = (ok e, s)
  errno_system e (Request.fd_seek _ _ _) s = (ok (zero_of w.file_size, e), s)
  errno_system e (Request.fd_sync _) s = (ok e, s)
  errno_system e (Request.fd_tell _) s = (ok (zero_of w.file_size, e), s)
  errno_system e (Request.fd_write _ _) s = (ok (0, e), s)
  errno_system e (Request.path_create_directory _ _) s = (ok e, s)
  errno_system e (Request.path_file_stat_get _ _ _) s = (ok (zero_file_stat, e), s)
  errno_system e (Request.path_file_stat_set_times _ _ _ _ _ _) s = (ok e, s)
  errno_system e (Request.path_link _ _ _ _ _) s = (ok e, s)
  errno_system e (Request.path_open _ _ _ _ _ _ _) s = (ok (none_fd, e), s)
  errno_system e (Request.path_read_link _ _ buffer) s = (ok (buffer, pos 0, e), s)
  errno_system e (Request.path_remove_directory _ _) s = (ok e, s)
  errno_system e (Request.path_rename _ _ _ _) s = (ok e, s)
  errno_system e (Request.path_symlink _ _ _) s = (ok e, s)
  errno_system e (Request.path_unlink_file _ _) s = (ok e, s)
  errno_system e (Request.poll_one_off _ events) s = (ok (events, pos 0, e), s)
  errno_system e (Request.proc_exit _) s = (ok e, s)
  errno_system e (Request.proc_raise _) s = (ok e, s)
  errno_system e Request.sched_yield s = (ok e, s)
  errno_system e (Request.random_get b) s = (ok (b, e), s)
  errno_system e (Request.sock_accept _ _) s = (ok (none_fd, no_address, no_address, e), s)
  errno_system e (Request.sock_recv _ iovecs _) s = (ok (iovecs, 0, zero_of w.ro_flags, e), s)
  errno_system e (Request.sock_send _ _ _) s = (ok (0, e), s)
  errno_system e (Request.sock_shutdown _ _) s = (ok e, s)
  errno_system e (Request.sock_open _ _ _ _ _) s = (ok (none_fd, e), s)
  errno_system e (Request.sock_bind _ _) s = (ok (no_address, e), s)
  errno_system e (Request.sock_connect _ _) s = (ok (no_address, e), s)
  errno_system e (Request.sock_listen _ _) s = (ok e, s)
  errno_system e (Request.sock_send_to _ _ _ _) s = (ok (0, e), s)
  errno_system e (Request.sock_recv_from _ iovecs _) s =
      (ok (iovecs, 0, zero_of w.ro_flags, no_address, e), s)
  errno_system e (Request.sock_get_opt _ _) s = (ok (no_value, e), s)
  errno_system e (Request.sock_set_opt _ _ _) s = (ok e, s)
  errno_system e (Request.sock_local_address _) s = (ok (no_address, e), s)
  errno_system e (Request.sock_remote_address _) s = (ok (no_address, e), s)
  errno_system e (Request.sock_address_info _ _ _ results) s = (ok (results, pos 0, e), s)
