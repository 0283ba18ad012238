-- ===== src/Wasicall/Recorder/Dispatch.antt =====
-- The recorder as a system: each call goes to its method.
use timecraft.Common.{List, length, ℕ}
use timecraft.Wasicall.Recorder.Env.{
  recorder_args_get, recorder_args_sizes_get, recorder_clock_res_get, recorder_clock_time_get,
  recorder_environ_get, recorder_environ_sizes_get,
}
use timecraft.Wasicall.Recorder.File.{
  recorder_fd_advise, recorder_fd_allocate, recorder_fd_close, recorder_fd_data_sync,
  recorder_fd_file_stat_get, recorder_fd_file_stat_set_size, recorder_fd_file_stat_set_times,
  recorder_fd_pre_stat_dir_name, recorder_fd_pre_stat_get, recorder_fd_stat_get,
  recorder_fd_stat_set_flags, recorder_fd_stat_set_rights,
}
use timecraft.Wasicall.Recorder.Io.{
  recorder_fd_pread, recorder_fd_pwrite, recorder_fd_read, recorder_fd_read_dir,
  recorder_fd_renumber, recorder_fd_seek, recorder_fd_sync, recorder_fd_tell, recorder_fd_write,
}
use timecraft.Wasicall.Recorder.Paths.{
  recorder_path_create_directory, recorder_path_file_stat_get, recorder_path_file_stat_set_times,
  recorder_path_link, recorder_path_open, recorder_path_read_link, recorder_path_remove_directory,
  recorder_path_rename, recorder_path_symlink, recorder_path_unlink_file,
}
use timecraft.Wasicall.Recorder.Process.{
  recorder_poll_one_off, recorder_proc_exit, recorder_proc_raise, recorder_random_get,
  recorder_sched_yield,
}
use timecraft.Wasicall.Recorder.Sock.{
  recorder_sock_accept, recorder_sock_bind, recorder_sock_connect, recorder_sock_listen,
  recorder_sock_open, recorder_sock_recv, recorder_sock_recv_from, recorder_sock_send,
  recorder_sock_send_to, recorder_sock_shutdown,
}
use timecraft.Wasicall.Recorder.SockInfo.{
  recorder_sock_address_info, recorder_sock_get_opt, recorder_sock_local_address,
  recorder_sock_remote_address, recorder_sock_set_opt,
}
use timecraft.Wasicall.Syscall.Ids.{SyscallId}
use timecraft.Wasicall.System.Request.{Request, System}
use timecraft.Wasicall.Wasi.{Wasi}

module _ ⦃w : Wasi⦄ {Fault S T : Type 0} where
  unfoldable pub recorder : System Fault S → (SyscallId → List ℕ → T → T) → System Fault (S × T)
  recorder system write Request.args_sizes_get s = recorder_args_sizes_get system write s
  recorder system write Request.args_get s = recorder_args_get system write s
  recorder system write Request.environ_sizes_get s = recorder_environ_sizes_get system write s
  recorder system write Request.environ_get s = recorder_environ_get system write s
  recorder system write (Request.clock_res_get id) s = recorder_clock_res_get system write id s
  recorder system write (Request.clock_time_get id precision) s =
      recorder_clock_time_get system write id precision s
  recorder system write (Request.fd_advise fd offset length advice) s =
      recorder_fd_advise system write fd offset length advice s
  recorder system write (Request.fd_allocate fd offset length) s =
      recorder_fd_allocate system write fd offset length s
  recorder system write (Request.fd_close fd) s = recorder_fd_close system write fd s
  recorder system write (Request.fd_data_sync fd) s = recorder_fd_data_sync system write fd s
  recorder system write (Request.fd_stat_get fd) s = recorder_fd_stat_get system write fd s
  recorder system write (Request.fd_stat_set_flags fd flags) s =
      recorder_fd_stat_set_flags system write fd flags s
  recorder system write (Request.fd_stat_set_rights fd rights_base rights_inheriting) s =
      recorder_fd_stat_set_rights system write fd rights_base rights_inheriting s
  recorder system write (Request.fd_file_stat_get fd) s =
      recorder_fd_file_stat_get system write fd s
  recorder system write (Request.fd_file_stat_set_size fd size) s =
      recorder_fd_file_stat_set_size system write fd size s
  recorder system write (Request.fd_file_stat_set_times fd access_time modify_time flags) s =
      recorder_fd_file_stat_set_times system write fd access_time modify_time flags s
  recorder system write (Request.fd_pread fd iovecs offset) s =
      recorder_fd_pread system write fd iovecs offset s
  recorder system write (Request.fd_pre_stat_get fd) s = recorder_fd_pre_stat_get system write fd s
  recorder system write (Request.fd_pre_stat_dir_name fd) s =
      recorder_fd_pre_stat_dir_name system write fd s
  recorder system write (Request.fd_pwrite fd iovecs offset) s =
      recorder_fd_pwrite system write fd iovecs offset s
  recorder system write (Request.fd_read fd iovecs) s = recorder_fd_read system write fd iovecs s
  recorder system write (Request.fd_read_dir fd entries cookie buffer_size_bytes) s =
      recorder_fd_read_dir system write fd entries cookie buffer_size_bytes s
  recorder system write (Request.fd_renumber from to) s =
      recorder_fd_renumber system write from to s
  recorder system write (Request.fd_seek fd offset whence) s =
      recorder_fd_seek system write fd offset whence s
  recorder system write (Request.fd_sync fd) s = recorder_fd_sync system write fd s
  recorder system write (Request.fd_tell fd) s = recorder_fd_tell system write fd s
  recorder system write (Request.fd_write fd iovecs) s = recorder_fd_write system write fd iovecs s
  recorder system write (Request.path_create_directory fd path) s =
      recorder_path_create_directory system write fd path s
  recorder system write (Request.path_file_stat_get fd lookup_flags path) s =
      recorder_path_file_stat_get system write fd lookup_flags path s
  recorder system write
        (Request.path_file_stat_set_times fd lookup_flags path access_time modify_time flags) s =
      recorder_path_file_stat_set_times system write fd lookup_flags path access_time modify_time
        flags s
  recorder system write (Request.path_link old_fd old_flags old_path new_fd new_path) s =
      recorder_path_link system write old_fd old_flags old_path new_fd new_path s
  recorder system write
        (Request.path_open fd dir_flags path open_flags rights_base rights_inheriting fd_flags) s =
      recorder_path_open system write fd dir_flags path open_flags rights_base rights_inheriting
        fd_flags s
  recorder system write (Request.path_read_link fd path buffer) s =
      recorder_path_read_link system write fd path buffer s
  recorder system write (Request.path_remove_directory fd path) s =
      recorder_path_remove_directory system write fd path s
  recorder system write (Request.path_rename fd old_path new_fd new_path) s =
      recorder_path_rename system write fd old_path new_fd new_path s
  recorder system write (Request.path_symlink old_path fd new_path) s =
      recorder_path_symlink system write old_path fd new_path s
  recorder system write (Request.path_unlink_file fd path) s =
      recorder_path_unlink_file system write fd path s
  recorder system write (Request.poll_one_off subscriptions events) s =
      recorder_poll_one_off system write subscriptions events s
  recorder system write (Request.proc_exit exit_code) s =
      recorder_proc_exit system write exit_code s
  recorder system write (Request.proc_raise signal) s = recorder_proc_raise system write signal s
  recorder system write Request.sched_yield s = recorder_sched_yield system write s
  recorder system write (Request.random_get buffer) s = recorder_random_get system write buffer s
  recorder system write (Request.sock_accept fd flags) s =
      recorder_sock_accept system write fd flags s
  recorder system write (Request.sock_recv fd iovecs iflags) s =
      recorder_sock_recv system write fd iovecs iflags s
  recorder system write (Request.sock_send fd iovecs iflags) s =
      recorder_sock_send system write fd iovecs iflags s
  recorder system write (Request.sock_shutdown fd flags) s =
      recorder_sock_shutdown system write fd flags s
  recorder system write
        (Request.sock_open protocol_family socket_type protocol rights_base rights_inheriting) s =
      recorder_sock_open system write protocol_family socket_type protocol rights_base
        rights_inheriting s
  recorder system write (Request.sock_bind fd bind) s = recorder_sock_bind system write fd bind s
  recorder system write (Request.sock_connect fd peer) s =
      recorder_sock_connect system write fd peer s
  recorder system write (Request.sock_listen fd backlog) s =
      recorder_sock_listen system write fd backlog s
  recorder system write (Request.sock_send_to fd iovecs iflags addr) s =
      recorder_sock_send_to system write fd iovecs iflags addr s
  recorder system write (Request.sock_recv_from fd iovecs iflags) s =
      recorder_sock_recv_from system write fd iovecs iflags s
  recorder system write (Request.sock_get_opt fd option) s =
      recorder_sock_get_opt system write fd option s
  recorder system write (Request.sock_set_opt fd option value) s =
      recorder_sock_set_opt system write fd option value s
  recorder system write (Request.sock_local_address fd) s =
      recorder_sock_local_address system write fd s
  recorder system write (Request.sock_remote_address fd) s =
      recorder_sock_remote_address system write fd s
  recorder system write (Request.sock_address_info name service hints buffer) s =
      recorder_sock_address_info system write name service hints buffer s
