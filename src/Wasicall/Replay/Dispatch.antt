-- ===== src/Wasicall/Replay/Dispatch.antt =====
-- Replay as a system: each call goes to its method.
use timecraft.Common.{Bool, List, length, ℕ}
use timecraft.Wasicall.Replay.Env.{
  replay_args_get, replay_args_sizes_get, replay_clock_res_get, replay_clock_time_get,
  replay_environ_get, replay_environ_sizes_get,
}
use timecraft.Wasicall.Replay.File.{
  replay_fd_advise, replay_fd_allocate, replay_fd_close, replay_fd_data_sync,
  replay_fd_file_stat_get, replay_fd_file_stat_set_size, replay_fd_file_stat_set_times,
  replay_fd_pre_stat_dir_name, replay_fd_pre_stat_get, replay_fd_stat_get, replay_fd_stat_set_flags,
  replay_fd_stat_set_rights,
}
use timecraft.Wasicall.Replay.Io.{
  replay_fd_pread, replay_fd_pwrite, replay_fd_read, replay_fd_read_dir, replay_fd_renumber,
  replay_fd_seek, replay_fd_sync, replay_fd_tell, replay_fd_write,
}
use timecraft.Wasicall.Replay.Paths.{
  replay_path_create_directory, replay_path_file_stat_get, replay_path_file_stat_set_times,
  replay_path_link, replay_path_open, replay_path_read_link, replay_path_remove_directory,
  replay_path_rename, replay_path_symlink, replay_path_unlink_file,
}
use timecraft.Wasicall.Replay.Process.{
  replay_poll_one_off, replay_proc_exit, replay_proc_raise, replay_random_get, replay_sched_yield,
}
use timecraft.Wasicall.Replay.Sock.{
  replay_sock_accept, replay_sock_bind, replay_sock_connect, replay_sock_listen, replay_sock_open,
  replay_sock_recv, replay_sock_recv_from, replay_sock_send, replay_sock_send_to,
  replay_sock_shutdown,
}
use timecraft.Wasicall.Replay.SockInfo.{
  replay_sock_address_info, replay_sock_get_opt, replay_sock_local_address,
  replay_sock_remote_address, replay_sock_set_opt,
}
use timecraft.Wasicall.Replay.State.{Replay}
use timecraft.Wasicall.System.Request.{Request, System}
use timecraft.Wasicall.Wasi.{Wasi}

module _ ⦃w : Wasi⦄ {Time Fault W : Type 0} (write : W → List ℕ → W × Bool) where
  unfoldable pub replay : System Fault (Replay Time Fault W)
  replay Request.args_sizes_get r = replay_args_sizes_get r
  replay Request.args_get r = replay_args_get r
  replay Request.environ_sizes_get r = replay_environ_sizes_get r
  replay Request.environ_get r = replay_environ_get r
  replay (Request.clock_res_get id) r = replay_clock_res_get id r
  replay (Request.clock_time_get id precision) r = replay_clock_time_get id precision r
  replay (Request.fd_advise fd offset length advice) r = replay_fd_advise fd offset length advice r
  replay (Request.fd_allocate fd offset length) r = replay_fd_allocate fd offset length r
  replay (Request.fd_close fd) r = replay_fd_close fd r
  replay (Request.fd_data_sync fd) r = replay_fd_data_sync fd r
  replay (Request.fd_stat_get fd) r = replay_fd_stat_get fd r
  replay (Request.fd_stat_set_flags fd flags) r = replay_fd_stat_set_flags fd flags r
  replay (Request.fd_stat_set_rights fd rights_base rights_inheriting) r =
      replay_fd_stat_set_rights fd rights_base rights_inheriting r
  replay (Request.fd_file_stat_get fd) r = replay_fd_file_stat_get fd r
  replay (Request.fd_file_stat_set_size fd size) r = replay_fd_file_stat_set_size fd size r
  replay (Request.fd_file_stat_set_times fd access_time modify_time flags) r =
      replay_fd_file_stat_set_times fd access_time modify_time flags r
  replay (Request.fd_pread fd iovecs offset) r = replay_fd_pread fd iovecs offset r
  replay (Request.fd_pre_stat_get fd) r = replay_fd_pre_stat_get fd r
  replay (Request.fd_pre_stat_dir_name fd) r = replay_fd_pre_stat_dir_name fd r
  replay (Request.fd_pwrite fd iovecs offset) r = replay_fd_pwrite fd iovecs offset r
  replay (Request.fd_read fd iovecs) r = replay_fd_read fd iovecs r
  replay (Request.fd_read_dir fd entries cookie buffer_size_bytes) r =
      replay_fd_read_dir fd entries cookie buffer_size_bytes r
  replay (Request.fd_renumber from to) r = replay_fd_renumber from to r
  replay (Request.fd_seek fd offset whence) r = replay_fd_seek fd offset whence r
  replay (Request.fd_sync fd) r = replay_fd_sync fd r
  replay (Request.fd_tell fd) r = replay_fd_tell fd r
  replay (Request.fd_write fd iovecs) r = replay_fd_write write fd iovecs r
  replay (Request.path_create_directory fd path) r = replay_path_create_directory fd path r
  replay (Request.path_file_stat_get fd lookup_flags path) r =
      replay_path_file_stat_get fd lookup_flags path r
  replay (Request.path_file_stat_set_times fd lookup_flags path access_time modify_time flags) r =
      replay_path_file_stat_set_times fd lookup_flags path access_time modify_time flags r
  replay (Request.path_link old_fd old_flags old_path new_fd new_path) r =
      replay_path_link old_fd old_flags old_path new_fd new_path r
  replay (Request.path_open fd dir_flags path open_flags rights_base rights_inheriting fd_flags) r =
      replay_path_open fd dir_flags path open_flags rights_base rights_inheriting fd_flags r
  replay (Request.path_read_link fd path buffer) r = replay_path_read_link fd path buffer r
  replay (Request.path_remove_directory fd path) r = replay_path_remove_directory fd path r
  replay (Request.path_rename fd old_path new_fd new_path) r =
      replay_path_rename fd old_path new_fd new_path r
  replay (Request.path_symlink old_path fd new_path) r = replay_path_symlink old_path fd new_path r
  replay (Request.path_unlink_file fd path) r = replay_path_unlink_file fd path r
  replay (Request.poll_one_off subscriptions events) r = replay_poll_one_off subscriptions events r
  replay (Request.proc_exit exit_code) r = replay_proc_exit exit_code r
  replay (Request.proc_raise signal) r = replay_proc_raise signal r
  replay Request.sched_yield r = replay_sched_yield r
  replay (Request.random_get buffer) r = replay_random_get buffer r
  replay (Request.sock_accept fd flags) r = replay_sock_accept fd flags r
  replay (Request.sock_recv fd iovecs iflags) r = replay_sock_recv fd iovecs iflags r
  replay (Request.sock_send fd iovecs iflags) r = replay_sock_send fd iovecs iflags r
  replay (Request.sock_shutdown fd flags) r = replay_sock_shutdown fd flags r
  replay (Request.sock_open protocol_family socket_type protocol rights_base rights_inheriting) r =
      replay_sock_open protocol_family socket_type protocol rights_base rights_inheriting r
  replay (Request.sock_bind fd bind) r = replay_sock_bind fd bind r
  replay (Request.sock_connect fd peer) r = replay_sock_connect fd peer r
  replay (Request.sock_listen fd backlog) r = replay_sock_listen fd backlog r
  replay (Request.sock_send_to fd iovecs iflags addr) r =
      replay_sock_send_to fd iovecs iflags addr r
  replay (Request.sock_recv_from fd iovecs iflags) r = replay_sock_recv_from fd iovecs iflags r
  replay (Request.sock_get_opt fd option) r = replay_sock_get_opt fd option r
  replay (Request.sock_set_opt fd option value) r = replay_sock_set_opt fd option value r
  replay (Request.sock_local_address fd) r = replay_sock_local_address fd r
  replay (Request.sock_remote_address fd) r = replay_sock_remote_address fd r
  replay (Request.sock_address_info name service hints buffer) r =
      replay_sock_address_info name service hints buffer r
