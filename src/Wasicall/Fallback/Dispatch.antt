-- ===== src/Wasicall/Fallback/Dispatch.antt =====
-- The fallback as a system: each call goes to its method.
use timecraft.Common.{length}
use timecraft.Wasicall.Fallback.Env.{
  fallback_args_get, fallback_args_sizes_get, fallback_clock_res_get, fallback_clock_time_get,
  fallback_environ_get, fallback_environ_sizes_get,
}
use timecraft.Wasicall.Fallback.File.{
  fallback_fd_advise, fallback_fd_allocate, fallback_fd_close, fallback_fd_data_sync,
  fallback_fd_file_stat_get, fallback_fd_file_stat_set_size, fallback_fd_file_stat_set_times,
  fallback_fd_pre_stat_dir_name, fallback_fd_pre_stat_get, fallback_fd_stat_get,
  fallback_fd_stat_set_flags, fallback_fd_stat_set_rights,
}
use timecraft.Wasicall.Fallback.Io.{
  fallback_fd_pread, fallback_fd_pwrite, fallback_fd_read, fallback_fd_read_dir,
  fallback_fd_renumber, fallback_fd_seek, fallback_fd_sync, fallback_fd_tell, fallback_fd_write,
}
use timecraft.Wasicall.Fallback.Paths.{
  fallback_path_create_directory, fallback_path_file_stat_get, fallback_path_file_stat_set_times,
  fallback_path_link, fallback_path_open, fallback_path_read_link, fallback_path_remove_directory,
  fallback_path_rename, fallback_path_symlink, fallback_path_unlink_file,
}
use timecraft.Wasicall.Fallback.Process.{
  fallback_poll_one_off, fallback_proc_exit, fallback_proc_raise, fallback_random_get,
  fallback_sched_yield,
}
use timecraft.Wasicall.Fallback.Sock.{
  fallback_sock_accept, fallback_sock_bind, fallback_sock_connect, fallback_sock_listen,
  fallback_sock_open, fallback_sock_recv, fallback_sock_recv_from, fallback_sock_send,
  fallback_sock_send_to, fallback_sock_shutdown,
}
use timecraft.Wasicall.Fallback.SockInfo.{
  fallback_sock_address_info, fallback_sock_get_opt, fallback_sock_local_address,
  fallback_sock_remote_address, fallback_sock_set_opt,
}
use timecraft.Wasicall.System.Request.{Request, System}
use timecraft.Wasicall.Wasi.{Wasi}

module _ ⦃w : Wasi⦄ {Fault S T : Type 0} where
  unfoldable pub fallback : System Fault S → System Fault T → System Fault (S × T)
  fallback primary secondary Request.args_sizes_get s = fallback_args_sizes_get primary secondary s
  fallback primary secondary Request.args_get s = fallback_args_get primary secondary s
  fallback primary secondary Request.environ_sizes_get s =
      fallback_environ_sizes_get primary secondary s
  fallback primary secondary Request.environ_get s = fallback_environ_get primary secondary s
  fallback primary secondary (Request.clock_res_get id) s =
      fallback_clock_res_get primary secondary id s
  fallback primary secondary (Request.clock_time_get id precision) s =
      fallback_clock_time_get primary secondary id precision s
  fallback primary secondary (Request.fd_advise fd offset length advice) s =
      fallback_fd_advise primary secondary fd offset length advice s
  fallback primary secondary (Request.fd_allocate fd offset length) s =
      fallback_fd_allocate primary secondary fd offset length s
  fallback primary secondary (Request.fd_close fd) s = fallback_fd_close primary secondary fd s
  fallback primary secondary (Request.fd_data_sync fd) s =
      fallback_fd_data_sync primary secondary fd s
  fallback primary secondary (Request.fd_stat_get fd) s =
      fallback_fd_stat_get primary secondary fd s
  fallback primary secondary (Request.fd_stat_set_flags fd flags) s =
      fallback_fd_stat_set_flags primary secondary fd flags s
  fallback primary secondary (Request.fd_stat_set_rights fd rights_base rights_inheriting) s =
      fallback_fd_stat_set_rights primary secondary fd rights_base rights_inheriting s
  fallback primary secondary (Request.fd_file_stat_get fd) s =
      fallback_fd_file_stat_get primary secondary fd s
  fallback primary secondary (Request.fd_file_stat_set_size fd size) s =
      fallback_fd_file_stat_set_size primary secondary fd size s
  fallback primary secondary (Request.fd_file_stat_set_times fd access_time modify_time flags) s =
      fallback_fd_file_stat_set_times primary secondary fd access_time modify_time flags s
  fallback primary secondary (Request.fd_pread fd iovecs offset) s =
      fallback_fd_pread primary secondary fd iovecs offset s
  fallback primary secondary (Request.fd_pre_stat_get fd) s =
      fallback_fd_pre_stat_get primary secondary fd s
  fallback primary secondary (Request.fd_pre_stat_dir_name fd) s =
      fallback_fd_pre_stat_dir_name primary secondary fd s
  fallback primary secondary (Request.fd_pwrite fd iovecs offset) s =
      fallback_fd_pwrite primary secondary fd iovecs offset s
  fallback primary secondary (Request.fd_read fd iovecs) s =
      fallback_fd_read primary secondary fd iovecs s
  fallback primary secondary (Request.fd_read_dir fd entries cookie buffer_size_bytes) s =
      fallback_fd_read_dir primary secondary fd entries cookie buffer_size_bytes s
  fallback primary secondary (Request.fd_renumber from to) s =
      fallback_fd_renumber primary secondary from to s
  fallback primary secondary (Request.fd_seek fd offset whence) s =
      fallback_fd_seek primary secondary fd offset whence s
  fallback primary secondary (Request.fd_sync fd) s = fallback_fd_sync primary secondary fd s
  fallback primary secondary (Request.fd_tell fd) s = fallback_fd_tell primary secondary fd s
  fallback primary secondary (Request.fd_write fd iovecs) s =
      fallback_fd_write primary secondary fd iovecs s
  fallback primary secondary (Request.path_create_directory fd path) s =
      fallback_path_create_directory primary secondary fd path s
  fallback primary secondary (Request.path_file_stat_get fd lookup_flags path) s =
      fallback_path_file_stat_get primary secondary fd lookup_flags path s
  fallback primary secondary
        (Request.path_file_stat_set_times fd lookup_flags path access_time modify_time flags) s =
      fallback_path_file_stat_set_times primary secondary fd lookup_flags path access_time
        modify_time flags s
  fallback primary secondary (Request.path_link old_fd old_flags old_path new_fd new_path) s =
      fallback_path_link primary secondary old_fd old_flags old_path new_fd new_path s
  fallback primary secondary
        (Request.path_open fd dir_flags path open_flags rights_base rights_inheriting fd_flags) s =
      fallback_path_open primary secondary fd dir_flags path open_flags rights_base
        rights_inheriting fd_flags s
  fallback primary secondary (Request.path_read_link fd path buffer) s =
      fallback_path_read_link primary secondary fd path buffer s
  fallback primary secondary (Request.path_remove_directory fd path) s =
      fallback_path_remove_directory primary secondary fd path s
  fallback primary secondary (Request.path_rename fd old_path new_fd new_path) s =
      fallback_path_rename primary secondary fd old_path new_fd new_path s
  fallback primary secondary (Request.path_symlink old_path fd new_path) s =
      fallback_path_symlink primary secondary old_path fd new_path s
  fallback primary secondary (Request.path_unlink_file fd path) s =
      fallback_path_unlink_file primary secondary fd path s
  fallback primary secondary (Request.poll_one_off subscriptions events) s =
      fallback_poll_one_off primary secondary subscriptions events s
  fallback primary secondary (Request.proc_exit exit_code) s =
      fallback_proc_exit primary secondary exit_code s
  fallback primary secondary (Request.proc_raise signal) s =
      fallback_proc_raise primary secondary signal s
  fallback primary secondary Request.sched_yield s = fallback_sched_yield primary secondary s
  fallback primary secondary (Request.random_get buffer) s =
      fallback_random_get primary secondary buffer s
  fallback primary secondary (Request.sock_accept fd flags) s =
      fallback_sock_accept primary secondary fd flags s
  fallback primary secondary (Request.sock_recv fd iovecs iflags) s =
      fallback_sock_recv primary secondary fd iovecs iflags s
  fallback primary secondary (Request.sock_send fd iovecs iflags) s =
      fallback_sock_send primary secondary fd iovecs iflags s
  fallback primary secondary (Request.sock_shutdown fd flags) s =
      fallback_sock_shutdown primary secondary fd flags s
  fallback primary secondary
        (Request.sock_open protocol_family socket_type protocol rights_base rights_inheriting) s =
      fallback_sock_open primary secondary protocol_family socket_type protocol rights_base
        rights_inheriting s
  fallback primary secondary (Request.sock_bind fd bind) s =
      fallback_sock_bind primary secondary fd bind s
  fallback primary secondary (Request.sock_connect fd peer) s =
      fallback_sock_connect primary secondary fd peer s
  fallback primary secondary (Request.sock_listen fd backlog) s =
      fallback_sock_listen primary secondary fd backlog s
  fallback primary secondary (Request.sock_send_to fd iovecs iflags addr) s =
      fallback_sock_send_to primary secondary fd iovecs iflags addr s
  fallback primary secondary (Request.sock_recv_from fd iovecs iflags) s =
      fallback_sock_recv_from primary secondary fd iovecs iflags s
  fallback primary secondary (Request.sock_get_opt fd option) s =
      fallback_sock_get_opt primary secondary fd option s
  fallback primary secondary (Request.sock_set_opt fd option value) s =
      fallback_sock_set_opt primary secondary fd option value s
  fallback primary secondary (Request.sock_local_address fd) s =
      fallback_sock_local_address primary secondary fd s
  fallback primary secondary (Request.sock_remote_address fd) s =
      fallback_sock_remote_address primary secondary fd s
  fallback primary secondary (Request.sock_address_info name service hints buffer) s =
      fallback_sock_address_info primary secondary name service hints buffer s
