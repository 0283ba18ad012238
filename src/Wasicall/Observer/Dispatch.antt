-- ===== src/Wasicall/Observer/Dispatch.antt =====
-- The observer as a system: each call goes to its method.
use timecraft.Common.{Option, length}
use timecraft.Wasicall.Observer.Env.{
  observer_args_get, observer_args_sizes_get, observer_clock_res_get, observer_clock_time_get,
  observer_environ_get, observer_environ_sizes_get,
}
use timecraft.Wasicall.Observer.File.{
  observer_fd_advise, observer_fd_allocate, observer_fd_close, observer_fd_data_sync,
  observer_fd_file_stat_get, observer_fd_file_stat_set_size, observer_fd_file_stat_set_times,
  observer_fd_pre_stat_dir_name, observer_fd_pre_stat_get, observer_fd_stat_get,
  observer_fd_stat_set_flags, observer_fd_stat_set_rights,
}
use timecraft.Wasicall.Observer.Io.{
  observer_fd_pread, observer_fd_pwrite, observer_fd_read, observer_fd_read_dir,
  observer_fd_renumber, observer_fd_seek, observer_fd_sync, observer_fd_tell, observer_fd_write,
}
use timecraft.Wasicall.Observer.Paths.{
  observer_path_create_directory, observer_path_file_stat_get, observer_path_file_stat_set_times,
  observer_path_link, observer_path_open, observer_path_read_link, observer_path_remove_directory,
  observer_path_rename, observer_path_symlink, observer_path_unlink_file,
}
use timecraft.Wasicall.Observer.Process.{
  observer_poll_one_off, observer_proc_exit, observer_proc_raise, observer_random_get,
  observer_sched_yield,
}
use timecraft.Wasicall.Observer.Sock.{
  observer_sock_accept, observer_sock_bind, observer_sock_connect, observer_sock_listen,
  observer_sock_open, observer_sock_recv, observer_sock_recv_from, observer_sock_send,
  observer_sock_send_to, observer_sock_shutdown,
}
use timecraft.Wasicall.Observer.SockInfo.{
  observer_sock_address_info, observer_sock_get_opt, observer_sock_local_address,
  observer_sock_remote_address, observer_sock_set_opt,
}
use timecraft.Wasicall.Syscall.Call.{Syscall}
use timecraft.Wasicall.System.Request.{Request, System}
use timecraft.Wasicall.Wasi.{Wasi}

module _ ⦃w : Wasi⦄ {Fault S T : Type 0} where
  unfoldable pub observer :
      System Fault S → Option (Syscall → T → T) → Option (Syscall → T → T) → System Fault (S × T)
  observer system before after Request.args_sizes_get s =
      observer_args_sizes_get system before after s
  observer system before after Request.args_get s = observer_args_get system before after s
  observer system before after Request.environ_sizes_get s =
      observer_environ_sizes_get system before after s
  observer system before after Request.environ_get s = observer_environ_get system before after s
  observer system before after (Request.clock_res_get id) s =
      observer_clock_res_get system before after id s
  observer system before after (Request.clock_time_get id precision) s =
      observer_clock_time_get system before after id precision s
  observer system before after (Request.fd_advise fd offset length advice) s =
      observer_fd_advise system before after fd offset length advice s
  observer system before after (Request.fd_allocate fd offset length) s =
      observer_fd_allocate system before after fd offset length s
  observer system before after (Request.fd_close fd) s = observer_fd_close system before after fd s
  observer system before after (Request.fd_data_sync fd) s =
      observer_fd_data_sync system before after fd s
  observer system before after (Request.fd_stat_get fd) s =
      observer_fd_stat_get system before after fd s
  observer system before after (Request.fd_stat_set_flags fd flags) s =
      observer_fd_stat_set_flags system before after fd flags s
  observer system before after (Request.fd_stat_set_rights fd rights_base rights_inheriting) s =
      observer_fd_stat_set_rights system before after fd rights_base rights_inheriting s
  observer system before after (Request.fd_file_stat_get fd) s =
      observer_fd_file_stat_get system before after fd s
  observer system before after (Request.fd_file_stat_set_size fd size) s =
      observer_fd_file_stat_set_size system before after fd size s
  observer system before after (Request.fd_file_stat_set_times fd access_time modify_time flags) s =
      observer_fd_file_stat_set_times system before after fd access_time modify_time flags s
  observer system before after (Request.fd_pread fd iovecs offset) s =
      observer_fd_pread system before after fd iovecs offset s
  observer system before after (Request.fd_pre_stat_get fd) s =
      observer_fd_pre_stat_get system before after fd s
  observer system before after (Request.fd_pre_stat_dir_name fd) s =
      observer_fd_pre_stat_dir_name system before after fd s
  observer system before after (Request.fd_pwrite fd iovecs offset) s =
      observer_fd_pwrite system before after fd iovecs offset s
  observer system before after (Request.fd_read fd iovecs) s =
      observer_fd_read system before after fd iovecs s
  observer system before after (Request.fd_read_dir fd entries cookie buffer_size_bytes) s =
      observer_fd_read_dir system before after fd entries cookie buffer_size_bytes s
  observer system before after (Request.fd_renumber from to) s =
      observer_fd_renumber system before after from to s
  observer system before after (Request.fd_seek fd offset whence) s =
      observer_fd_seek system before after fd offset whence s
  observer system before after (Request.fd_sync fd) s = observer_fd_sync system before after fd s
  observer system before after (Request.fd_tell fd) s = observer_fd_tell system before after fd s
  observer system before after (Request.fd_write fd iovecs) s =
      observer_fd_write system before after fd iovecs s
  observer system before after (Request.path_create_directory fd path) s =
      observer_path_create_directory system before after fd path s
  observer system before after (Request.path_file_stat_get fd lookup_flags path) s =
      observer_path_file_stat_get system before after fd lookup_flags path s
  observer system before after
        (Request.path_file_stat_set_times fd lookup_flags path access_time modify_time flags) s =
      observer_path_file_stat_set_times system before after fd lookup_flags path access_time
        modify_time flags s
  observer system before after (Request.path_link old_fd old_flags old_path new_fd new_path) s =
      observer_path_link system before after old_fd old_flags old_path new_fd new_path s
  observer system before after
        (Request.path_open fd dir_flags path open_flags rights_base rights_inheriting fd_flags) s =
      observer_path_open system before after fd dir_flags path open_flags rights_base
        rights_inheriting fd_flags s
  observer system before after (Request.path_read_link fd path buffer) s =
      observer_path_read_link system before after fd path buffer s
  observer system before after (Request.path_remove_directory fd path) s =
      observer_path_remove_directory system before after fd path s
  observer system before after (Request.path_rename fd old_path new_fd new_path) s =
      observer_path_rename system before after fd old_path new_fd new_path s
  observer system before after (Request.path_symlink old_path fd new_path) s =
      observer_path_symlink system before after old_path fd new_path s
  observer system before after (Request.path_unlink_file fd path) s =
      observer_path_unlink_file system before after fd path s
  observer system before after (Request.poll_one_off subscriptions events) s =
      observer_poll_one_off system before after subscriptions events s
  observer system before after (Request.proc_exit exit_code) s =
      observer_proc_exit system before after exit_code s
  observer system before after (Request.proc_raise signal) s =
      observer_proc_raise system before after signal s
  observer system before after Request.sched_yield s = observer_sched_yield system before after s
  observer system before after (Request.random_get buffer) s =
      observer_random_get system before after buffer s
  observer system before after (Request.sock_accept fd flags) s =
      observer_sock_accept system before after fd flags s
  observer system before after (Request.sock_recv fd iovecs iflags) s =
      observer_sock_recv system before after fd iovecs iflags s
  observer system before after (Request.sock_send fd iovecs iflags) s =
      observer_sock_send system before after fd iovecs iflags s
  observer system before after (Request.sock_shutdown fd flags) s =
      observer_sock_shutdown system before after fd flags s
  observer system before after
        (Request.sock_open protocol_family socket_type protocol rights_base rights_inheriting) s =
      observer_sock_open system before after protocol_family socket_type protocol rights_base
        rights_inheriting s
  observer system before after (Request.sock_bind fd bind) s =
      observer_sock_bind system before after fd bind s
  observer system before after (Request.sock_connect fd peer) s =
      observer_sock_connect system before after fd peer s
  observer system before after (Request.sock_listen fd backlog) s =
      observer_sock_listen system before after fd backlog s
  observer system before after (Request.sock_send_to fd iovecs iflags addr) s =
      observer_sock_send_to system before after fd iovecs iflags addr s
  observer system before after (Request.sock_recv_from fd iovecs iflags) s =
      observer_sock_recv_from system before after fd iovecs iflags s
  observer system before after (Request.sock_get_opt fd option) s =
      observer_sock_get_opt system before after fd option s
  observer system before after (Request.sock_set_opt fd option value) s =
      observer_sock_set_opt system before after fd option value s
  observer system before after (Request.sock_local_address fd) s =
      observer_sock_local_address system before after fd s
  observer system before after (Request.sock_remote_address fd) s =
      observer_sock_remote_address system before after fd s
  observer system before after (Request.sock_address_info name service hints buffer) s =
      observer_sock_address_info system before after name service hints buffer s
