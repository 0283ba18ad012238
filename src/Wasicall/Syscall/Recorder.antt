-- ===== src/Wasicall/Syscall/Recorder.antt =====
-- internal/timemachine/wasicall/record.go: the bytes that each method of the recorder hands to
-- `write`, beside the call's identifier. The call of the recorded system, which stands
-- before it, is in Wasicall.Recorder.
use timecraft.Common.{List, Option, [], length, some, ℕ}
use timecraft.Wasicall.Calls.Env.{
  encode_args_get, encode_args_sizes_get, encode_clock_res_get, encode_clock_time_get,
  encode_environ_get, encode_environ_sizes_get,
}
use timecraft.Wasicall.Calls.File.{
  encode_fd_advise, encode_fd_allocate, encode_fd_close, encode_fd_data_sync,
  encode_fd_file_stat_get, encode_fd_file_stat_set_size, encode_fd_file_stat_set_times,
  encode_fd_pre_stat_dir_name, encode_fd_pre_stat_get, encode_fd_stat_get, encode_fd_stat_set_flags,
  encode_fd_stat_set_rights,
}
use timecraft.Wasicall.Calls.Io.{
  encode_fd_pread, encode_fd_pwrite, encode_fd_read, encode_fd_read_dir, encode_fd_renumber,
  encode_fd_seek, encode_fd_sync, encode_fd_tell, encode_fd_write,
}
use timecraft.Wasicall.Calls.Paths.{
  encode_path_create_directory, encode_path_file_stat_get, encode_path_file_stat_set_times,
  encode_path_link, encode_path_open, encode_path_read_link, encode_path_remove_directory,
  encode_path_rename, encode_path_symlink, encode_path_unlink_file,
}
use timecraft.Wasicall.Calls.Process.{
  encode_poll_one_off, encode_proc_exit, encode_proc_raise, encode_random_get, encode_sched_yield,
}
use timecraft.Wasicall.Calls.Sock.{
  encode_sock_accept, encode_sock_bind, encode_sock_connect, encode_sock_listen, encode_sock_open,
  encode_sock_recv, encode_sock_recv_from, encode_sock_send, encode_sock_send_to,
  encode_sock_shutdown,
}
use timecraft.Wasicall.Calls.SockInfo.{
  encode_sock_address_info, encode_sock_get_opt, encode_sock_local_address,
  encode_sock_remote_address, encode_sock_set_opt,
}
use timecraft.Wasicall.Syscall.Call.{
  Syscall, args_get, args_sizes_get, clock_res_get, clock_time_get, environ_get, environ_sizes_get,
  fd_advise, fd_allocate, fd_close, fd_data_sync, fd_file_stat_get, fd_file_stat_set_size,
  fd_file_stat_set_times, fd_pre_stat_dir_name, fd_pre_stat_get, fd_pread, fd_pwrite, fd_read,
  fd_read_dir, fd_renumber, fd_seek, fd_stat_get, fd_stat_set_flags, fd_stat_set_rights, fd_sync,
  fd_tell, fd_write, path_create_directory, path_file_stat_get, path_file_stat_set_times, path_link,
  path_open, path_read_link, path_remove_directory, path_rename, path_symlink, path_unlink_file,
  poll_one_off, proc_exit, proc_raise, random_get, sched_yield, sock_accept, sock_address_info,
  sock_bind, sock_connect, sock_get_opt, sock_listen, sock_local_address, sock_open, sock_recv,
  sock_recv_from, sock_remote_address, sock_send, sock_send_to, sock_set_opt, sock_shutdown,
}
use timecraft.Wasicall.Wasi.{Wasi}

module _ ⦃w : Wasi⦄ where
  -- `none`: the encoder panics.
  unfoldable pub encode_call : Syscall → Option (List ℕ)
  encode_call (args_sizes_get arg_count string_bytes errno) =
      some (encode_args_sizes_get [] arg_count string_bytes errno)
  encode_call (args_get args errno) = some (encode_args_get [] args errno)
  encode_call (environ_sizes_get env_count string_bytes errno) =
      some (encode_environ_sizes_get [] env_count string_bytes errno)
  encode_call (environ_get env errno) = some (encode_environ_get [] env errno)
  encode_call (clock_res_get id timestamp errno) = some (encode_clock_res_get [] id timestamp errno)
  encode_call (clock_time_get id precision timestamp errno) =
      some (encode_clock_time_get [] id precision timestamp errno)
  encode_call (fd_advise fd offset length advice errno) =
      some (encode_fd_advise [] fd offset length advice errno)
  encode_call (fd_allocate fd offset length errno) =
      some (encode_fd_allocate [] fd offset length errno)
  encode_call (fd_close fd errno) = some (encode_fd_close [] fd errno)
  encode_call (fd_data_sync fd errno) = some (encode_fd_data_sync [] fd errno)
  encode_call (fd_stat_get fd stat errno) = some (encode_fd_stat_get [] fd stat errno)
  encode_call (fd_stat_set_flags fd flags errno) = some (encode_fd_stat_set_flags [] fd flags errno)
  encode_call (fd_stat_set_rights fd rights_base rights_inheriting errno) =
      some (encode_fd_stat_set_rights [] fd rights_base rights_inheriting errno)
  encode_call (fd_file_stat_get fd stat errno) = some (encode_fd_file_stat_get [] fd stat errno)
  encode_call (fd_file_stat_set_size fd size errno) =
      some (encode_fd_file_stat_set_size [] fd size errno)
  encode_call (fd_file_stat_set_times fd access_time modify_time flags errno) =
      some (encode_fd_file_stat_set_times [] fd access_time modify_time flags errno)
  encode_call (fd_pread fd iovecs offset size errno) =
      some (encode_fd_pread [] fd iovecs offset size errno)
  encode_call (fd_pre_stat_get fd stat errno) = some (encode_fd_pre_stat_get [] fd stat errno)
  encode_call (fd_pre_stat_dir_name fd name errno) =
      some (encode_fd_pre_stat_dir_name [] fd name errno)
  encode_call (fd_pwrite fd iovecs offset size errno) =
      some (encode_fd_pwrite [] fd iovecs offset size errno)
  encode_call (fd_read fd iovecs size errno) = some (encode_fd_read [] fd iovecs size errno)
  encode_call (fd_read_dir fd entries cookie buffer_size_bytes errno) =
      some (encode_fd_read_dir [] fd entries cookie buffer_size_bytes errno)
  encode_call (fd_renumber from to errno) = some (encode_fd_renumber [] from to errno)
  encode_call (fd_seek fd seek_offset whence offset errno) =
      some (encode_fd_seek [] fd seek_offset whence offset errno)
  encode_call (fd_sync fd errno) = some (encode_fd_sync [] fd errno)
  encode_call (fd_tell fd offset errno) = some (encode_fd_tell [] fd offset errno)
  encode_call (fd_write fd iovecs size errno) = some (encode_fd_write [] fd iovecs size errno)
  encode_call (path_create_directory fd path errno) =
      some (encode_path_create_directory [] fd path errno)
  encode_call (path_file_stat_get fd lookup_flags path file_stat errno) =
      some (encode_path_file_stat_get [] fd lookup_flags path file_stat errno)
  encode_call (path_file_stat_set_times fd lookup_flags path access_time modify_time flags errno) =
      some (
        encode_path_file_stat_set_times [] fd lookup_flags path access_time modify_time flags errno)
  encode_call (path_link old_fd old_flags old_path new_fd new_path errno) =
      some (encode_path_link [] old_fd old_flags old_path new_fd new_path errno)
  encode_call
        (path_open fd dir_flags path open_flags rights_base rights_inheriting fd_flags newfd
          errno) =
      some (
        encode_path_open [] fd dir_flags path open_flags rights_base rights_inheriting fd_flags
          newfd errno)
  encode_call (path_read_link fd path output errno) =
      some (encode_path_read_link [] fd path output errno)
  encode_call (path_remove_directory fd path errno) =
      some (encode_path_remove_directory [] fd path errno)
  encode_call (path_rename fd old_path new_fd new_path errno) =
      some (encode_path_rename [] fd old_path new_fd new_path errno)
  encode_call (path_symlink old_path fd new_path errno) =
      some (encode_path_symlink [] old_path fd new_path errno)
  encode_call (path_unlink_file fd path errno) = some (encode_path_unlink_file [] fd path errno)
  encode_call (poll_one_off subscriptions events errno) =
      encode_poll_one_off [] subscriptions events errno
  encode_call (proc_exit exit_code errno) = some (encode_proc_exit [] exit_code errno)
  encode_call (proc_raise signal errno) = some (encode_proc_raise [] signal errno)
  encode_call (sched_yield errno) = some (encode_sched_yield [] errno)
  encode_call (random_get b errno) = some (encode_random_get [] b errno)
  encode_call (sock_accept fd flags newfd peer addr errno) =
      some (encode_sock_accept [] fd flags newfd peer addr errno)
  encode_call (sock_recv fd iovecs iflags size oflags errno) =
      some (encode_sock_recv [] fd iovecs iflags size oflags errno)
  encode_call (sock_send fd iovecs flags size errno) =
      some (encode_sock_send [] fd iovecs flags size errno)
  encode_call (sock_shutdown fd flags errno) = some (encode_sock_shutdown [] fd flags errno)
  encode_call (sock_open family socket_type protocol rights_base rights_inheriting fd errno) =
      some (encode_sock_open [] family socket_type protocol rights_base rights_inheriting fd errno)
  encode_call (sock_bind fd bind addr errno) = some (encode_sock_bind [] fd bind addr errno)
  encode_call (sock_connect fd peer addr errno) = some (encode_sock_connect [] fd peer addr errno)
  encode_call (sock_listen fd backlog errno) = some (encode_sock_listen [] fd backlog errno)
  encode_call (sock_send_to fd iovecs iflags addr size errno) =
      some (encode_sock_send_to [] fd iovecs iflags addr size errno)
  encode_call (sock_recv_from fd iovecs iflags size oflags addr errno) =
      some (encode_sock_recv_from [] fd iovecs iflags size oflags addr errno)
  encode_call (sock_get_opt fd option value errno) =
      some (encode_sock_get_opt [] fd option value errno)
  encode_call (sock_set_opt fd option value errno) =
      some (encode_sock_set_opt [] fd option value errno)
  encode_call (sock_local_address fd addr errno) = some (encode_sock_local_address [] fd addr errno)
  encode_call (sock_remote_address fd addr errno) =
      some (encode_sock_remote_address [] fd addr errno)
  encode_call (sock_address_info name service hint results errno) =
      some (encode_sock_address_info [] name service hint results errno)
