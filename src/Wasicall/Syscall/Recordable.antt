-- ===== src/Wasicall/Syscall/Recordable.antt =====
-- Which calls the codec can record, and what of them a record keeps.
use timecraft.Common.{length, ◌<◌, ◌^◌}
use timecraft.Wasicall.Iovecs.Prefix.{recorded_iovecs, total}
use timecraft.Wasicall.Lists.{list_codec}
use timecraft.Wasicall.Poll.RoundTrip.{event_codec, subscription_codec}
use timecraft.Wasicall.Sockets.RoundTrip.{IsAddress, IsOptionValue, address_info_codec}
use timecraft.Wasicall.Stats.RoundTrip.{dir_entry_codec}
use timecraft.Wasicall.Syscall.Call.{
  Syscall, args_get, args_sizes_get, clock_res_get, clock_time_get, environ_get, environ_sizes_get,
  fd_advise, fd_allocate, fd_close, fd_data_sync, fd_file_stat_get, fd_file_stat_set_size,
  fd_file_stat_set_times, fd_pre_stat_dir_name, fd_pre_stat_get, fd_pread, fd_pwrite, fd_read,
  fd_read_dir, fd_renumber, fd_seek, fd_stat_get, fd_stat_set_flags, fd_stat_set_rights, fd_sync,
  fd_tell, fd_write, path_create_directory, path_file_stat_get, path_file_stat_set_times, path_link,
  path_open, path_read_link, path_remove_directory, path_rename, path_symlink, path_unlink_file,
  poll_one_off, proc_exit, proc_raise, random_get, sched_yield, sock_accept, sock_address_info,
  sock_bind, sock_connect, sock_get_opt, sock_listen, sock_local_address, sock_open, sock_recv,
  sock_recv_from, sock_remote_address, sock_send, sock_send_to, sock_set_opt, sock_shutdown,
}
use timecraft.Wasicall.Wasi.{Wasi}
use timecraft.Wasicall.Words.RoundTrip.{IsInt64}

module _ ⦃w : Wasi⦄ where
  -- The limits of Go's types, counts below 2 ^ 32, and what `IsSubscription` and `IsEvent` say.
  abbrev pub IsRecordable : Syscall → Type 0
  IsRecordable (args_sizes_get arg_count string_bytes errno) =
      (IsInt64 arg_count) × (IsInt64 string_bytes)
  IsRecordable (args_get args errno) = (length args < 2 ^ 32)
  IsRecordable (environ_sizes_get env_count string_bytes errno) =
      (IsInt64 env_count) × (IsInt64 string_bytes)
  IsRecordable (environ_get env errno) = (length env < 2 ^ 32)
  IsRecordable (clock_res_get id timestamp errno) = Unit
  IsRecordable (clock_time_get id precision timestamp errno) = Unit
  IsRecordable (fd_advise fd offset length advice errno) = Unit
  IsRecordable (fd_allocate fd offset length errno) = Unit
  IsRecordable (fd_close fd errno) = Unit
  IsRecordable (fd_data_sync fd errno) = Unit
  IsRecordable (fd_stat_get fd stat errno) = Unit
  IsRecordable (fd_stat_set_flags fd flags errno) = Unit
  IsRecordable (fd_stat_set_rights fd rights_base rights_inheriting errno) = Unit
  IsRecordable (fd_file_stat_get fd stat errno) = Unit
  IsRecordable (fd_file_stat_set_size fd size errno) = Unit
  IsRecordable (fd_file_stat_set_times fd access_time modify_time flags errno) = Unit
  IsRecordable (fd_pread fd iovecs offset size errno) =
      (length iovecs < 2 ^ 32) × (total iovecs < 2 ^ 32) × (size < 2 ^ 32)
  IsRecordable (fd_pre_stat_get fd stat errno) = (stat.name_length < 2 ^ 32)
  IsRecordable (fd_pre_stat_dir_name fd name errno) = Unit
  IsRecordable (fd_pwrite fd iovecs offset size errno) = (length iovecs < 2 ^ 32) × (size < 2 ^ 32)
  IsRecordable (fd_read fd iovecs size errno) =
      (length iovecs < 2 ^ 32) × (total iovecs < 2 ^ 32) × (size < 2 ^ 32)
  IsRecordable (fd_read_dir fd entries cookie buffer_size_bytes errno) =
      ((list_codec dir_entry_codec).IsValid entries) × (IsInt64 buffer_size_bytes)
  IsRecordable (fd_renumber from to errno) = Unit
  IsRecordable (fd_seek fd seek_offset whence offset errno) = Unit
  IsRecordable (fd_sync fd errno) = Unit
  IsRecordable (fd_tell fd offset errno) = Unit
  IsRecordable (fd_write fd iovecs size errno) = (length iovecs < 2 ^ 32) × (size < 2 ^ 32)
  IsRecordable (path_create_directory fd path errno) = Unit
  IsRecordable (path_file_stat_get fd lookup_flags path file_stat errno) = Unit
  IsRecordable (path_file_stat_set_times fd lookup_flags path access_time modify_time flags errno) =
      Unit
  IsRecordable (path_link old_fd old_flags old_path new_fd new_path errno) = Unit
  IsRecordable
        (path_open fd dir_flags path open_flags rights_base rights_inheriting fd_flags newfd
          errno) =
      Unit
  IsRecordable (path_read_link fd path output errno) = Unit
  IsRecordable (path_remove_directory fd path errno) = Unit
  IsRecordable (path_rename fd old_path new_fd new_path errno) = Unit
  IsRecordable (path_symlink old_path fd new_path errno) = Unit
  IsRecordable (path_unlink_file fd path errno) = Unit
  IsRecordable (poll_one_off subscriptions events errno) =
      ((list_codec subscription_codec).IsValid subscriptions)
      × ((list_codec event_codec).IsValid events)
  IsRecordable (proc_exit exit_code errno) = Unit
  IsRecordable (proc_raise signal errno) = Unit
  IsRecordable (sched_yield errno) = Unit
  IsRecordable (random_get b errno) = Unit
  IsRecordable (sock_accept fd flags newfd peer addr errno) = (IsAddress peer) × (IsAddress addr)
  IsRecordable (sock_recv fd iovecs iflags size oflags errno) =
      (length iovecs < 2 ^ 32) × (total iovecs < 2 ^ 32) × (size < 2 ^ 32)
  IsRecordable (sock_send fd iovecs flags size errno) = (length iovecs < 2 ^ 32) × (size < 2 ^ 32)
  IsRecordable (sock_shutdown fd flags errno) = Unit
  IsRecordable (sock_open family socket_type protocol rights_base rights_inheriting fd errno) = Unit
  IsRecordable (sock_bind fd bind addr errno) = (IsAddress bind) × (IsAddress addr)
  IsRecordable (sock_connect fd peer addr errno) = (IsAddress peer) × (IsAddress addr)
  IsRecordable (sock_listen fd backlog errno) = (IsInt64 backlog)
  IsRecordable (sock_send_to fd iovecs iflags addr size errno) =
      (length iovecs < 2 ^ 32) × (IsAddress addr) × (size < 2 ^ 32)
  IsRecordable (sock_recv_from fd iovecs iflags size oflags addr errno) =
      (length iovecs < 2 ^ 32) × (total iovecs < 2 ^ 32) × (size < 2 ^ 32) × (IsAddress addr)
  IsRecordable (sock_get_opt fd option value errno) = (IsOptionValue value)
  IsRecordable (sock_set_opt fd option value errno) = (IsOptionValue value)
  IsRecordable (sock_local_address fd addr errno) = (IsAddress addr)
  IsRecordable (sock_remote_address fd addr errno) = (IsAddress addr)
  IsRecordable (sock_address_info name service hint results errno) =
      (IsAddress hint.address) × ((list_codec address_info_codec).IsValid results)

  -- Of the buffers that a call filled, the record keeps the bytes that it put there.
  unfoldable pub recorded : Syscall → Syscall
  recorded (fd_pread fd iovecs offset size errno) =
      fd_pread fd (recorded_iovecs iovecs size) offset size errno
  recorded (fd_read fd iovecs size errno) = fd_read fd (recorded_iovecs iovecs size) size errno
  recorded (sock_recv fd iovecs iflags size oflags errno) =
      sock_recv fd (recorded_iovecs iovecs size) iflags size oflags errno
  recorded (sock_recv_from fd iovecs iflags size oflags addr errno) =
      sock_recv_from fd (recorded_iovecs iovecs size) iflags size oflags addr errno
  recorded call = call
