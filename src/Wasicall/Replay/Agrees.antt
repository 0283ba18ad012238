-- ===== src/Wasicall/Replay/Agrees.antt =====
-- What the record of a call says of its parameters, where a strict replay answers the call.
use timecraft.Common.{length, true, ◌≡◌, ◌≤◌}
use timecraft.Wasicall.Replay.Equal.{equal_iovecs_shape_prefix, equal_subscriptions, same_hints}
use timecraft.Wasicall.Syscall.Call.{Syscall}
use timecraft.Wasicall.System.Request.{Request}
use timecraft.Wasicall.Wasi.{Wasi}

module _ ⦃w : Wasi⦄ where
  -- The parameters of the call are the recorded ones. A buffer that the call fills need only have
  -- room for what was recorded; the order of the record's fields is that of the codec.
  abbrev pub Agrees : Request → Syscall → Type 0
  Agrees Request.args_sizes_get (Syscall.args_sizes_get _ _ _) = Unit
  Agrees Request.args_get (Syscall.args_get _ _) = Unit
  Agrees Request.environ_sizes_get (Syscall.environ_sizes_get _ _ _) = Unit
  Agrees Request.environ_get (Syscall.environ_get _ _) = Unit
  Agrees (Request.clock_res_get id) (Syscall.clock_res_get record_id _ _) = id ≡ record_id
  Agrees (Request.clock_time_get id precision)
        (Syscall.clock_time_get record_id record_precision _ _) =
      (id ≡ record_id) × (precision ≡ record_precision)
  Agrees (Request.fd_advise fd offset length advice)
        (Syscall.fd_advise record_fd record_offset record_length record_advice _) =
      (fd ≡ record_fd)
      × (offset ≡ record_offset)
      × (length ≡ record_length)
      × (advice ≡ record_advice)
  Agrees (Request.fd_allocate fd offset length)
        (Syscall.fd_allocate record_fd record_offset record_length _) =
      (fd ≡ record_fd) × (offset ≡ record_offset) × (length ≡ record_length)
  Agrees (Request.fd_close fd) (Syscall.fd_close record_fd _) = fd ≡ record_fd
  Agrees (Request.fd_data_sync fd) (Syscall.fd_data_sync record_fd _) = fd ≡ record_fd
  Agrees (Request.fd_stat_get fd) (Syscall.fd_stat_get record_fd _ _) = fd ≡ record_fd
  Agrees (Request.fd_stat_set_flags fd flags) (Syscall.fd_stat_set_flags record_fd record_flags _) =
      (fd ≡ record_fd) × (flags ≡ record_flags)
  Agrees (Request.fd_stat_set_rights fd rights_base rights_inheriting)
        (Syscall.fd_stat_set_rights record_fd record_rights_base record_rights_inheriting _) =
      (fd ≡ record_fd)
      × (rights_base ≡ record_rights_base)
      × (rights_inheriting ≡ record_rights_inheriting)
  Agrees (Request.fd_file_stat_get fd) (Syscall.fd_file_stat_get record_fd _ _) = fd ≡ record_fd
  Agrees (Request.fd_file_stat_set_size fd size)
        (Syscall.fd_file_stat_set_size record_fd record_size _) =
      (fd ≡ record_fd) × (size ≡ record_size)
  Agrees (Request.fd_file_stat_set_times fd access_time modify_time flags)
        (Syscall.fd_file_stat_set_times record_fd record_access_time record_modify_time record_flags
          _) =
      (fd ≡ record_fd)
      × (access_time ≡ record_access_time)
      × (modify_time ≡ record_modify_time)
      × (flags ≡ record_flags)
  Agrees (Request.fd_pread fd iovecs offset)
        (Syscall.fd_pread record_fd record_iovecs record_offset size _) =
      (fd ≡ record_fd)
      × (equal_iovecs_shape_prefix iovecs record_iovecs size ≡ true)
      × (offset ≡ record_offset)
  Agrees (Request.fd_pre_stat_get fd) (Syscall.fd_pre_stat_get record_fd _ _) = fd ≡ record_fd
  Agrees (Request.fd_pre_stat_dir_name fd) (Syscall.fd_pre_stat_dir_name record_fd _ _) =
      fd ≡ record_fd
  Agrees (Request.fd_pwrite fd iovecs offset)
        (Syscall.fd_pwrite record_fd record_iovecs record_offset _ _) =
      (fd ≡ record_fd) × (iovecs ≡ record_iovecs) × (offset ≡ record_offset)
  Agrees (Request.fd_read fd iovecs) (Syscall.fd_read record_fd record_iovecs size _) =
      (fd ≡ record_fd) × (equal_iovecs_shape_prefix iovecs record_iovecs size ≡ true)
  Agrees (Request.fd_read_dir fd entries cookie buffer_size_bytes)
        (Syscall.fd_read_dir record_fd record_entries record_cookie record_buffer_size_bytes _) =
      (fd ≡ record_fd)
      × (length record_entries ≤ length entries)
      × (cookie ≡ record_cookie)
      × (buffer_size_bytes ≡ record_buffer_size_bytes)
  Agrees (Request.fd_renumber from to) (Syscall.fd_renumber record_from record_to _) =
      (from ≡ record_from) × (to ≡ record_to)
  Agrees (Request.fd_seek fd offset whence)
        (Syscall.fd_seek record_fd record_offset record_whence _ _) =
      (fd ≡ record_fd) × (offset ≡ record_offset) × (whence ≡ record_whence)
  Agrees (Request.fd_sync fd) (Syscall.fd_sync record_fd _) = fd ≡ record_fd
  Agrees (Request.fd_tell fd) (Syscall.fd_tell record_fd _ _) = fd ≡ record_fd
  Agrees (Request.fd_write fd iovecs) (Syscall.fd_write record_fd record_iovecs _ _) =
      (fd ≡ record_fd) × (iovecs ≡ record_iovecs)
  Agrees (Request.path_create_directory fd path)
        (Syscall.path_create_directory record_fd record_path _) =
      (fd ≡ record_fd) × (path ≡ record_path)
  Agrees (Request.path_file_stat_get fd lookup_flags path)
        (Syscall.path_file_stat_get record_fd record_lookup_flags record_path _ _) =
      (fd ≡ record_fd) × (lookup_flags ≡ record_lookup_flags) × (path ≡ record_path)
  Agrees (Request.path_file_stat_set_times fd lookup_flags path access_time modify_time flags)
        (Syscall.path_file_stat_set_times record_fd record_lookup_flags record_path
          record_access_time record_modify_time record_flags _) =
      (fd ≡ record_fd)
      × (lookup_flags ≡ record_lookup_flags)
      × (access_time ≡ record_access_time)
      × (modify_time ≡ record_modify_time)
      × (flags ≡ record_flags)
      × (path ≡ record_path)
  Agrees (Request.path_link old_fd old_flags old_path new_fd new_path)
        (Syscall.path_link record_old_fd record_old_flags record_old_path record_new_fd
          record_new_path _) =
      (old_fd ≡ record_old_fd)
      × (old_flags ≡ record_old_flags)
      × (old_path ≡ record_old_path)
      × (new_fd ≡ record_new_fd)
      × (new_path ≡ record_new_path)
  Agrees (Request.path_open fd dir_flags path open_flags rights_base rights_inheriting fd_flags)
        (Syscall.path_open record_fd record_dir_flags record_path record_open_flags
          record_rights_base record_rights_inheriting record_fd_flags _ _) =
      (fd ≡ record_fd)
      × (dir_flags ≡ record_dir_flags)
      × (path ≡ record_path)
      × (open_flags ≡ record_open_flags)
      × (rights_base ≡ record_rights_base)
      × (rights_inheriting ≡ record_rights_inheriting)
      × (fd_flags ≡ record_fd_flags)
  Agrees (Request.path_read_link fd path buffer)
        (Syscall.path_read_link record_fd record_path result _) =
      (fd ≡ record_fd) × (path ≡ record_path) × (length result ≤ length buffer)
  Agrees (Request.path_remove_directory fd path)
        (Syscall.path_remove_directory record_fd record_path _) =
      (fd ≡ record_fd) × (path ≡ record_path)
  Agrees (Request.path_rename fd old_path new_fd new_path)
        (Syscall.path_rename record_fd record_old_path record_new_fd record_new_path _) =
      (fd ≡ record_fd)
      × (old_path ≡ record_old_path)
      × (new_fd ≡ record_new_fd)
      × (new_path ≡ record_new_path)
  Agrees (Request.path_symlink old_path fd new_path)
        (Syscall.path_symlink record_old_path record_fd record_new_path _) =
      (old_path ≡ record_old_path) × (fd ≡ record_fd) × (new_path ≡ record_new_path)
  Agrees (Request.path_unlink_file fd path) (Syscall.path_unlink_file record_fd record_path _) =
      (fd ≡ record_fd) × (path ≡ record_path)
  Agrees (Request.poll_one_off subscriptions events)
        (Syscall.poll_one_off record_subscriptions record_events _) =
      (equal_subscriptions subscriptions record_subscriptions ≡ true)
      × (length record_events ≤ length events)
  Agrees (Request.proc_exit exit_code) (Syscall.proc_exit record_exit_code _) =
      exit_code ≡ record_exit_code
  Agrees (Request.proc_raise signal) (Syscall.proc_raise record_signal _) = signal ≡ record_signal
  Agrees Request.sched_yield (Syscall.sched_yield _) = Unit
  Agrees (Request.random_get buffer) (Syscall.random_get record_buffer _) =
      length buffer ≡ length record_buffer
  Agrees (Request.sock_accept fd flags) (Syscall.sock_accept record_fd record_flags _ _ _ _) =
      (fd ≡ record_fd) × (flags ≡ record_flags)
  Agrees (Request.sock_recv fd iovecs iflags)
        (Syscall.sock_recv record_fd record_iovecs record_i_flags size _ _) =
      (fd ≡ record_fd)
      × (equal_iovecs_shape_prefix iovecs record_iovecs size ≡ true)
      × (iflags ≡ record_i_flags)
  Agrees (Request.sock_send fd iovecs iflags)
        (Syscall.sock_send record_fd record_iovecs record_i_flags _ _) =
      (fd ≡ record_fd) × (iovecs ≡ record_iovecs) × (iflags ≡ record_i_flags)
  Agrees (Request.sock_shutdown fd flags) (Syscall.sock_shutdown record_fd record_flags _) =
      (fd ≡ record_fd) × (flags ≡ record_flags)
  Agrees (Request.sock_open protocol_family socket_type protocol rights_base rights_inheriting)
        (Syscall.sock_open record_protocol_family record_socket_type record_protocol
          record_rights_base record_rights_inheriting _ _) =
      (protocol_family ≡ record_protocol_family)
      × (socket_type ≡ record_socket_type)
      × (protocol ≡ record_protocol)
      × (rights_base ≡ record_rights_base)
      × (rights_inheriting ≡ record_rights_inheriting)
  Agrees (Request.sock_bind fd bind) (Syscall.sock_bind record_fd record_bind _ _) =
      (fd ≡ record_fd) × (bind ≡ record_bind)
  Agrees (Request.sock_connect fd peer) (Syscall.sock_connect record_fd record_peer _ _) =
      (fd ≡ record_fd) × (peer ≡ record_peer)
  Agrees (Request.sock_listen fd backlog) (Syscall.sock_listen record_fd record_backlog _) =
      (fd ≡ record_fd) × (backlog ≡ record_backlog)
  Agrees (Request.sock_send_to fd iovecs iflags addr)
        (Syscall.sock_send_to record_fd record_iovecs record_i_flags record_addr _ _) =
      (fd ≡ record_fd) × (iovecs ≡ record_iovecs) × (iflags ≡ record_i_flags) × (addr ≡ record_addr)
  Agrees (Request.sock_recv_from fd iovecs iflags)
        (Syscall.sock_recv_from record_fd record_iovecs record_i_flags size _ _ _) =
      (fd ≡ record_fd)
      × (equal_iovecs_shape_prefix iovecs record_iovecs size ≡ true)
      × (iflags ≡ record_i_flags)
  Agrees (Request.sock_get_opt fd option) (Syscall.sock_get_opt record_fd record_option _ _) =
      (fd ≡ record_fd) × (option ≡ record_option)
  Agrees (Request.sock_set_opt fd option value)
        (Syscall.sock_set_opt record_fd record_option record_value _) =
      (fd ≡ record_fd) × (option ≡ record_option) × (value ≡ record_value)
  Agrees (Request.sock_local_address fd) (Syscall.sock_local_address record_fd _ _) = fd ≡ record_fd
  Agrees (Request.sock_remote_address fd) (Syscall.sock_remote_address record_fd _ _) =
      fd ≡ record_fd
  Agrees (Request.sock_address_info name service hints buffer)
        (Syscall.sock_address_info record_name record_service record_hints results _) =
      (name ≡ record_name)
      × (service ≡ record_service)
      × (same_hints hints record_hints ≡ true)
      × (length results ≤ length buffer)
  Agrees _ _ = ⊥
