-- ===== src/Wasicall/Syscall/RoundTrip.antt =====
-- Reading back a recorded call.
use timecraft.Common.{List, [], append-nil, length, refl, some, sym, ℕ, ◌++◌, ◌∙◌, ◌≡◌}
use timecraft.Common.Result.{Result, ok, ◌>>=◌}
use timecraft.Stream.{read}
use timecraft.Wasicall.Calls.Env.{
  decode_args_get, decode_args_sizes_get, decode_clock_res_get, decode_clock_time_get,
  decode_environ_get, decode_environ_sizes_get,
}
use timecraft.Wasicall.Calls.Env.RoundTrip.{
  args_get_lem, args_sizes_get_lem, clock_res_get_lem, clock_time_get_lem, environ_get_lem,
  environ_sizes_get_lem,
}
use timecraft.Wasicall.Calls.File.{
  decode_fd_advise, decode_fd_allocate, decode_fd_close, decode_fd_data_sync,
  decode_fd_file_stat_get, decode_fd_file_stat_set_size, decode_fd_file_stat_set_times,
  decode_fd_pre_stat_dir_name, decode_fd_pre_stat_get, decode_fd_stat_get, decode_fd_stat_set_flags,
  decode_fd_stat_set_rights,
}
use timecraft.Wasicall.Calls.File.RoundTrip.{
  fd_advise_lem, fd_allocate_lem, fd_close_lem, fd_data_sync_lem, fd_file_stat_get_lem,
  fd_file_stat_set_size_lem, fd_file_stat_set_times_lem, fd_pre_stat_dir_name_lem,
  fd_pre_stat_get_lem, fd_stat_get_lem, fd_stat_set_flags_lem, fd_stat_set_rights_lem,
}
use timecraft.Wasicall.Calls.Io.{
  decode_fd_pread, decode_fd_pwrite, decode_fd_read, decode_fd_read_dir, decode_fd_renumber,
  decode_fd_seek, decode_fd_sync, decode_fd_tell, decode_fd_write,
}
use timecraft.Wasicall.Calls.Io.RoundTrip.{
  fd_pread_lem, fd_pwrite_lem, fd_read_dir_lem, fd_read_lem, fd_renumber_lem, fd_seek_lem,
  fd_sync_lem, fd_tell_lem, fd_write_lem,
}
use timecraft.Wasicall.Calls.Paths.{
  decode_path_create_directory, decode_path_file_stat_get, decode_path_file_stat_set_times,
  decode_path_link, decode_path_open, decode_path_read_link, decode_path_remove_directory,
  decode_path_rename, decode_path_symlink, decode_path_unlink_file,
}
use timecraft.Wasicall.Calls.Paths.RoundTrip.{
  path_create_directory_lem, path_file_stat_get_lem, path_file_stat_set_times_lem, path_link_lem,
  path_open_lem, path_read_link_lem, path_remove_directory_lem, path_rename_lem, path_symlink_lem,
  path_unlink_file_lem,
}
use timecraft.Wasicall.Calls.Process.{
  decode_poll_one_off, decode_proc_exit, decode_proc_raise, decode_random_get, decode_sched_yield,
}
use timecraft.Wasicall.Calls.Process.RoundTrip.{
  poll_one_off_lem, proc_exit_lem, proc_raise_lem, random_get_lem, sched_yield_lem,
}
use timecraft.Wasicall.Calls.Sock.{
  decode_sock_accept, decode_sock_bind, decode_sock_connect, decode_sock_listen, decode_sock_open,
  decode_sock_recv, decode_sock_recv_from, decode_sock_send, decode_sock_send_to,
  decode_sock_shutdown,
}
use timecraft.Wasicall.Calls.Sock.RoundTrip.{
  sock_accept_lem, sock_bind_lem, sock_connect_lem, sock_listen_lem, sock_open_lem,
  sock_recv_from_lem, sock_recv_lem, sock_send_lem, sock_send_to_lem, sock_shutdown_lem,
}
use timecraft.Wasicall.Calls.SockInfo.{
  decode_sock_address_info, decode_sock_get_opt, decode_sock_local_address,
  decode_sock_remote_address, decode_sock_set_opt,
}
use timecraft.Wasicall.Calls.SockInfo.RoundTrip.{
  sock_address_info_lem, sock_get_opt_lem, sock_local_address_lem, sock_remote_address_lem,
  sock_set_opt_lem,
}
use timecraft.Wasicall.Syscall.Call.{
  Syscall, args_get, args_sizes_get, clock_res_get, clock_time_get, environ_get, environ_sizes_get,
  fd_advise, fd_allocate, fd_close, fd_data_sync, fd_file_stat_get, fd_file_stat_set_size,
  fd_file_stat_set_times, fd_pre_stat_dir_name, fd_pre_stat_get, fd_pread, fd_pwrite, fd_read,
  fd_read_dir, fd_renumber, fd_seek, fd_stat_get, fd_stat_set_flags, fd_stat_set_rights, fd_sync,
  fd_tell, fd_write, path_create_directory, path_file_stat_get, path_file_stat_set_times, path_link,
  path_open, path_read_link, path_remove_directory, path_rename, path_symlink, path_unlink_file,
  poll_one_off, proc_exit, proc_raise, random_get, sched_yield, sock_accept, sock_address_info,
  sock_bind, sock_connect, sock_get_opt, sock_listen, sock_local_address, sock_open, sock_recv,
  sock_recv_from, sock_remote_address, sock_send, sock_send_to, sock_set_opt, sock_shutdown,
  syscall_id,
}
use timecraft.Wasicall.Syscall.Ids.{from_number-id_number, id_number}
use timecraft.Wasicall.Syscall.Reader.{DecodeError, decode_call, decode_record, wrap}
use timecraft.Wasicall.Syscall.Recordable.{IsRecordable, recorded}
use timecraft.Wasicall.Syscall.Recorder.{encode_call}
use timecraft.Wasicall.System.Exchange.{made}
use timecraft.Wasicall.Wasi.{Wasi}
use timecraft.Wasicall.Words.{CodecError}
use timecraft.Wasicall.Words.RoundTrip.{Fits}

-- A decoder that does not mind what follows, on a buffer with nothing behind.
pub decoded {ℓ} :
    {A : Type ℓ} (dec : List ℕ → Result CodecError A) (bytes : List ℕ) {r : Result CodecError A}
    → (Fits (bytes ++ []) → dec (bytes ++ []) ≡ r)
    → Fits bytes
    → dec bytes ≡ r
decoded dec bytes read fits = rw (append-nil bytes) at (read (rw (append-nil bytes) fits))

module _ ⦃w : Wasi⦄ where
  -- The bytes of a call, and what the reader makes of them.
  replays {ℓ} :
      {A : Type ℓ} (dec : List ℕ → Result CodecError A) (build : A → Result DecodeError Syscall)
      {a : A} {bytes : List ℕ}
      → (Fits (bytes ++ []) → dec (bytes ++ []) ≡ ok a)
      → (b : List ℕ) × (some bytes ≡ some b) × (Fits b → (wrap (dec b) >>= build) ≡ build a)
  replays dec build {a} {bytes} read = (bytes, refl, λ fits. rw (decoded dec bytes read fits))

  pub decode_call-encode_call :
      (c : Syscall)
      → IsRecordable c
      → (bytes : List ℕ) × (encode_call c ≡ some bytes)
        × (Fits bytes → decode_call (syscall_id c) bytes ≡ ok (recorded c))
  unfolding encode_call decode_call syscall_id recorded
  decode_call-encode_call (args_sizes_get arg_count string_bytes errno)
        (valid_arg_count, valid_string_bytes) =
      replays decode_args_sizes_get _
        (args_sizes_get_lem arg_count string_bytes errno [] valid_arg_count valid_string_bytes)
  decode_call-encode_call (args_get args errno) valid_args =
      replays decode_args_get _ (args_get_lem args errno [] valid_args)
  decode_call-encode_call (environ_sizes_get env_count string_bytes errno)
        (valid_env_count, valid_string_bytes) =
      replays decode_environ_sizes_get _
        (environ_sizes_get_lem env_count string_bytes errno [] valid_env_count valid_string_bytes)
  decode_call-encode_call (environ_get env errno) valid_env =
      replays decode_environ_get _ (environ_get_lem env errno [] valid_env)
  decode_call-encode_call (clock_res_get id timestamp errno) _ =
      replays decode_clock_res_get _ (clock_res_get_lem id timestamp errno [])
  decode_call-encode_call (clock_time_get id precision timestamp errno) _ =
      replays decode_clock_time_get _ (clock_time_get_lem id precision timestamp errno [])
  decode_call-encode_call (fd_advise fd offset length advice errno) _ =
      replays decode_fd_advise _ (fd_advise_lem fd offset length advice errno [])
  decode_call-encode_call (fd_allocate fd offset length errno) _ =
      replays decode_fd_allocate _ (fd_allocate_lem fd offset length errno [])
  decode_call-encode_call (fd_close fd errno) _ =
      replays decode_fd_close _ (fd_close_lem fd errno [])
  decode_call-encode_call (fd_data_sync fd errno) _ =
      replays decode_fd_data_sync _ (fd_data_sync_lem fd errno [])
  decode_call-encode_call (fd_stat_get fd stat errno) _ =
      replays decode_fd_stat_get _ (fd_stat_get_lem fd stat errno [])
  decode_call-encode_call (fd_stat_set_flags fd flags errno) _ =
      replays decode_fd_stat_set_flags _ (fd_stat_set_flags_lem fd flags errno [])
  decode_call-encode_call (fd_stat_set_rights fd rights_base rights_inheriting errno) _ =
      replays decode_fd_stat_set_rights _
        (fd_stat_set_rights_lem fd rights_base rights_inheriting errno [])
  decode_call-encode_call (fd_file_stat_get fd stat errno) _ =
      replays decode_fd_file_stat_get _ (fd_file_stat_get_lem fd stat errno [])
  decode_call-encode_call (fd_file_stat_set_size fd size errno) _ =
      replays decode_fd_file_stat_set_size _ (fd_file_stat_set_size_lem fd size errno [])
  decode_call-encode_call (fd_file_stat_set_times fd access_time modify_time flags errno) _ =
      replays decode_fd_file_stat_set_times _
        (fd_file_stat_set_times_lem fd access_time modify_time flags errno [])
  decode_call-encode_call (fd_pread fd iovecs offset size errno)
        (short_iovecs, total_iovecs, valid_size) =
      replays decode_fd_pread _
        (fd_pread_lem fd iovecs offset size errno [] short_iovecs total_iovecs valid_size)
  decode_call-encode_call (fd_pre_stat_get fd stat errno) valid_stat =
      replays decode_fd_pre_stat_get _ (fd_pre_stat_get_lem fd stat errno [] valid_stat)
  decode_call-encode_call (fd_pre_stat_dir_name fd name errno) _ =
      replays decode_fd_pre_stat_dir_name _ (fd_pre_stat_dir_name_lem fd name errno [])
  decode_call-encode_call (fd_pwrite fd iovecs offset size errno) (valid_iovecs, valid_size) =
      replays decode_fd_pwrite _
        (fd_pwrite_lem fd iovecs offset size errno [] valid_iovecs valid_size)
  decode_call-encode_call (fd_read fd iovecs size errno) (short_iovecs, total_iovecs, valid_size) =
      replays decode_fd_read _
        (fd_read_lem fd iovecs size errno [] short_iovecs total_iovecs valid_size)
  decode_call-encode_call (fd_read_dir fd entries cookie buffer_size_bytes errno)
        (valid_entries, valid_buffer_size_bytes) =
      replays decode_fd_read_dir _ (
        fd_read_dir_lem fd entries cookie buffer_size_bytes errno [] valid_entries
          valid_buffer_size_bytes)
  decode_call-encode_call (fd_renumber from to errno) _ =
      replays decode_fd_renumber _ (fd_renumber_lem from to errno [])
  decode_call-encode_call (fd_seek fd seek_offset whence offset errno) _ =
      replays decode_fd_seek _ (fd_seek_lem fd seek_offset whence offset errno [])
  decode_call-encode_call (fd_sync fd errno) _ = replays decode_fd_sync _ (fd_sync_lem fd errno [])
  decode_call-encode_call (fd_tell fd offset errno) _ =
      replays decode_fd_tell _ (fd_tell_lem fd offset errno [])
  decode_call-encode_call (fd_write fd iovecs size errno) (valid_iovecs, valid_size) =
      replays decode_fd_write _ (fd_write_lem fd iovecs size errno [] valid_iovecs valid_size)
  decode_call-encode_call (path_create_directory fd path errno) _ =
      replays decode_path_create_directory _ (path_create_directory_lem fd path errno [])
  decode_call-encode_call (path_file_stat_get fd lookup_flags path file_stat errno) _ =
      replays decode_path_file_stat_get _
        (path_file_stat_get_lem fd lookup_flags path file_stat errno [])
  decode_call-encode_call
        (path_file_stat_set_times fd lookup_flags path access_time modify_time flags errno) _ =
      replays decode_path_file_stat_set_times _
        (path_file_stat_set_times_lem fd lookup_flags path access_time modify_time flags errno [])
  decode_call-encode_call (path_link old_fd old_flags old_path new_fd new_path errno) _ =
      replays decode_path_link _ (path_link_lem old_fd old_flags old_path new_fd new_path errno [])
  decode_call-encode_call
        (path_open fd dir_flags path open_flags rights_base rights_inheriting fd_flags newfd errno)
        _ =
      replays decode_path_open _ (
        path_open_lem fd dir_flags path open_flags rights_base rights_inheriting fd_flags newfd
          errno [])
  decode_call-encode_call (path_read_link fd path output errno) _ =
      replays decode_path_read_link _ (path_read_link_lem fd path output errno [])
  decode_call-encode_call (path_remove_directory fd path errno) _ =
      replays decode_path_remove_directory _ (path_remove_directory_lem fd path errno [])
  decode_call-encode_call (path_rename fd old_path new_fd new_path errno) _ =
      replays decode_path_rename _ (path_rename_lem fd old_path new_fd new_path errno [])
  decode_call-encode_call (path_symlink old_path fd new_path errno) _ =
      replays decode_path_symlink _ (path_symlink_lem old_path fd new_path errno [])
  decode_call-encode_call (path_unlink_file fd path errno) _ =
      replays decode_path_unlink_file _ (path_unlink_file_lem fd path errno [])
  decode_call-encode_call (poll_one_off subscriptions events errno)
        (valid_subscriptions, valid_events) =
      let (bytes, encoded, read) =
        poll_one_off_lem subscriptions events errno [] valid_subscriptions valid_events in
      (bytes, encoded, λ fits. rw (decoded decode_poll_one_off bytes read fits))
  decode_call-encode_call (proc_exit exit_code errno) _ =
      replays decode_proc_exit _ (proc_exit_lem exit_code errno [])
  decode_call-encode_call (proc_raise signal errno) _ =
      replays decode_proc_raise _ (proc_raise_lem signal errno [])
  decode_call-encode_call (sched_yield errno) _ =
      replays decode_sched_yield _ (sched_yield_lem errno [])
  decode_call-encode_call (random_get b errno) _ =
      replays decode_random_get _ (random_get_lem b errno [])
  decode_call-encode_call (sock_accept fd flags newfd peer addr errno) (valid_peer, valid_addr) =
      replays decode_sock_accept _
        (sock_accept_lem fd flags newfd peer addr errno [] valid_peer valid_addr)
  decode_call-encode_call (sock_recv fd iovecs iflags size oflags errno)
        (short_iovecs, total_iovecs, valid_size) =
      replays decode_sock_recv _
        (sock_recv_lem fd iovecs iflags size oflags errno [] short_iovecs total_iovecs valid_size)
  decode_call-encode_call (sock_send fd iovecs flags size errno) (valid_iovecs, valid_size) =
      replays decode_sock_send _
        (sock_send_lem fd iovecs flags size errno [] valid_iovecs valid_size)
  decode_call-encode_call (sock_shutdown fd flags errno) _ =
      replays decode_sock_shutdown _ (sock_shutdown_lem fd flags errno [])
  decode_call-encode_call
        (sock_open family socket_type protocol rights_base rights_inheriting fd errno) _ =
      replays decode_sock_open _
        (sock_open_lem family socket_type protocol rights_base rights_inheriting fd errno [])
  decode_call-encode_call (sock_bind fd bind addr errno) (valid_bind, valid_addr) =
      replays decode_sock_bind _ (sock_bind_lem fd bind addr errno [] valid_bind valid_addr)
  decode_call-encode_call (sock_connect fd peer addr errno) (valid_peer, valid_addr) =
      replays decode_sock_connect _ (sock_connect_lem fd peer addr errno [] valid_peer valid_addr)
  decode_call-encode_call (sock_listen fd backlog errno) valid_backlog =
      replays decode_sock_listen _ (sock_listen_lem fd backlog errno [] valid_backlog)
  decode_call-encode_call (sock_send_to fd iovecs iflags addr size errno)
        (valid_iovecs, valid_addr, valid_size) =
      replays decode_sock_send_to _
        (sock_send_to_lem fd iovecs iflags addr size errno [] valid_iovecs valid_addr valid_size)
  decode_call-encode_call (sock_recv_from fd iovecs iflags size oflags addr errno)
        (short_iovecs, total_iovecs, valid_size, valid_addr) =
      replays decode_sock_recv_from _ (
        sock_recv_from_lem fd iovecs iflags size oflags addr errno [] short_iovecs total_iovecs
          valid_size valid_addr)
  decode_call-encode_call (sock_get_opt fd option value errno) valid_value =
      replays decode_sock_get_opt _ (sock_get_opt_lem fd option value errno [] valid_value)
  decode_call-encode_call (sock_set_opt fd option value errno) valid_value =
      replays decode_sock_set_opt _ (sock_set_opt_lem fd option value errno [] valid_value)
  decode_call-encode_call (sock_local_address fd addr errno) valid_addr =
      replays decode_sock_local_address _ (sock_local_address_lem fd addr errno [] valid_addr)
  decode_call-encode_call (sock_remote_address fd addr errno) valid_addr =
      replays decode_sock_remote_address _ (sock_remote_address_lem fd addr errno [] valid_addr)
  decode_call-encode_call (sock_address_info name service hint results errno)
        (valid_hint, valid_results) =
      replays decode_sock_address_info _
        (sock_address_info_lem name service hint results errno [] valid_hint valid_results)

  -- Every recordable call is encoded without a panic.
  pub encode_call-returns :
      (c : Syscall) → IsRecordable c → (bytes : List ℕ) × (encode_call c ≡ some bytes)
  encode_call-returns c valid =
      let (bytes, encoded, _) = decode_call-encode_call c valid in (bytes, encoded)

  -- What the recorder wrote for a recordable call, if it is less than 2 ^ 32 bytes, the reader
  -- decodes under the number of the call's identifier to the same call, with the buffers that a read
  -- filled cut to the bytes that it read.
  pub decode_record-encode_call :
      (c : Syscall) (bytes : List ℕ)
      → IsRecordable c
      → encode_call c ≡ some bytes
      → Fits bytes
      → decode_record (id_number (syscall_id c)) bytes ≡ ok (recorded c)
  unfolding decode_record
  decode_record-encode_call c bytes valid written fits =
      let (made, encoded, read) = decode_call-encode_call c valid in
      let same : bytes ≡ made = cc (sym written ∙ encoded) in
      rw (from_number-id_number (syscall_id c), decode_record) (rw same (read (rw same at fits)))
