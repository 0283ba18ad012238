-- ===== src/Wasicall/Syscall/Short.antt =====
-- A record that is too short for the errno that every call starts with.
use timecraft.Common.{List, length, lt→ltb, refl, ℕ, ◌<◌, ◌≡◌}
use timecraft.Common.Result.{err}
use timecraft.Wasicall.Calls.Env.{
  decode_args_get, decode_args_sizes_get, decode_clock_res_get, decode_clock_time_get,
  decode_environ_get, decode_environ_sizes_get,
}
use timecraft.Wasicall.Calls.File.{
  decode_fd_advise, decode_fd_allocate, decode_fd_close, decode_fd_data_sync,
  decode_fd_file_stat_get, decode_fd_file_stat_set_size, decode_fd_file_stat_set_times,
  decode_fd_pre_stat_dir_name, decode_fd_pre_stat_get, decode_fd_stat_get, decode_fd_stat_set_flags,
  decode_fd_stat_set_rights,
}
use timecraft.Wasicall.Calls.Io.{
  decode_fd_pread, decode_fd_pwrite, decode_fd_read, decode_fd_read_dir, decode_fd_renumber,
  decode_fd_seek, decode_fd_sync, decode_fd_tell, decode_fd_write,
}
use timecraft.Wasicall.Calls.Paths.{
  decode_path_create_directory, decode_path_file_stat_get, decode_path_file_stat_set_times,
  decode_path_link, decode_path_open, decode_path_read_link, decode_path_remove_directory,
  decode_path_rename, decode_path_symlink, decode_path_unlink_file,
}
use timecraft.Wasicall.Calls.Process.{
  decode_poll_one_off, decode_proc_exit, decode_proc_raise, decode_random_get, decode_sched_yield,
}
use timecraft.Wasicall.Calls.Sock.{
  decode_sock_accept, decode_sock_bind, decode_sock_connect, decode_sock_listen, decode_sock_open,
  decode_sock_recv, decode_sock_recv_from, decode_sock_send, decode_sock_send_to,
  decode_sock_shutdown,
}
use timecraft.Wasicall.Calls.SockInfo.{
  decode_sock_address_info, decode_sock_get_opt, decode_sock_local_address,
  decode_sock_remote_address, decode_sock_set_opt,
}
use timecraft.Wasicall.Syscall.Ids.{SyscallId, from_number-id_number, id_number}
use timecraft.Wasicall.Syscall.Reader.{decode_call, decode_error, decode_record}
use timecraft.Wasicall.Wasi.{Scalar32, Wasi}
use timecraft.Wasicall.Words.{decode_scalar32, decode_u32, short_buffer}

short_word :
    (s : Scalar32) (buffer : List ℕ)
    → length buffer < 4
    → decode_scalar32 s buffer ≡ err short_buffer
unfolding decode_scalar32 decode_u32
short_word s buffer short = rw (lt→ltb (length buffer) 4 short) refl

module _ ⦃w : Wasi⦄ where
  decode_call-short :
      (id : SyscallId) (buffer : List ℕ)
      → length buffer < 4
      → decode_call id buffer ≡ err (decode_error short_buffer)
  unfolding decode_call decode_args_sizes_get decode_args_get decode_environ_sizes_get
      decode_environ_get decode_clock_res_get decode_clock_time_get decode_fd_advise
      decode_fd_allocate decode_fd_close decode_fd_data_sync decode_fd_stat_get
      decode_fd_stat_set_flags decode_fd_stat_set_rights decode_fd_file_stat_get
      decode_fd_file_stat_set_size decode_fd_file_stat_set_times decode_fd_pread
      decode_fd_pre_stat_get decode_fd_pre_stat_dir_name decode_fd_pwrite decode_fd_read
      decode_fd_read_dir decode_fd_renumber decode_fd_seek decode_fd_sync decode_fd_tell
      decode_fd_write decode_path_create_directory decode_path_file_stat_get
      decode_path_file_stat_set_times decode_path_link decode_path_open decode_path_read_link
      decode_path_remove_directory decode_path_rename decode_path_symlink decode_path_unlink_file
      decode_poll_one_off decode_proc_exit decode_proc_raise decode_sched_yield decode_random_get
      decode_sock_accept decode_sock_recv decode_sock_send decode_sock_shutdown decode_sock_open
      decode_sock_bind decode_sock_connect decode_sock_listen decode_sock_send_to
      decode_sock_recv_from decode_sock_get_opt decode_sock_set_opt decode_sock_local_address
      decode_sock_remote_address decode_sock_address_info
  decode_call-short SyscallId.args_sizes_get buffer short =
      rw (short_word w.errno buffer short) refl
  decode_call-short _ buffer short = rw (short_word w.errno buffer short) refl

  -- The reader refuses a record of fewer than four bytes, which cannot hold the errno, with a short
  -- buffer, whatever the call.
  pub decode_record-short :
      (id : SyscallId) (buffer : List ℕ)
      → length buffer < 4
      → decode_record (id_number id) buffer ≡ err (decode_error short_buffer)
  unfolding decode_record
  decode_record-short id buffer short =
      rw (from_number-id_number id, decode_record) (decode_call-short id buffer short)
