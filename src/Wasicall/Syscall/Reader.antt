-- ===== src/Wasicall/Syscall/Reader.antt =====
-- internal/timemachine/wasicall/reader.go: Decoder.Decode. The slices that it keeps for the next
-- call only save allocations.
use timecraft.Common.{List, length, none, some, ℕ}
use timecraft.Common.Result.{Result, err, ok, ◌>>=◌}
use timecraft.Wasicall.Calls.Env.{
  decode_args_get, decode_args_sizes_get, decode_clock_res_get, decode_clock_time_get,
  decode_environ_get, decode_environ_sizes_get,
}
use timecraft.Wasicall.Calls.File.{
  decode_fd_advise, decode_fd_allocate, decode_fd_close, decode_fd_data_sync,
  decode_fd_file_stat_get, decode_fd_file_stat_set_size, decode_fd_file_stat_set_times,
  decode_fd_pre_stat_dir_name, decode_fd_pre_stat_get, decode_fd_stat_get, decode_fd_stat_set_flags,
  decode_fd_stat_set_rights,
}
use timecraft.Wasicall.Calls.Io.{
  decode_fd_pread, decode_fd_pwrite, decode_fd_read, decode_fd_read_dir, decode_fd_renumber,
  decode_fd_seek, decode_fd_sync, decode_fd_tell, decode_fd_write,
}
use timecraft.Wasicall.Calls.Paths.{
  decode_path_create_directory, decode_path_file_stat_get, decode_path_file_stat_set_times,
  decode_path_link, decode_path_open, decode_path_read_link, decode_path_remove_directory,
  decode_path_rename, decode_path_symlink, decode_path_unlink_file,
}
use timecraft.Wasicall.Calls.Process.{
  decode_poll_one_off, decode_proc_exit, decode_proc_raise, decode_random_get, decode_sched_yield,
}
use timecraft.Wasicall.Calls.Sock.{
  decode_sock_accept, decode_sock_bind, decode_sock_connect, decode_sock_listen, decode_sock_open,
  decode_sock_recv, decode_sock_recv_from, decode_sock_send, decode_sock_send_to,
  decode_sock_shutdown,
}
use timecraft.Wasicall.Calls.SockInfo.{
  decode_sock_address_info, decode_sock_get_opt, decode_sock_local_address,
  decode_sock_remote_address, decode_sock_set_opt,
}
use timecraft.Wasicall.Syscall.Call.{
  Syscall, args_get, args_sizes_get, clock_res_get, clock_time_get, environ_get, environ_sizes_get,
  fd_advise, fd_allocate, fd_close, fd_data_sync, fd_file_stat_get, fd_file_stat_set_size,
  fd_file_stat_set_times, fd_pre_stat_dir_name, fd_pre_stat_get, fd_pread, fd_pwrite, fd_read,
  fd_read_dir, fd_renumber, fd_seek, fd_stat_get, fd_stat_set_flags, fd_stat_set_rights, fd_sync,
  fd_tell, fd_write, path_create_directory, path_file_stat_get, path_file_stat_set_times, path_link,
  path_open, path_read_link, path_remove_directory, path_rename, path_symlink, path_unlink_file,
  poll_one_off, proc_exit, proc_raise, random_get, sched_yield, sock_accept, sock_address_info,
  sock_bind, sock_connect, sock_get_opt, sock_listen, sock_local_address, sock_open, sock_recv,
  sock_recv_from, sock_remote_address, sock_send, sock_send_to, sock_set_opt, sock_shutdown,
}
use timecraft.Wasicall.Syscall.Ids.{SyscallId, from_number}
use timecraft.Wasicall.Wasi.{Wasi}
use timecraft.Wasicall.Words.{CodecError}

pub data DecodeError : Type 0 where
  decode_error : CodecError → DecodeError
  unknown_syscall : ℕ → DecodeError

abbrev pub wrap {ℓ} : {A : Type ℓ} → Result CodecError A → Result DecodeError A
wrap (ok a) = ok a
wrap (err e) = err (decode_error e)

module _ ⦃w : Wasi⦄ where
  -- The cases of the switch.
  unfoldable pub decode_call : SyscallId → List ℕ → Result DecodeError Syscall
  decode_call SyscallId.args_sizes_get buffer = do
    (arg_count, string_bytes, errno) ← wrap (decode_args_sizes_get buffer)
    ok (args_sizes_get arg_count string_bytes errno)
  decode_call SyscallId.args_get buffer = do
    (args, errno) ← wrap (decode_args_get buffer)
    ok (args_get args errno)
  decode_call SyscallId.environ_sizes_get buffer = do
    (env_count, string_bytes, errno) ← wrap (decode_environ_sizes_get buffer)
    ok (environ_sizes_get env_count string_bytes errno)
  decode_call SyscallId.environ_get buffer = do
    (env, errno) ← wrap (decode_environ_get buffer)
    ok (environ_get env errno)
  decode_call SyscallId.clock_res_get buffer = do
    (id, timestamp, errno) ← wrap (decode_clock_res_get buffer)
    ok (clock_res_get id timestamp errno)
  decode_call SyscallId.clock_time_get buffer = do
    (id, precision, timestamp, errno) ← wrap (decode_clock_time_get buffer)
    ok (clock_time_get id precision timestamp errno)
  decode_call SyscallId.fd_advise buffer = do
    (fd, offset, length, advice, errno) ← wrap (decode_fd_advise buffer)
    ok (fd_advise fd offset length advice errno)
  decode_call SyscallId.fd_allocate buffer = do
    (fd, offset, length, errno) ← wrap (decode_fd_allocate buffer)
    ok (fd_allocate fd offset length errno)
  decode_call SyscallId.fd_close buffer = do
    (fd, errno) ← wrap (decode_fd_close buffer)
    ok (fd_close fd errno)
  decode_call SyscallId.fd_data_sync buffer = do
    (fd, errno) ← wrap (decode_fd_data_sync buffer)
    ok (fd_data_sync fd errno)
  decode_call SyscallId.fd_stat_get buffer = do
    (fd, stat, errno) ← wrap (decode_fd_stat_get buffer)
    ok (fd_stat_get fd stat errno)
  decode_call SyscallId.fd_stat_set_flags buffer = do
    (fd, flags, errno) ← wrap (decode_fd_stat_set_flags buffer)
    ok (fd_stat_set_flags fd flags errno)
  decode_call SyscallId.fd_stat_set_rights buffer = do
    (fd, rights_base, rights_inheriting, errno) ← wrap (decode_fd_stat_set_rights buffer)
    ok (fd_stat_set_rights fd rights_base rights_inheriting errno)
  decode_call SyscallId.fd_file_stat_get buffer = do
    (fd, stat, errno) ← wrap (decode_fd_file_stat_get buffer)
    ok (fd_file_stat_get fd stat errno)
  decode_call SyscallId.fd_file_stat_set_size buffer = do
    (fd, size, errno) ← wrap (decode_fd_file_stat_set_size buffer)
    ok (fd_file_stat_set_size fd size errno)
  decode_call SyscallId.fd_file_stat_set_times buffer = do
    (fd, access_time, modify_time, flags, errno) ← wrap (decode_fd_file_stat_set_times buffer)
    ok (fd_file_stat_set_times fd access_time modify_time flags errno)
  decode_call SyscallId.fd_pread buffer = do
    (fd, iovecs, offset, size, errno) ← wrap (decode_fd_pread buffer)
    ok (fd_pread fd iovecs offset size errno)
  decode_call SyscallId.fd_pre_stat_get buffer = do
    (fd, stat, errno) ← wrap (decode_fd_pre_stat_get buffer)
    ok (fd_pre_stat_get fd stat errno)
  decode_call SyscallId.fd_pre_stat_dir_name buffer = do
    (fd, name, errno) ← wrap (decode_fd_pre_stat_dir_name buffer)
    ok (fd_pre_stat_dir_name fd name errno)
  decode_call SyscallId.fd_pwrite buffer = do
    (fd, iovecs, offset, size, errno) ← wrap (decode_fd_pwrite buffer)
    ok (fd_pwrite fd iovecs offset size errno)
  decode_call SyscallId.fd_read buffer = do
    (fd, iovecs, size, errno) ← wrap (decode_fd_read buffer)
    ok (fd_read fd iovecs size errno)
  decode_call SyscallId.fd_read_dir buffer = do
    (fd, entries, cookie, buffer_size_bytes, errno) ← wrap (decode_fd_read_dir buffer)
    ok (fd_read_dir fd entries cookie buffer_size_bytes errno)
  decode_call SyscallId.fd_renumber buffer = do
    (from, to, errno) ← wrap (decode_fd_renumber buffer)
    ok (fd_renumber from to errno)
  decode_call SyscallId.fd_seek buffer = do
    (fd, seek_offset, whence, offset, errno) ← wrap (decode_fd_seek buffer)
    ok (fd_seek fd seek_offset whence offset errno)
  decode_call SyscallId.fd_sync buffer = do
    (fd, errno) ← wrap (decode_fd_sync buffer)
    ok (fd_sync fd errno)
  decode_call SyscallId.fd_tell buffer = do
    (fd, offset, errno) ← wrap (decode_fd_tell buffer)
    ok (fd_tell fd offset errno)
  decode_call SyscallId.fd_write buffer = do
    (fd, iovecs, size, errno) ← wrap (decode_fd_write buffer)
    ok (fd_write fd iovecs size errno)
  decode_call SyscallId.path_create_directory buffer = do
    (fd, path, errno) ← wrap (decode_path_create_directory buffer)
    ok (path_create_directory fd path errno)
  decode_call SyscallId.path_file_stat_get buffer = do
    (fd, lookup_flags, path, file_stat, errno) ← wrap (decode_path_file_stat_get buffer)
    ok (path_file_stat_get fd lookup_flags path file_stat errno)
  decode_call SyscallId.path_file_stat_set_times buffer = do
    (fd, lookup_flags, path, access_time, modify_time, flags, errno) ←
        wrap (decode_path_file_stat_set_times buffer)
    ok (path_file_stat_set_times fd lookup_flags path access_time modify_time flags errno)
  decode_call SyscallId.path_link buffer = do
    (old_fd, old_flags, old_path, new_fd, new_path, errno) ← wrap (decode_path_link buffer)
    ok (path_link old_fd old_flags old_path new_fd new_path errno)
  decode_call SyscallId.path_open buffer = do
    (fd, dir_flags, path, open_flags, rights_base, rights_inheriting, fd_flags, newfd, errno) ←
        wrap (decode_path_open buffer)
    ok (path_open fd dir_flags path open_flags rights_base rights_inheriting fd_flags newfd errno)
  decode_call SyscallId.path_read_link buffer = do
    (fd, path, output, errno) ← wrap (decode_path_read_link buffer)
    ok (path_read_link fd path output errno)
  decode_call SyscallId.path_remove_directory buffer = do
    (fd, path, errno) ← wrap (decode_path_remove_directory buffer)
    ok (path_remove_directory fd path errno)
  decode_call SyscallId.path_rename buffer = do
    (fd, old_path, new_fd, new_path, errno) ← wrap (decode_path_rename buffer)
    ok (path_rename fd old_path new_fd new_path errno)
  decode_call SyscallId.path_symlink buffer = do
    (old_path, fd, new_path, errno) ← wrap (decode_path_symlink buffer)
    ok (path_symlink old_path fd new_path errno)
  decode_call SyscallId.path_unlink_file buffer = do
    (fd, path, errno) ← wrap (decode_path_unlink_file buffer)
    ok (path_unlink_file fd path errno)
  decode_call SyscallId.poll_one_off buffer = do
    (subscriptions, events, errno) ← wrap (decode_poll_one_off buffer)
    ok (poll_one_off subscriptions events errno)
  decode_call SyscallId.proc_exit buffer = do
    (exit_code, errno) ← wrap (decode_proc_exit buffer)
    ok (proc_exit exit_code errno)
  decode_call SyscallId.proc_raise buffer = do
    (signal, errno) ← wrap (decode_proc_raise buffer)
    ok (proc_raise signal errno)
  decode_call SyscallId.sched_yield buffer = do
    errno ← wrap (decode_sched_yield buffer)
    ok (sched_yield errno)
  decode_call SyscallId.random_get buffer = do
    (result, errno) ← wrap (decode_random_get buffer)
    ok (random_get result errno)
  decode_call SyscallId.sock_accept buffer = do
    (fd, flags, newfd, peer, addr, errno) ← wrap (decode_sock_accept buffer)
    ok (sock_accept fd flags newfd peer addr errno)
  decode_call SyscallId.sock_recv buffer = do
    (fd, iovecs, iflags, size, oflags, errno) ← wrap (decode_sock_recv buffer)
    ok (sock_recv fd iovecs iflags size oflags errno)
  decode_call SyscallId.sock_send buffer = do
    (fd, iovecs, flags, size, errno) ← wrap (decode_sock_send buffer)
    ok (sock_send fd iovecs flags size errno)
  decode_call SyscallId.sock_shutdown buffer = do
    (fd, flags, errno) ← wrap (decode_sock_shutdown buffer)
    ok (sock_shutdown fd flags errno)
  decode_call SyscallId.sock_open buffer = do
    (family, socket_type, protocol, rights_base, rights_inheriting, fd, errno) ←
        wrap (decode_sock_open buffer)
    ok (sock_open family socket_type protocol rights_base rights_inheriting fd errno)
  decode_call SyscallId.sock_bind buffer = do
    (fd, bind, addr, errno) ← wrap (decode_sock_bind buffer)
    ok (sock_bind fd bind addr errno)
  decode_call SyscallId.sock_connect buffer = do
    (fd, peer, addr, errno) ← wrap (decode_sock_connect buffer)
    ok (sock_connect fd peer addr errno)
  decode_call SyscallId.sock_listen buffer = do
    (fd, backlog, errno) ← wrap (decode_sock_listen buffer)
    ok (sock_listen fd backlog errno)
  decode_call SyscallId.sock_send_to buffer = do
    (fd, iovecs, iflags, addr, size, errno) ← wrap (decode_sock_send_to buffer)
    ok (sock_send_to fd iovecs iflags addr size errno)
  decode_call SyscallId.sock_recv_from buffer = do
    (fd, iovecs, iflags, size, oflags, addr, errno) ← wrap (decode_sock_recv_from buffer)
    ok (sock_recv_from fd iovecs iflags size oflags addr errno)
  decode_call SyscallId.sock_get_opt buffer = do
    (fd, option, value, errno) ← wrap (decode_sock_get_opt buffer)
    ok (sock_get_opt fd option value errno)
  decode_call SyscallId.sock_set_opt buffer = do
    (fd, option, value, errno) ← wrap (decode_sock_set_opt buffer)
    ok (sock_set_opt fd option value errno)
  decode_call SyscallId.sock_local_address buffer = do
    (fd, addr, errno) ← wrap (decode_sock_local_address buffer)
    ok (sock_local_address fd addr errno)
  decode_call SyscallId.sock_remote_address buffer = do
    (fd, addr, errno) ← wrap (decode_sock_remote_address buffer)
    ok (sock_remote_address fd addr errno)
  decode_call SyscallId.sock_address_info buffer = do
    (name, service, hint, results, errno) ← wrap (decode_sock_address_info buffer)
    ok (sock_address_info name service hint results errno)

  unfoldable pub decode_record : ℕ → List ℕ → Result DecodeError Syscall
  unfolding decode_call
  decode_record function_id buffer = elim (from_number function_id) [
    | none ↦ err (unknown_syscall function_id)
    | some id ↦ decode_call id buffer
  ]
