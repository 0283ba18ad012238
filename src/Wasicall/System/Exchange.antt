-- ===== src/Wasicall/System/Exchange.antt =====
-- What a recorder writes of a call and its response, and which responses the record determines.
use timecraft.Common.{List, [], drop, if◌then◌else◌, length, ltb, ℕ, ◌-◌, ◌^◌, ◌∷◌, ◌≡◌, ◌≤◌}
use timecraft.Common.Int.{negsuc, pos, ℤ}
use timecraft.Wasicall.Sockets.{no_address}
use timecraft.Wasicall.Syscall.Call.{Syscall}
use timecraft.Wasicall.Syscall.Ids.{SyscallId}
use timecraft.Wasicall.System.{cut}
use timecraft.Wasicall.System.Request.{Request, Response}
use timecraft.Wasicall.Wasi.{Wasi}

-- A read of `size` bytes fills the buffers from the front: they keep their lengths, and what lies
-- behind these bytes.
abbrev pub Fills : List (List ℕ) → List (List ℕ) → ℕ → Type 0
Fills [] [] size = Unit
Fills [] (y ∷ after) size = ⊥
Fills (x ∷ before) [] size = ⊥
Fills (x ∷ before) (y ∷ after) size =
    (length y ≡ length x) × (drop size y ≡ drop size x) × Fills before after (size - length x)

-- The count of the elements put at the front of a slice, which keeps its length and the rest.
abbrev pub Counted : {A : Type 0} → ℤ → List A → List A → Type 0
Counted (pos n) before after =
    (n ≤ length after) × (length after ≡ length before) × (drop n after ≡ drop n before)
Counted (negsuc n) before after = ⊥

-- The bytes of a read as its count has them as an int32: none where that is negative.
abbrev pub positive_count : ℕ → ℕ
positive_count size = if ltb size (2 ^ 31) then size else 0

module _ ⦃w : Wasi⦄ where
  unfoldable pub request_id : Request → SyscallId
  request_id Request.args_sizes_get = SyscallId.args_sizes_get
  request_id Request.args_get = SyscallId.args_get
  request_id Request.environ_sizes_get = SyscallId.environ_sizes_get
  request_id Request.environ_get = SyscallId.environ_get
  request_id (Request.clock_res_get _) = SyscallId.clock_res_get
  request_id (Request.clock_time_get _ _) = SyscallId.clock_time_get
  request_id (Request.fd_advise _ _ _ _) = SyscallId.fd_advise
  request_id (Request.fd_allocate _ _ _) = SyscallId.fd_allocate
  request_id (Request.fd_close _) = SyscallId.fd_close
  request_id (Request.fd_data_sync _) = SyscallId.fd_data_sync
  request_id (Request.fd_stat_get _) = SyscallId.fd_stat_get
  request_id (Request.fd_stat_set_flags _ _) = SyscallId.fd_stat_set_flags
  request_id (Request.fd_stat_set_rights _ _ _) = SyscallId.fd_stat_set_rights
  request_id (Request.fd_file_stat_get _) = SyscallId.fd_file_stat_get
  request_id (Request.fd_file_stat_set_size _ _) = SyscallId.fd_file_stat_set_size
  request_id (Request.fd_file_stat_set_times _ _ _ _) = SyscallId.fd_file_stat_set_times
  request_id (Request.fd_pread _ _ _) = SyscallId.fd_pread
  request_id (Request.fd_pre_stat_get _) = SyscallId.fd_pre_stat_get
  request_id (Request.fd_pre_stat_dir_name _) = SyscallId.fd_pre_stat_dir_name
  request_id (Request.fd_pwrite _ _ _) = SyscallId.fd_pwrite
  request_id (Request.fd_read _ _) = SyscallId.fd_read
  request_id (Request.fd_read_dir _ _ _ _) = SyscallId.fd_read_dir
  request_id (Request.fd_renumber _ _) = SyscallId.fd_renumber
  request_id (Request.fd_seek _ _ _) = SyscallId.fd_seek
  request_id (Request.fd_sync _) = SyscallId.fd_sync
  request_id (Request.fd_tell _) = SyscallId.fd_tell
  request_id (Request.fd_write _ _) = SyscallId.fd_write
  request_id (Request.path_create_directory _ _) = SyscallId.path_create_directory
  request_id (Request.path_file_stat_get _ _ _) = SyscallId.path_file_stat_get
  request_id (Request.path_file_stat_set_times _ _ _ _ _ _) = SyscallId.path_file_stat_set_times
  request_id (Request.path_link _ _ _ _ _) = SyscallId.path_link
  request_id (Request.path_open _ _ _ _ _ _ _) = SyscallId.path_open
  request_id (Request.path_read_link _ _ _) = SyscallId.path_read_link
  request_id (Request.path_remove_directory _ _) = SyscallId.path_remove_directory
  request_id (Request.path_rename _ _ _ _) = SyscallId.path_rename
  request_id (Request.path_symlink _ _ _) = SyscallId.path_symlink
  request_id (Request.path_unlink_file _ _) = SyscallId.path_unlink_file
  request_id (Request.poll_one_off _ _) = SyscallId.poll_one_off
  request_id (Request.proc_exit _) = SyscallId.proc_exit
  request_id (Request.proc_raise _) = SyscallId.proc_raise
  request_id Request.sched_yield = SyscallId.sched_yield
  request_id (Request.random_get _) = SyscallId.random_get
  request_id (Request.sock_accept _ _) = SyscallId.sock_accept
  request_id (Request.sock_recv _ _ _) = SyscallId.sock_recv
  request_id (Request.sock_send _ _ _) = SyscallId.sock_send
  request_id (Request.sock_shutdown _ _) = SyscallId.sock_shutdown
  request_id (Request.sock_open _ _ _ _ _) = SyscallId.sock_open
  request_id (Request.sock_bind _ _) = SyscallId.sock_bind
  request_id (Request.sock_connect _ _) = SyscallId.sock_connect
  request_id (Request.sock_listen _ _) = SyscallId.sock_listen
  request_id (Request.sock_send_to _ _ _ _) = SyscallId.sock_send_to
  request_id (Request.sock_recv_from _ _ _) = SyscallId.sock_recv_from
  request_id (Request.sock_get_opt _ _) = SyscallId.sock_get_opt
  request_id (Request.sock_set_opt _ _ _) = SyscallId.sock_set_opt
  request_id (Request.sock_local_address _) = SyscallId.sock_local_address
  request_id (Request.sock_remote_address _) = SyscallId.sock_remote_address
  request_id (Request.sock_address_info _ _ _ _) = SyscallId.sock_address_info

  -- The call whose encoding the recorder writes.
  unfoldable pub made : (q : Request) → Response q → Syscall
  unfolding cut
  made Request.args_sizes_get (arg_count, string_bytes, errno) =
      Syscall.args_sizes_get arg_count string_bytes errno
  made Request.args_get (args, errno) = Syscall.args_get args errno
  made Request.environ_sizes_get (env_count, string_bytes, errno) =
      Syscall.environ_sizes_get env_count string_bytes errno
  made Request.environ_get (env, errno) = Syscall.environ_get env errno
  made (Request.clock_res_get id) (timestamp, errno) = Syscall.clock_res_get id timestamp errno
  made (Request.clock_time_get id precision) (timestamp, errno) =
      Syscall.clock_time_get id precision timestamp errno
  made (Request.fd_advise fd offset length advice) errno =
      Syscall.fd_advise fd offset length advice errno
  made (Request.fd_allocate fd offset length) errno = Syscall.fd_allocate fd offset length errno
  made (Request.fd_close fd) errno = Syscall.fd_close fd errno
  made (Request.fd_data_sync fd) errno = Syscall.fd_data_sync fd errno
  made (Request.fd_stat_get fd) (stat, errno) = Syscall.fd_stat_get fd stat errno
  made (Request.fd_stat_set_flags fd flags) errno = Syscall.fd_stat_set_flags fd flags errno
  made (Request.fd_stat_set_rights fd rights_base rights_inheriting) errno =
      Syscall.fd_stat_set_rights fd rights_base rights_inheriting errno
  made (Request.fd_file_stat_get fd) (stat, errno) = Syscall.fd_file_stat_get fd stat errno
  made (Request.fd_file_stat_set_size fd size) errno = Syscall.fd_file_stat_set_size fd size errno
  made (Request.fd_file_stat_set_times fd access_time modify_time flags) errno =
      Syscall.fd_file_stat_set_times fd access_time modify_time flags errno
  made (Request.fd_pread fd _ offset) (iovecs_after, size, errno) =
      Syscall.fd_pread fd iovecs_after offset size errno
  made (Request.fd_pre_stat_get fd) (stat, errno) = Syscall.fd_pre_stat_get fd stat errno
  made (Request.fd_pre_stat_dir_name fd) (name, errno) = Syscall.fd_pre_stat_dir_name fd name errno
  made (Request.fd_pwrite fd iovecs offset) (n, errno) = Syscall.fd_pwrite fd iovecs offset n errno
  made (Request.fd_read fd _) (iovecs_after, n, errno) = Syscall.fd_read fd iovecs_after n errno
  made (Request.fd_read_dir fd _ cookie buffer_size_bytes) (entries_after, n, errno) =
      Syscall.fd_read_dir fd (cut n entries_after) cookie buffer_size_bytes errno
  made (Request.fd_renumber from to) errno = Syscall.fd_renumber from to errno
  made (Request.fd_seek fd offset whence) (result, errno) =
      Syscall.fd_seek fd offset whence result errno
  made (Request.fd_sync fd) errno = Syscall.fd_sync fd errno
  made (Request.fd_tell fd) (file_size, errno) = Syscall.fd_tell fd file_size errno
  made (Request.fd_write fd iovecs) (n, errno) = Syscall.fd_write fd iovecs n errno
  made (Request.path_create_directory fd path) errno = Syscall.path_create_directory fd path errno
  made (Request.path_file_stat_get fd lookup_flags path) (filestat, errno) =
      Syscall.path_file_stat_get fd lookup_flags path filestat errno
  made (Request.path_file_stat_set_times fd lookup_flags path access_time modify_time flags) errno =
      Syscall.path_file_stat_set_times fd lookup_flags path access_time modify_time flags errno
  made (Request.path_link old_fd old_flags old_path new_fd new_path) errno =
      Syscall.path_link old_fd old_flags old_path new_fd new_path errno
  made (Request.path_open fd dir_flags path open_flags rights_base rights_inheriting fd_flags)
        (newfd, errno) =
      Syscall.path_open fd dir_flags path open_flags rights_base rights_inheriting fd_flags newfd
        errno
  made (Request.path_read_link fd path _) (buffer_after, n, errno) =
      Syscall.path_read_link fd path (cut n buffer_after) errno
  made (Request.path_remove_directory fd path) errno = Syscall.path_remove_directory fd path errno
  made (Request.path_rename fd old_path new_fd new_path) errno =
      Syscall.path_rename fd old_path new_fd new_path errno
  made (Request.path_symlink old_path fd new_path) errno =
      Syscall.path_symlink old_path fd new_path errno
  made (Request.path_unlink_file fd path) errno = Syscall.path_unlink_file fd path errno
  made (Request.poll_one_off subscriptions _) (events_after, n, errno) =
      Syscall.poll_one_off subscriptions (cut n events_after) errno
  made (Request.proc_exit exit_code) _ = Syscall.proc_exit exit_code w.esuccess
  made (Request.proc_raise signal) errno = Syscall.proc_raise signal errno
  made Request.sched_yield errno = Syscall.sched_yield errno
  made (Request.random_get _) (buffer_after, errno) = Syscall.random_get buffer_after errno
  made (Request.sock_accept fd flags) (newfd, peer, addr, errno) =
      Syscall.sock_accept fd flags newfd peer addr errno
  made (Request.sock_recv fd _ iflags) (iovecs_after, n, oflags, errno) =
      Syscall.sock_recv fd iovecs_after iflags n oflags errno
  made (Request.sock_send fd iovecs iflags) (n, errno) = Syscall.sock_send fd iovecs iflags n errno
  made (Request.sock_shutdown fd flags) errno = Syscall.sock_shutdown fd flags errno
  made (Request.sock_open protocol_family socket_type protocol rights_base rights_inheriting)
        (fd, errno) =
      Syscall.sock_open protocol_family socket_type protocol rights_base rights_inheriting fd errno
  made (Request.sock_bind fd bind) (addr, errno) = Syscall.sock_bind fd bind addr errno
  made (Request.sock_connect fd peer) (addr, errno) = Syscall.sock_connect fd peer addr errno
  made (Request.sock_listen fd backlog) errno = Syscall.sock_listen fd backlog errno
  made (Request.sock_send_to fd iovecs iflags addr) (n, errno) =
      Syscall.sock_send_to fd iovecs iflags addr n errno
  made (Request.sock_recv_from fd _ iflags) (iovecs_after, n, oflags, addr, errno) =
      Syscall.sock_recv_from fd iovecs_after iflags n oflags addr errno
  made (Request.sock_get_opt fd option) (value, errno) = Syscall.sock_get_opt fd option value errno
  made (Request.sock_set_opt fd option value) errno = Syscall.sock_set_opt fd option value errno
  made (Request.sock_local_address fd) (addr, errno) = Syscall.sock_local_address fd addr errno
  made (Request.sock_remote_address fd) (addr, errno) = Syscall.sock_remote_address fd addr errno
  made (Request.sock_address_info name service hints _) (buffer_after, n, errno) =
      Syscall.sock_address_info name service hints (cut n buffer_after) errno

  -- The responses that a strict replay can give again from their record. A read changes no byte of
  -- its buffers but the first ones, as many as its count says (none if the count is negative as an
  -- int32, as the ^Size(0) of a failed read). The count of directory entries, link bytes, events or
  -- addresses is not negative and within the slice, of which nothing else changes. RandomGet keeps
  -- the length of its buffer. The hints of SockAddressInfo carry no address. ProcExit does not
  -- return. All other responses are determined.
  abbrev pub IsReproducible : (q : Request) → Response q → Type 0
  IsReproducible Request.args_sizes_get _ = Unit
  IsReproducible Request.args_get _ = Unit
  IsReproducible Request.environ_sizes_get _ = Unit
  IsReproducible Request.environ_get _ = Unit
  IsReproducible (Request.clock_res_get _) _ = Unit
  IsReproducible (Request.clock_time_get _ _) _ = Unit
  IsReproducible (Request.fd_advise _ _ _ _) _ = Unit
  IsReproducible (Request.fd_allocate _ _ _) _ = Unit
  IsReproducible (Request.fd_close _) _ = Unit
  IsReproducible (Request.fd_data_sync _) _ = Unit
  IsReproducible (Request.fd_stat_get _) _ = Unit
  IsReproducible (Request.fd_stat_set_flags _ _) _ = Unit
  IsReproducible (Request.fd_stat_set_rights _ _ _) _ = Unit
  IsReproducible (Request.fd_file_stat_get _) _ = Unit
  IsReproducible (Request.fd_file_stat_set_size _ _) _ = Unit
  IsReproducible (Request.fd_file_stat_set_times _ _ _ _) _ = Unit
  IsReproducible (Request.fd_pread _ iovecs _) (iovecs_after, size, _) =
      Fills iovecs iovecs_after (positive_count size)
  IsReproducible (Request.fd_pre_stat_get _) _ = Unit
  IsReproducible (Request.fd_pre_stat_dir_name _) _ = Unit
  IsReproducible (Request.fd_pwrite _ _ _) _ = Unit
  IsReproducible (Request.fd_read _ iovecs) (iovecs_after, n, _) =
      Fills iovecs iovecs_after (positive_count n)
  IsReproducible (Request.fd_read_dir _ entries _ _) (entries_after, n, _) =
      Counted n entries entries_after
  IsReproducible (Request.fd_renumber _ _) _ = Unit
  IsReproducible (Request.fd_seek _ _ _) _ = Unit
  IsReproducible (Request.fd_sync _) _ = Unit
  IsReproducible (Request.fd_tell _) _ = Unit
  IsReproducible (Request.fd_write _ _) _ = Unit
  IsReproducible (Request.path_create_directory _ _) _ = Unit
  IsReproducible (Request.path_file_stat_get _ _ _) _ = Unit
  IsReproducible (Request.path_file_stat_set_times _ _ _ _ _ _) _ = Unit
  IsReproducible (Request.path_link _ _ _ _ _) _ = Unit
  IsReproducible (Request.path_open _ _ _ _ _ _ _) _ = Unit
  IsReproducible (Request.path_read_link _ _ buffer) (buffer_after, n, _) =
      Counted n buffer buffer_after
  IsReproducible (Request.path_remove_directory _ _) _ = Unit
  IsReproducible (Request.path_rename _ _ _ _) _ = Unit
  IsReproducible (Request.path_symlink _ _ _) _ = Unit
  IsReproducible (Request.path_unlink_file _ _) _ = Unit
  IsReproducible (Request.poll_one_off _ events) (events_after, n, _) =
      Counted n events events_after
  IsReproducible (Request.proc_exit _) _ = ⊥
  IsReproducible (Request.proc_raise _) _ = Unit
  IsReproducible Request.sched_yield _ = Unit
  IsReproducible (Request.random_get buffer) (buffer_after, _) = length buffer_after ≡ length buffer
  IsReproducible (Request.sock_accept _ _) _ = Unit
  IsReproducible (Request.sock_recv _ iovecs _) (iovecs_after, n, _, _) =
      Fills iovecs iovecs_after (positive_count n)
  IsReproducible (Request.sock_send _ _ _) _ = Unit
  IsReproducible (Request.sock_shutdown _ _) _ = Unit
  IsReproducible (Request.sock_open _ _ _ _ _) _ = Unit
  IsReproducible (Request.sock_bind _ _) _ = Unit
  IsReproducible (Request.sock_connect _ _) _ = Unit
  IsReproducible (Request.sock_listen _ _) _ = Unit
  IsReproducible (Request.sock_send_to _ _ _ _) _ = Unit
  IsReproducible (Request.sock_recv_from _ iovecs _) (iovecs_after, n, _, _, _) =
      Fills iovecs iovecs_after (positive_count n)
  IsReproducible (Request.sock_get_opt _ _) _ = Unit
  IsReproducible (Request.sock_set_opt _ _ _) _ = Unit
  IsReproducible (Request.sock_local_address _) _ = Unit
  IsReproducible (Request.sock_remote_address _) _ = Unit
  IsReproducible (Request.sock_address_info _ _ hints buffer) (buffer_after, n, _) =
      Counted n buffer buffer_after × (hints.address ≡ no_address)
