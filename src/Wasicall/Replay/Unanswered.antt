-- ===== src/Wasicall/Replay/Unanswered.antt =====
-- A replay whose log does not go on with the call that is made.
use timecraft.Common.{Bool, List, [], ap, arith, false, none, refl, some, ℕ, ◌==◌, ◌∷◌, ◌≡◌, ◌≢◌}
use timecraft.Common.Result.{Result, err, ok}
use timecraft.Wasicall.Errno.{errno_system}
use timecraft.Wasicall.Replay.Dispatch.{replay}
use timecraft.Wasicall.Replay.Env.{
  replay_args_get, replay_args_sizes_get, replay_clock_res_get, replay_clock_time_get,
  replay_environ_get, replay_environ_sizes_get,
}
use timecraft.Wasicall.Replay.File.{
  replay_fd_advise, replay_fd_allocate, replay_fd_close, replay_fd_data_sync,
  replay_fd_file_stat_get, replay_fd_file_stat_set_size, replay_fd_file_stat_set_times,
  replay_fd_pre_stat_dir_name, replay_fd_pre_stat_get, replay_fd_stat_get, replay_fd_stat_set_flags,
  replay_fd_stat_set_rights,
}
use timecraft.Wasicall.Replay.Io.{
  replay_fd_pread, replay_fd_pwrite, replay_fd_read, replay_fd_read_dir, replay_fd_renumber,
  replay_fd_seek, replay_fd_sync, replay_fd_tell, replay_fd_write,
}
use timecraft.Wasicall.Replay.Paths.{
  replay_path_create_directory, replay_path_file_stat_get, replay_path_file_stat_set_times,
  replay_path_link, replay_path_open, replay_path_read_link, replay_path_remove_directory,
  replay_path_rename, replay_path_symlink, replay_path_unlink_file,
}
use timecraft.Wasicall.Replay.Process.{
  replay_poll_one_off, replay_proc_exit, replay_proc_raise, replay_random_get, replay_sched_yield,
}
use timecraft.Wasicall.Replay.Sock.{
  replay_sock_accept, replay_sock_bind, replay_sock_connect, replay_sock_listen, replay_sock_open,
  replay_sock_recv, replay_sock_recv_from, replay_sock_send, replay_sock_send_to,
  replay_sock_shutdown,
}
use timecraft.Wasicall.Replay.SockInfo.{
  replay_sock_address_info, replay_sock_get_opt, replay_sock_local_address,
  replay_sock_remote_address, replay_sock_set_opt,
}
use timecraft.Wasicall.Replay.State.{Replay, advance, answering, read_record, replaying}
use timecraft.Wasicall.Syscall.Ids.{SyscallId, id_number}
use timecraft.Wasicall.Syscall.Log.{Record}
use timecraft.Wasicall.System.Exchange.{request_id}
use timecraft.Wasicall.System.Request.{Outcome, Panic, Request, read_failed, unexpected_syscall}
use timecraft.Wasicall.Wasi.{Wasi}
use timecraft.Wasicall.Words.{CodecError}

==-other : (a b : ℕ) → a ≢ b → (a == b) ≡ false
==-other a b other = ground arith

module _ ⦃w : Wasi⦄ {Time Fault W : Type 0} where
  read_record-end :
      (id : SyscallId) (r : Replay Time Fault W)
      → r.records ≡ record { items = []; fault = none }
      → read_record id r ≡ (ok none, r)
  unfolding read_record
  read_record-end id r e = rw e refl

  read_record-fault :
      (id : SyscallId) (r : Replay Time Fault W) (fault : Fault)
      → r.records ≡ record { items = []; fault = some fault }
      → read_record id r ≡ (err (read_failed fault), r)
  unfolding read_record
  read_record-fault id r fault e = rw e refl

  read_record-other :
      (id : SyscallId) (r : Replay Time Fault W) (item : Record Time) (rest : List (Record Time))
      → r.records.items ≡ item ∷ rest
      → item.function_id ≢ id_number id
      → read_record id r ≡ (err (unexpected_syscall item.function_id id), advance rest r)
  unfolding read_record
  read_record-other id r item rest e other =
      rw (e, ==-other item.function_id (id_number id) other) refl

module _ ⦃w : Wasi⦄ {Time Fault W : Type 0} where
  -- Where the record cannot be used, the outcome of reading it is that of the call.
  pub replaying-panic :
      {A B : Type 0} (id : SyscallId) (default : B) (decode : List ℕ → Result CodecError A)
      (r : Replay Time Fault W)
      (continue : A → Replay Time Fault W → Outcome Fault B (Replay Time Fault W))
      {panic : Panic Fault} {r1 : Replay Time Fault W}
      → read_record id r ≡ (err panic, r1)
      → replaying id default decode r continue ≡ (err panic, r1)
  unfolding replaying answering
  replaying-panic id default decode r continue e = ap (answering default decode continue) e

  pub replaying-end :
      {A B : Type 0} (id : SyscallId) (default : B) (decode : List ℕ → Result CodecError A)
      (r : Replay Time Fault W)
      (continue : A → Replay Time Fault W → Outcome Fault B (Replay Time Fault W))
      → r.records ≡ record { items = []; fault = none }
      → replaying id default decode r continue ≡ (ok default, r)
  unfolding replaying answering
  replaying-end id default decode r continue e =
      ap (answering default decode continue) (read_record-end id r e)

module _ ⦃w : Wasi⦄ {Time Fault W : Type 0} (write : W → List ℕ → W × Bool) where
  -- At the end of the log a replay answers every call like the system that returns ENOSYS, and
  -- stays as it is.
  pub replay-end :
      (q : Request) (r : Replay Time Fault W)
      → r.records ≡ record { items = []; fault = none }
      → replay write q r ≡ errno_system w.enosys q r
  unfolding replay errno_system replay_args_sizes_get replay_args_get replay_environ_sizes_get
      replay_environ_get replay_clock_res_get replay_clock_time_get replay_fd_advise
      replay_fd_allocate replay_fd_close replay_fd_data_sync replay_fd_stat_get
      replay_fd_stat_set_flags replay_fd_stat_set_rights replay_fd_file_stat_get
      replay_fd_file_stat_set_size replay_fd_file_stat_set_times replay_fd_pread
      replay_fd_pre_stat_get replay_fd_pre_stat_dir_name replay_fd_pwrite replay_fd_read
      replay_fd_read_dir replay_fd_renumber replay_fd_seek replay_fd_sync replay_fd_tell
      replay_fd_write replay_path_create_directory replay_path_file_stat_get
      replay_path_file_stat_set_times replay_path_link replay_path_open replay_path_read_link
      replay_path_remove_directory replay_path_rename replay_path_symlink replay_path_unlink_file
      replay_poll_one_off replay_proc_exit replay_proc_raise replay_sched_yield replay_random_get
      replay_sock_accept replay_sock_recv replay_sock_send replay_sock_shutdown replay_sock_open
      replay_sock_bind replay_sock_connect replay_sock_listen replay_sock_send_to
      replay_sock_recv_from replay_sock_get_opt replay_sock_set_opt replay_sock_local_address
      replay_sock_remote_address replay_sock_address_info
  replay-end Request.args_sizes_get r ended = replaying-end _ _ _ _ _ ended
  replay-end _ r ended = replaying-end _ _ _ _ _ ended

  panic_of_read :
      (q : Request) (r r1 : Replay Time Fault W) (panic : Panic Fault)
      → read_record (request_id q) r ≡ (err panic, r1)
      → replay write q r ≡ (err panic, r1)
  unfolding replay request_id replay_args_sizes_get replay_args_get replay_environ_sizes_get
      replay_environ_get replay_clock_res_get replay_clock_time_get replay_fd_advise
      replay_fd_allocate replay_fd_close replay_fd_data_sync replay_fd_stat_get
      replay_fd_stat_set_flags replay_fd_stat_set_rights replay_fd_file_stat_get
      replay_fd_file_stat_set_size replay_fd_file_stat_set_times replay_fd_pread
      replay_fd_pre_stat_get replay_fd_pre_stat_dir_name replay_fd_pwrite replay_fd_read
      replay_fd_read_dir replay_fd_renumber replay_fd_seek replay_fd_sync replay_fd_tell
      replay_fd_write replay_path_create_directory replay_path_file_stat_get
      replay_path_file_stat_set_times replay_path_link replay_path_open replay_path_read_link
      replay_path_remove_directory replay_path_rename replay_path_symlink replay_path_unlink_file
      replay_poll_one_off replay_proc_exit replay_proc_raise replay_sched_yield replay_random_get
      replay_sock_accept replay_sock_recv replay_sock_send replay_sock_shutdown replay_sock_open
      replay_sock_bind replay_sock_connect replay_sock_listen replay_sock_send_to
      replay_sock_recv_from replay_sock_get_opt replay_sock_set_opt replay_sock_local_address
      replay_sock_remote_address replay_sock_address_info
  panic_of_read Request.args_sizes_get r r1 panic e = replaying-panic _ _ _ _ _ e
  panic_of_read _ r r1 panic e = replaying-panic _ _ _ _ _ e

  -- If the reader of the log fails, every call panics with its error, and the replay stays as it is.
  pub replay-failed :
      (q : Request) (r : Replay Time Fault W) (fault : Fault)
      → r.records ≡ record { items = []; fault = some fault }
      → replay write q r ≡ (err (read_failed fault), r)
  replay-failed q r fault failed =
      panic_of_read q r r (read_failed fault) (read_record-fault (request_id q) r fault failed)

  -- If the next record is of another call than the one made, the replay panics with both, and has
  -- read that record and no other.
  pub replay-unexpected :
      (q : Request) (r : Replay Time Fault W) (item : Record Time) (rest : List (Record Time))
      → r.records.items ≡ item ∷ rest
      → item.function_id ≢ id_number (request_id q)
      → replay write q r
        ≡ (err (unexpected_syscall item.function_id (request_id q)), advance rest r)
  replay-unexpected q r item rest next other =
      panic_of_read q r (advance rest r) _ (read_record-other (request_id q) r item rest next other)
