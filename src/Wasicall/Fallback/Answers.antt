-- ===== src/Wasicall/Fallback/Answers.antt =====
-- Who answers behind a fallback.
use timecraft.Common.{Bool, List, [], ap, if◌then◌else◌, none, refl, ℕ, ◌∙◌, ◌≡◌}
use timecraft.Common.Result.{err, ok}
use timecraft.Wasicall.Errno.{errno_system}
use timecraft.Wasicall.Fallback.{or_else, settled}
use timecraft.Wasicall.Fallback.Dispatch.{fallback}
use timecraft.Wasicall.Fallback.Env.{
  fallback_args_get, fallback_args_sizes_get, fallback_clock_res_get, fallback_clock_time_get,
  fallback_environ_get, fallback_environ_sizes_get,
}
use timecraft.Wasicall.Fallback.File.{
  fallback_fd_advise, fallback_fd_allocate, fallback_fd_close, fallback_fd_data_sync,
  fallback_fd_file_stat_get, fallback_fd_file_stat_set_size, fallback_fd_file_stat_set_times,
  fallback_fd_pre_stat_dir_name, fallback_fd_pre_stat_get, fallback_fd_stat_get,
  fallback_fd_stat_set_flags, fallback_fd_stat_set_rights,
}
use timecraft.Wasicall.Fallback.Io.{
  fallback_fd_pread, fallback_fd_pwrite, fallback_fd_read, fallback_fd_read_dir,
  fallback_fd_renumber, fallback_fd_seek, fallback_fd_sync, fallback_fd_tell, fallback_fd_write,
}
use timecraft.Wasicall.Fallback.Paths.{
  fallback_path_create_directory, fallback_path_file_stat_get, fallback_path_file_stat_set_times,
  fallback_path_link, fallback_path_open, fallback_path_read_link, fallback_path_remove_directory,
  fallback_path_rename, fallback_path_symlink, fallback_path_unlink_file,
}
use timecraft.Wasicall.Fallback.Process.{
  fallback_poll_one_off, fallback_proc_exit, fallback_proc_raise, fallback_random_get,
  fallback_sched_yield,
}
use timecraft.Wasicall.Fallback.Sock.{
  fallback_sock_accept, fallback_sock_bind, fallback_sock_connect, fallback_sock_listen,
  fallback_sock_open, fallback_sock_recv, fallback_sock_recv_from, fallback_sock_send,
  fallback_sock_send_to, fallback_sock_shutdown,
}
use timecraft.Wasicall.Fallback.SockInfo.{
  fallback_sock_address_info, fallback_sock_get_opt, fallback_sock_local_address,
  fallback_sock_remote_address, fallback_sock_set_opt,
}
use timecraft.Wasicall.Replay.Buffers.{==-self}
use timecraft.Wasicall.Replay.Dispatch.{replay}
use timecraft.Wasicall.Replay.State.{Replay}
use timecraft.Wasicall.Replay.Unanswered.{replay-end}
use timecraft.Wasicall.System.{same}
use timecraft.Wasicall.System.Guest.{Guest, call, continuing, done, run}
use timecraft.Wasicall.System.Request.{Outcome, Request, System}
use timecraft.Wasicall.Wasi.{Errno, Wasi}

module _ ⦃w : Wasi⦄ {Fault S T : Type 0} where
  -- Where the primary answers ENOSYS, the outcome is the secondary's.
  or_else-next :
      {A : Type 0} (outcome : Outcome Fault A S) (t : T)
      (next : A → Errno × (T → Outcome Fault A T)) {response : A} {s : S}
      {retry : T → Outcome Fault A T}
      → outcome ≡ (ok response, s)
      → next response ≡ (w.enosys, retry)
      → or_else outcome t next ≡ ((retry t).0, (s, (retry t).1))
  unfolding or_else
  or_else-next outcome t next {response = response} {s = s} e calls =
      ap (λ o. or_else o t next) e
      ∙ ap (λ n. settled response s t n) calls
      ∙ rw (==-self (w.errno.to_word w.enosys)) refl

module _ ⦃w : Wasi⦄ {Fault T : Type 0} where
  beside_left :
      {R A B : Type 0} (next_beside : A → R × T → Outcome Fault B (R × T))
      (next : A → T → Outcome Fault B T) (r : R)
      → ((a : A) (t : T) → next_beside a (r, t) ≡ ((next a t).0, (r, (next a t).1)))
      → (outcome : Outcome Fault A T)
      → continuing next_beside (outcome.0, (r, outcome.1))
        ≡ ((continuing next outcome).0, (r, (continuing next outcome).1))
  beside_left next_beside next r each (ok a, t) = each a t
  beside_left next_beside next r each (err panic, t) = refl

module _ ⦃w : Wasi⦄ {Time Fault W T : Type 0} where
  -- With a replay at the end of its log as the primary, every call goes to the secondary, with the
  -- buffers as the caller passed them.
  pub fallback-replay_end :
      (write : W → List ℕ → W × Bool) (secondary : System Fault T) (q : Request)
      (r : Replay Time Fault W) (t : T)
      → r.records ≡ record { items = []; fault = none }
      → fallback (replay write) secondary q (r, t) ≡ ((secondary q t).0, (r, (secondary q t).1))
  unfolding fallback errno_system fallback_args_sizes_get fallback_args_get
      fallback_environ_sizes_get fallback_environ_get fallback_clock_res_get fallback_clock_time_get
      fallback_fd_advise fallback_fd_allocate fallback_fd_close fallback_fd_data_sync
      fallback_fd_stat_get fallback_fd_stat_set_flags fallback_fd_stat_set_rights
      fallback_fd_file_stat_get fallback_fd_file_stat_set_size fallback_fd_file_stat_set_times
      fallback_fd_pread fallback_fd_pre_stat_get fallback_fd_pre_stat_dir_name fallback_fd_pwrite
      fallback_fd_read fallback_fd_read_dir fallback_fd_renumber fallback_fd_seek fallback_fd_sync
      fallback_fd_tell fallback_fd_write fallback_path_create_directory fallback_path_file_stat_get
      fallback_path_file_stat_set_times fallback_path_link fallback_path_open
      fallback_path_read_link fallback_path_remove_directory fallback_path_rename
      fallback_path_symlink fallback_path_unlink_file fallback_poll_one_off fallback_proc_exit
      fallback_proc_raise fallback_sched_yield fallback_random_get fallback_sock_accept
      fallback_sock_recv fallback_sock_send fallback_sock_shutdown fallback_sock_open
      fallback_sock_bind fallback_sock_connect fallback_sock_listen fallback_sock_send_to
      fallback_sock_recv_from fallback_sock_get_opt fallback_sock_set_opt
      fallback_sock_local_address fallback_sock_remote_address fallback_sock_address_info
  fallback-replay_end write secondary Request.args_sizes_get r t ended =
      or_else-next _ _ _ (replay-end write Request.args_sizes_get r ended) refl
  fallback-replay_end write secondary q r t ended =
      or_else-next _ _ _ (replay-end write q r ended) refl

  -- A guest whose calls a replay answers until its log ends, and a second system from then on: once
  -- the log is at its end, the guest runs as against the second system alone.
  pub run-fallback :
      {A : Type 0} (write : W → List ℕ → W × Bool) (secondary : System Fault T) (g : Guest A)
      (r : Replay Time Fault W) (t : T)
      → r.records ≡ record { items = []; fault = none }
      → run (fallback (replay write) secondary) g (r, t)
        ≡ ((run secondary g t).0, (r, (run secondary g t).1))
  unfolding run
  run-fallback write secondary (done a) r t ended = refl
  run-fallback write secondary (call q continue) r t ended =
      ap (continuing λ response. run (fallback (replay write) secondary) (continue response))
        (fallback-replay_end write secondary q r t ended)
      ∙ beside_left _ (λ response. run secondary (continue response)) r
          (λ response t. run-fallback write secondary (continue response) r t ended) (secondary q t)

module _ ⦃w : Wasi⦄ {Fault S T : Type 0} where
  -- With the system that answers every call with `e` as the primary: if `e` is ENOSYS the secondary
  -- answers every call, and else it is never asked.
  pub fallback-errno_system :
      (e : Errno) (secondary : System Fault T) (q : Request) (s : S) (t : T)
      → fallback (errno_system e) secondary q (s, t) ≡ (
          if same w.errno e w.enosys
          then ((secondary q t).0, (s, (secondary q t).1))
          else ((errno_system {S = S} e q s).0, (s, t)))
  unfolding fallback errno_system or_else fallback_args_sizes_get fallback_args_get
      fallback_environ_sizes_get fallback_environ_get fallback_clock_res_get fallback_clock_time_get
      fallback_fd_advise fallback_fd_allocate fallback_fd_close fallback_fd_data_sync
      fallback_fd_stat_get fallback_fd_stat_set_flags fallback_fd_stat_set_rights
      fallback_fd_file_stat_get fallback_fd_file_stat_set_size fallback_fd_file_stat_set_times
      fallback_fd_pread fallback_fd_pre_stat_get fallback_fd_pre_stat_dir_name fallback_fd_pwrite
      fallback_fd_read fallback_fd_read_dir fallback_fd_renumber fallback_fd_seek fallback_fd_sync
      fallback_fd_tell fallback_fd_write fallback_path_create_directory fallback_path_file_stat_get
      fallback_path_file_stat_set_times fallback_path_link fallback_path_open
      fallback_path_read_link fallback_path_remove_directory fallback_path_rename
      fallback_path_symlink fallback_path_unlink_file fallback_poll_one_off fallback_proc_exit
      fallback_proc_raise fallback_sched_yield fallback_random_get fallback_sock_accept
      fallback_sock_recv fallback_sock_send fallback_sock_shutdown fallback_sock_open
      fallback_sock_bind fallback_sock_connect fallback_sock_listen fallback_sock_send_to
      fallback_sock_recv_from fallback_sock_get_opt fallback_sock_set_opt
      fallback_sock_local_address fallback_sock_remote_address fallback_sock_address_info
  fallback-errno_system e secondary Request.args_sizes_get s t = refl
  fallback-errno_system e secondary _ s t = refl
