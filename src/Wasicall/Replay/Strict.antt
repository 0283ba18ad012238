-- ===== src/Wasicall/Replay/Strict.antt =====
-- A strict replay only answers calls that agree with the log.
use timecraft.Common.{==_iff, Bool, List, leb→le, refl, true, ℕ, ◌∷◌, ◌≡◌}
use timecraft.Common.Result.{ok}
use timecraft.Wasicall.Replay.Agrees.{Agrees}
use timecraft.Wasicall.Replay.Back.{
  agreeing, equal_iovecs-path, equal_socket_address-path, equal_socket_option_value-path, same-path,
  same_bytes-path, same_int-path, unchecked,
}
use timecraft.Wasicall.Replay.Dispatch.{replay}
use timecraft.Wasicall.Replay.Env.{
  replay_args_get, replay_args_sizes_get, replay_clock_res_get, replay_clock_time_get,
  replay_environ_get, replay_environ_sizes_get,
}
use timecraft.Wasicall.Replay.File.{
  replay_fd_advise, replay_fd_allocate, replay_fd_close, replay_fd_data_sync,
  replay_fd_file_stat_get, replay_fd_file_stat_set_size, replay_fd_file_stat_set_times,
  replay_fd_pre_stat_dir_name, replay_fd_pre_stat_get, replay_fd_stat_get, replay_fd_stat_set_flags,
  replay_fd_stat_set_rights,
}
use timecraft.Wasicall.Replay.Io.{
  replay_fd_pread, replay_fd_pwrite, replay_fd_read, replay_fd_read_dir, replay_fd_renumber,
  replay_fd_seek, replay_fd_sync, replay_fd_tell, replay_fd_write,
}
use timecraft.Wasicall.Replay.Paths.{
  replay_path_create_directory, replay_path_file_stat_get, replay_path_file_stat_set_times,
  replay_path_link, replay_path_open, replay_path_read_link, replay_path_remove_directory,
  replay_path_rename, replay_path_symlink, replay_path_unlink_file,
}
use timecraft.Wasicall.Replay.Process.{
  replay_poll_one_off, replay_proc_exit, replay_proc_raise, replay_random_get, replay_sched_yield,
}
use timecraft.Wasicall.Replay.Sock.{
  replay_sock_accept, replay_sock_bind, replay_sock_connect, replay_sock_listen, replay_sock_open,
  replay_sock_recv, replay_sock_recv_from, replay_sock_send, replay_sock_send_to,
  replay_sock_shutdown,
}
use timecraft.Wasicall.Replay.SockInfo.{
  replay_sock_address_info, replay_sock_get_opt, replay_sock_local_address,
  replay_sock_remote_address, replay_sock_set_opt,
}
use timecraft.Wasicall.Replay.State.{Replay}
use timecraft.Wasicall.Syscall.Call.{Syscall}
use timecraft.Wasicall.Syscall.Ids.{id_number}
use timecraft.Wasicall.Syscall.Log.{Record}
use timecraft.Wasicall.Syscall.Reader.{decode_call}
use timecraft.Wasicall.System.Exchange.{request_id}
use timecraft.Wasicall.System.Request.{Request, Response}
use timecraft.Wasicall.Wasi.{Wasi}

module _ ⦃w : Wasi⦄ {Time Fault W : Type 0} (write : W → List ℕ → W × Bool) where
  -- If a strict replay answers a call from a record, then the record is of that call, it can be
  -- decoded, and the recorded parameters agree with those of the call.
  pub replay-Agrees :
      (q : Request) (r : Replay Time Fault W) (response : Response q) (item : Record Time)
      (rest : List (Record Time))
      → r.strict ≡ true
      → (replay write q r).0 ≡ ok response
      → r.records.items ≡ item ∷ rest
      → (item.function_id ≡ id_number (request_id q))
        × (c : Syscall) × (decode_call (request_id q) item.function_call ≡ ok c)
        × Agrees q c
  unfolding replay request_id decode_call replay_args_sizes_get replay_args_get
      replay_environ_sizes_get replay_environ_get replay_clock_res_get replay_clock_time_get
      replay_fd_advise replay_fd_allocate replay_fd_close replay_fd_data_sync replay_fd_stat_get
      replay_fd_stat_set_flags replay_fd_stat_set_rights replay_fd_file_stat_get
      replay_fd_file_stat_set_size replay_fd_file_stat_set_times replay_fd_pread
      replay_fd_pre_stat_get replay_fd_pre_stat_dir_name replay_fd_pwrite replay_fd_read
      replay_fd_read_dir replay_fd_renumber replay_fd_seek replay_fd_sync replay_fd_tell
      replay_fd_write replay_path_create_directory replay_path_file_stat_get
      replay_path_file_stat_set_times replay_path_link replay_path_open replay_path_read_link
      replay_path_remove_directory replay_path_rename replay_path_symlink replay_path_unlink_file
      replay_poll_one_off replay_proc_exit replay_proc_raise replay_sched_yield replay_random_get
      replay_sock_accept replay_sock_recv replay_sock_send replay_sock_shutdown replay_sock_open
      replay_sock_bind replay_sock_connect replay_sock_listen replay_sock_send_to
      replay_sock_recv_from replay_sock_get_opt replay_sock_set_opt replay_sock_local_address
      replay_sock_remote_address replay_sock_address_info
  replay-Agrees Request.args_sizes_get r response item rest strict answered next =
      let (same_id, a, reads) =
        unchecked _ _ _ _ _ (λ a. Syscall.args_sizes_get a.0 a.1 a.2) refl answered next in
      (same_id, _, reads, tt)
  replay-Agrees Request.args_get r response item rest strict answered next =
      let (same_id, a, reads) =
        unchecked _ _ _ _ _ (λ a. Syscall.args_get a.0 a.1) refl answered next in
      (same_id, _, reads, tt)
  replay-Agrees Request.environ_sizes_get r response item rest strict answered next =
      let (same_id, a, reads) =
        unchecked _ _ _ _ _ (λ a. Syscall.environ_sizes_get a.0 a.1 a.2) refl answered next in
      (same_id, _, reads, tt)
  replay-Agrees Request.environ_get r response item rest strict answered next =
      let (same_id, a, reads) =
        unchecked _ _ _ _ _ (λ a. Syscall.environ_get a.0 a.1) refl answered next in
      (same_id, _, reads, tt)
  replay-Agrees (Request.clock_res_get _) r response item rest strict answered next =
      let (same_id, a, reads, (p0, _)) =
        agreeing _ _ _ _ _ _ (λ a. Syscall.clock_res_get a.0 a.1 a.2) refl strict answered next in
      (same_id, _, reads, same-path w.clock_id _ _ p0)
  replay-Agrees (Request.clock_time_get _ _) r response item rest strict answered next =
      let (same_id, a, reads, (p0, (p1, _))) =
        agreeing _ _ _ _ _ _ (λ a. Syscall.clock_time_get a.0 a.1 a.2 a.3) refl strict answered
          next in
      (same_id, _, reads, (same-path w.clock_id _ _ p0, same-path w.timestamp _ _ p1))
  replay-Agrees (Request.fd_advise _ _ _ _) r response item rest strict answered next =
      let (same_id, a, reads, (p0, (p1, (p2, (p3, _))))) =
        agreeing _ _ _ _ _ _ (λ a. Syscall.fd_advise a.0 a.1 a.2 a.3 a.4) refl strict answered
          next in
      (
        same_id,
        _,
        reads,
        (
          same-path w.fd _ _ p0,
          same-path w.file_size _ _ p1,
          same-path w.file_size _ _ p2,
          same-path w.advice _ _ p3,
        ),
      )
  replay-Agrees (Request.fd_allocate _ _ _) r response item rest strict answered next =
      let (same_id, a, reads, (p0, (p1, (p2, _)))) =
        agreeing _ _ _ _ _ _ (λ a. Syscall.fd_allocate a.0 a.1 a.2 a.3) refl strict answered next in
      (
        same_id,
        _,
        reads,
        (same-path w.fd _ _ p0, same-path w.file_size _ _ p1, same-path w.file_size _ _ p2),
      )
  replay-Agrees (Request.fd_close _) r response item rest strict answered next =
      let (same_id, a, reads, (p0, _)) =
        agreeing _ _ _ _ _ _ (λ a. Syscall.fd_close a.0 a.1) refl strict answered next in
      (same_id, _, reads, same-path w.fd _ _ p0)
  replay-Agrees (Request.fd_data_sync _) r response item rest strict answered next =
      let (same_id, a, reads, (p0, _)) =
        agreeing _ _ _ _ _ _ (λ a. Syscall.fd_data_sync a.0 a.1) refl strict answered next in
      (same_id, _, reads, same-path w.fd _ _ p0)
  replay-Agrees (Request.fd_stat_get _) r response item rest strict answered next =
      let (same_id, a, reads, (p0, _)) =
        agreeing _ _ _ _ _ _ (λ a. Syscall.fd_stat_get a.0 a.1 a.2) refl strict answered next in
      (same_id, _, reads, same-path w.fd _ _ p0)
  replay-Agrees (Request.fd_stat_set_flags _ _) r response item rest strict answered next =
      let (same_id, a, reads, (p0, (p1, _))) =
        agreeing _ _ _ _ _ _ (λ a. Syscall.fd_stat_set_flags a.0 a.1 a.2) refl strict answered
          next in
      (same_id, _, reads, (same-path w.fd _ _ p0, same-path w.fd_flags _ _ p1))
  replay-Agrees (Request.fd_stat_set_rights _ _ _) r response item rest strict answered next =
      let (same_id, a, reads, (p0, (p1, (p2, _)))) =
        agreeing _ _ _ _ _ _ (λ a. Syscall.fd_stat_set_rights a.0 a.1 a.2 a.3) refl strict answered
          next in
      (
        same_id,
        _,
        reads,
        (same-path w.fd _ _ p0, same-path w.rights _ _ p1, same-path w.rights _ _ p2),
      )
  replay-Agrees (Request.fd_file_stat_get _) r response item rest strict answered next =
      let (same_id, a, reads, (p0, _)) =
        agreeing _ _ _ _ _ _ (λ a. Syscall.fd_file_stat_get a.0 a.1 a.2) refl strict answered
          next in
      (same_id, _, reads, same-path w.fd _ _ p0)
  replay-Agrees (Request.fd_file_stat_set_size _ _) r response item rest strict answered next =
      let (same_id, a, reads, (p0, (p1, _))) =
        agreeing _ _ _ _ _ _ (λ a. Syscall.fd_file_stat_set_size a.0 a.1 a.2) refl strict answered
          next in
      (same_id, _, reads, (same-path w.fd _ _ p0, same-path w.file_size _ _ p1))
  replay-Agrees (Request.fd_file_stat_set_times _ _ _ _) r response item rest strict answered next =
      let (same_id, a, reads, (p0, (p1, (p2, (p3, _))))) =
        agreeing _ _ _ _ _ _ (λ a. Syscall.fd_file_stat_set_times a.0 a.1 a.2 a.3 a.4) refl strict
          answered next in
      (
        same_id,
        _,
        reads,
        (
          same-path w.fd _ _ p0,
          same-path w.timestamp _ _ p1,
          same-path w.timestamp _ _ p2,
          same-path w.fst_flags _ _ p3,
        ),
      )
  replay-Agrees (Request.fd_pread _ _ _) r response item rest strict answered next =
      let (same_id, a, reads, (p0, (p1, (p2, _)))) =
        agreeing _ _ _ _ _ _ (λ a. Syscall.fd_pread a.0 a.1 a.2 a.3 a.4) refl strict answered
          next in
      (same_id, _, reads, (same-path w.fd _ _ p0, p1, same-path w.file_size _ _ p2))
  replay-Agrees (Request.fd_pre_stat_get _) r response item rest strict answered next =
      let (same_id, a, reads, (p0, _)) =
        agreeing _ _ _ _ _ _ (λ a. Syscall.fd_pre_stat_get a.0 a.1 a.2) refl strict answered next in
      (same_id, _, reads, same-path w.fd _ _ p0)
  replay-Agrees (Request.fd_pre_stat_dir_name _) r response item rest strict answered next =
      let (same_id, a, reads, (p0, _)) =
        agreeing _ _ _ _ _ _ (λ a. Syscall.fd_pre_stat_dir_name a.0 a.1 a.2) refl strict answered
          next in
      (same_id, _, reads, same-path w.fd _ _ p0)
  replay-Agrees (Request.fd_pwrite _ _ _) r response item rest strict answered next =
      let (same_id, a, reads, (p0, (p1, (p2, _)))) =
        agreeing _ _ _ _ _ _ (λ a. Syscall.fd_pwrite a.0 a.1 a.2 a.3 a.4) refl strict answered
          next in
      (
        same_id,
        _,
        reads,
        (same-path w.fd _ _ p0, equal_iovecs-path _ _ p1, same-path w.file_size _ _ p2),
      )
  replay-Agrees (Request.fd_read _ _) r response item rest strict answered next =
      let (same_id, a, reads, (p0, (p1, _))) =
        agreeing _ _ _ _ _ _ (λ a. Syscall.fd_read a.0 a.1 a.2 a.3) refl strict answered next in
      (same_id, _, reads, (same-path w.fd _ _ p0, p1))
  replay-Agrees (Request.fd_read_dir _ _ _ _) r response item rest strict answered next =
      let (same_id, a, reads, (p0, (p1, (p2, (p3, _))))) =
        agreeing _ _ _ _ _ _ (λ a. Syscall.fd_read_dir a.0 a.1 a.2 a.3 a.4) refl strict answered
          next in
      (
        same_id,
        _,
        reads,
        (same-path w.fd _ _ p0, leb→le _ _ p1, same-path w.dir_cookie _ _ p2, same_int-path _ _ p3),
      )
  replay-Agrees (Request.fd_renumber _ _) r response item rest strict answered next =
      let (same_id, a, reads, (p0, (p1, _))) =
        agreeing _ _ _ _ _ _ (λ a. Syscall.fd_renumber a.0 a.1 a.2) refl strict answered next in
      (same_id, _, reads, (same-path w.fd _ _ p0, same-path w.fd _ _ p1))
  replay-Agrees (Request.fd_seek _ _ _) r response item rest strict answered next =
      let (same_id, a, reads, (p0, (p1, (p2, _)))) =
        agreeing _ _ _ _ _ _ (λ a. Syscall.fd_seek a.0 a.1 a.2 a.3 a.4) refl strict answered next in
      (
        same_id,
        _,
        reads,
        (same-path w.fd _ _ p0, same-path w.file_delta _ _ p1, same-path w.whence _ _ p2),
      )
  replay-Agrees (Request.fd_sync _) r response item rest strict answered next =
      let (same_id, a, reads, (p0, _)) =
        agreeing _ _ _ _ _ _ (λ a. Syscall.fd_sync a.0 a.1) refl strict answered next in
      (same_id, _, reads, same-path w.fd _ _ p0)
  replay-Agrees (Request.fd_tell _) r response item rest strict answered next =
      let (same_id, a, reads, (p0, _)) =
        agreeing _ _ _ _ _ _ (λ a. Syscall.fd_tell a.0 a.1 a.2) refl strict answered next in
      (same_id, _, reads, same-path w.fd _ _ p0)
  replay-Agrees (Request.fd_write _ _) r response item rest strict answered next =
      let (same_id, a, reads, (p0, (p1, _))) =
        agreeing _ _ _ _ _ _ (λ a. Syscall.fd_write a.0 a.1 a.2 a.3) refl strict answered next in
      (same_id, _, reads, (same-path w.fd _ _ p0, equal_iovecs-path _ _ p1))
  replay-Agrees (Request.path_create_directory _ _) r response item rest strict answered next =
      let (same_id, a, reads, (p0, (p1, _))) =
        agreeing _ _ _ _ _ _ (λ a. Syscall.path_create_directory a.0 a.1 a.2) refl strict answered
          next in
      (same_id, _, reads, (same-path w.fd _ _ p0, same_bytes-path _ _ p1))
  replay-Agrees (Request.path_file_stat_get _ _ _) r response item rest strict answered next =
      let (same_id, a, reads, (p0, (p1, (p2, _)))) =
        agreeing _ _ _ _ _ _ (λ a. Syscall.path_file_stat_get a.0 a.1 a.2 a.3 a.4) refl strict
          answered next in
      (
        same_id,
        _,
        reads,
        (same-path w.fd _ _ p0, same-path w.lookup_flags _ _ p1, same_bytes-path _ _ p2),
      )
  replay-Agrees (Request.path_file_stat_set_times _ _ _ _ _ _) r response item rest strict answered
        next =
      let (same_id, a, reads, (p0, (p1, (p2, (p3, (p4, (p5, _))))))) =
        agreeing _ _ _ _ _ _ (λ a. Syscall.path_file_stat_set_times a.0 a.1 a.2 a.3 a.4 a.5 a.6)
          refl strict answered next in
      (
        same_id,
        _,
        reads,
        (
          same-path w.fd _ _ p0,
          same-path w.lookup_flags _ _ p1,
          same-path w.timestamp _ _ p2,
          same-path w.timestamp _ _ p3,
          same-path w.fst_flags _ _ p4,
          same_bytes-path _ _ p5,
        ),
      )
  replay-Agrees (Request.path_link _ _ _ _ _) r response item rest strict answered next =
      let (same_id, a, reads, (p0, (p1, (p2, (p3, (p4, _)))))) =
        agreeing _ _ _ _ _ _ (λ a. Syscall.path_link a.0 a.1 a.2 a.3 a.4 a.5) refl strict answered
          next in
      (
        same_id,
        _,
        reads,
        (
          same-path w.fd _ _ p0,
          same-path w.lookup_flags _ _ p1,
          same_bytes-path _ _ p2,
          same-path w.fd _ _ p3,
          same_bytes-path _ _ p4,
        ),
      )
  replay-Agrees (Request.path_open _ _ _ _ _ _ _) r response item rest strict answered next =
      let (same_id, a, reads, (p0, (p1, (p2, (p3, (p4, (p5, (p6, _)))))))) =
        agreeing _ _ _ _ _ _ (λ a. Syscall.path_open a.0 a.1 a.2 a.3 a.4 a.5 a.6 a.7 a.8) refl
          strict answered next in
      (
        same_id,
        _,
        reads,
        (
          same-path w.fd _ _ p0,
          same-path w.lookup_flags _ _ p1,
          same_bytes-path _ _ p2,
          same-path w.open_flags _ _ p3,
          same-path w.rights _ _ p4,
          same-path w.rights _ _ p5,
          same-path w.fd_flags _ _ p6,
        ),
      )
  replay-Agrees (Request.path_read_link _ _ _) r response item rest strict answered next =
      let (same_id, a, reads, (p0, (p1, (p2, _)))) =
        agreeing _ _ _ _ _ _ (λ a. Syscall.path_read_link a.0 a.1 a.2 a.3) refl strict answered
          next in
      (same_id, _, reads, (same-path w.fd _ _ p0, same_bytes-path _ _ p1, leb→le _ _ p2))
  replay-Agrees (Request.path_remove_directory _ _) r response item rest strict answered next =
      let (same_id, a, reads, (p0, (p1, _))) =
        agreeing _ _ _ _ _ _ (λ a. Syscall.path_remove_directory a.0 a.1 a.2) refl strict answered
          next in
      (same_id, _, reads, (same-path w.fd _ _ p0, same_bytes-path _ _ p1))
  replay-Agrees (Request.path_rename _ _ _ _) r response item rest strict answered next =
      let (same_id, a, reads, (p0, (p1, (p2, (p3, _))))) =
        agreeing _ _ _ _ _ _ (λ a. Syscall.path_rename a.0 a.1 a.2 a.3 a.4) refl strict answered
          next in
      (
        same_id,
        _,
        reads,
        (
          same-path w.fd _ _ p0,
          same_bytes-path _ _ p1,
          same-path w.fd _ _ p2,
          same_bytes-path _ _ p3,
        ),
      )
  replay-Agrees (Request.path_symlink _ _ _) r response item rest strict answered next =
      let (same_id, a, reads, (p0, (p1, (p2, _)))) =
        agreeing _ _ _ _ _ _ (λ a. Syscall.path_symlink a.0 a.1 a.2 a.3) refl strict answered
          next in
      (same_id, _, reads, (same_bytes-path _ _ p0, same-path w.fd _ _ p1, same_bytes-path _ _ p2))
  replay-Agrees (Request.path_unlink_file _ _) r response item rest strict answered next =
      let (same_id, a, reads, (p0, (p1, _))) =
        agreeing _ _ _ _ _ _ (λ a. Syscall.path_unlink_file a.0 a.1 a.2) refl strict answered
          next in
      (same_id, _, reads, (same-path w.fd _ _ p0, same_bytes-path _ _ p1))
  replay-Agrees (Request.poll_one_off _ _) r response item rest strict answered next =
      let (same_id, a, reads, (p0, (p1, _))) =
        agreeing _ _ _ _ _ _ (λ a. Syscall.poll_one_off a.0 a.1 a.2) refl strict answered next in
      (same_id, _, reads, (p0, leb→le _ _ p1))
  replay-Agrees (Request.proc_exit _) r response item rest strict answered next =
      let (same_id, a, reads, (p0, _)) =
        agreeing _ _ _ _ _ _ (λ a. Syscall.proc_exit a.0 a.1) refl strict answered next in
      (same_id, _, reads, same-path w.exit_code _ _ p0)
  replay-Agrees (Request.proc_raise _) r response item rest strict answered next =
      let (same_id, a, reads, (p0, _)) =
        agreeing _ _ _ _ _ _ (λ a. Syscall.proc_raise a.0 a.1) refl strict answered next in
      (same_id, _, reads, same-path w.signal _ _ p0)
  replay-Agrees Request.sched_yield r response item rest strict answered next =
      let (same_id, a, reads) =
        unchecked _ _ _ _ _ (λ a. Syscall.sched_yield a) refl answered next in
      (same_id, _, reads, tt)
  replay-Agrees (Request.random_get _) r response item rest strict answered next =
      let (same_id, a, reads, (p0, _)) =
        agreeing _ _ _ _ _ _ (λ a. Syscall.random_get a.0 a.1) refl strict answered next in
      (same_id, _, reads, (==_iff _ _).0 p0)
  replay-Agrees (Request.sock_accept _ _) r response item rest strict answered next =
      let (same_id, a, reads, (p0, (p1, _))) =
        agreeing _ _ _ _ _ _ (λ a. Syscall.sock_accept a.0 a.1 a.2 a.3 a.4 a.5) refl strict answered
          next in
      (same_id, _, reads, (same-path w.fd _ _ p0, same-path w.fd_flags _ _ p1))
  replay-Agrees (Request.sock_recv _ _ _) r response item rest strict answered next =
      let (same_id, a, reads, (p0, (p1, (p2, _)))) =
        agreeing _ _ _ _ _ _ (λ a. Syscall.sock_recv a.0 a.1 a.2 a.3 a.4 a.5) refl strict answered
          next in
      (same_id, _, reads, (same-path w.fd _ _ p0, p1, same-path w.ri_flags _ _ p2))
  replay-Agrees (Request.sock_send _ _ _) r response item rest strict answered next =
      let (same_id, a, reads, (p0, (p1, (p2, _)))) =
        agreeing _ _ _ _ _ _ (λ a. Syscall.sock_send a.0 a.1 a.2 a.3 a.4) refl strict answered
          next in
      (
        same_id,
        _,
        reads,
        (same-path w.fd _ _ p0, equal_iovecs-path _ _ p1, same-path w.si_flags _ _ p2),
      )
  replay-Agrees (Request.sock_shutdown _ _) r response item rest strict answered next =
      let (same_id, a, reads, (p0, (p1, _))) =
        agreeing _ _ _ _ _ _ (λ a. Syscall.sock_shutdown a.0 a.1 a.2) refl strict answered next in
      (same_id, _, reads, (same-path w.fd _ _ p0, same-path w.sd_flags _ _ p1))
  replay-Agrees (Request.sock_open _ _ _ _ _) r response item rest strict answered next =
      let (same_id, a, reads, (p0, (p1, (p2, (p3, (p4, _)))))) =
        agreeing _ _ _ _ _ _ (λ a. Syscall.sock_open a.0 a.1 a.2 a.3 a.4 a.5 a.6) refl strict
          answered next in
      (
        same_id,
        _,
        reads,
        (
          same-path w.protocol_family _ _ p0,
          same-path w.socket_type _ _ p1,
          same-path w.protocol _ _ p2,
          same-path w.rights _ _ p3,
          same-path w.rights _ _ p4,
        ),
      )
  replay-Agrees (Request.sock_bind _ _) r response item rest strict answered next =
      let (same_id, a, reads, (p0, (p1, _))) =
        agreeing _ _ _ _ _ _ (λ a. Syscall.sock_bind a.0 a.1 a.2 a.3) refl strict answered next in
      (same_id, _, reads, (same-path w.fd _ _ p0, equal_socket_address-path _ _ p1))
  replay-Agrees (Request.sock_connect _ _) r response item rest strict answered next =
      let (same_id, a, reads, (p0, (p1, _))) =
        agreeing _ _ _ _ _ _ (λ a. Syscall.sock_connect a.0 a.1 a.2 a.3) refl strict answered
          next in
      (same_id, _, reads, (same-path w.fd _ _ p0, equal_socket_address-path _ _ p1))
  replay-Agrees (Request.sock_listen _ _) r response item rest strict answered next =
      let (same_id, a, reads, (p0, (p1, _))) =
        agreeing _ _ _ _ _ _ (λ a. Syscall.sock_listen a.0 a.1 a.2) refl strict answered next in
      (same_id, _, reads, (same-path w.fd _ _ p0, same_int-path _ _ p1))
  replay-Agrees (Request.sock_send_to _ _ _ _) r response item rest strict answered next =
      let (same_id, a, reads, (p0, (p1, (p2, (p3, _))))) =
        agreeing _ _ _ _ _ _ (λ a. Syscall.sock_send_to a.0 a.1 a.2 a.3 a.4 a.5) refl strict
          answered next in
      (
        same_id,
        _,
        reads,
        (
          same-path w.fd _ _ p0,
          equal_iovecs-path _ _ p1,
          same-path w.si_flags _ _ p2,
          equal_socket_address-path _ _ p3,
        ),
      )
  replay-Agrees (Request.sock_recv_from _ _ _) r response item rest strict answered next =
      let (same_id, a, reads, (p0, (p1, (p2, _)))) =
        agreeing _ _ _ _ _ _ (λ a. Syscall.sock_recv_from a.0 a.1 a.2 a.3 a.4 a.5 a.6) refl strict
          answered next in
      (same_id, _, reads, (same-path w.fd _ _ p0, p1, same-path w.ri_flags _ _ p2))
  replay-Agrees (Request.sock_get_opt _ _) r response item rest strict answered next =
      let (same_id, a, reads, (p0, (p1, _))) =
        agreeing _ _ _ _ _ _ (λ a. Syscall.sock_get_opt a.0 a.1 a.2 a.3) refl strict answered
          next in
      (same_id, _, reads, (same-path w.fd _ _ p0, same-path w.socket_option _ _ p1))
  replay-Agrees (Request.sock_set_opt _ _ _) r response item rest strict answered next =
      let (same_id, a, reads, (p0, (p1, (p2, _)))) =
        agreeing _ _ _ _ _ _ (λ a. Syscall.sock_set_opt a.0 a.1 a.2 a.3) refl strict answered
          next in
      (
        same_id,
        _,
        reads,
        (
          same-path w.fd _ _ p0,
          same-path w.socket_option _ _ p1,
          equal_socket_option_value-path _ _ p2,
        ),
      )
  replay-Agrees (Request.sock_local_address _) r response item rest strict answered next =
      let (same_id, a, reads, (p0, _)) =
        agreeing _ _ _ _ _ _ (λ a. Syscall.sock_local_address a.0 a.1 a.2) refl strict answered
          next in
      (same_id, _, reads, same-path w.fd _ _ p0)
  replay-Agrees (Request.sock_remote_address _) r response item rest strict answered next =
      let (same_id, a, reads, (p0, _)) =
        agreeing _ _ _ _ _ _ (λ a. Syscall.sock_remote_address a.0 a.1 a.2) refl strict answered
          next in
      (same_id, _, reads, same-path w.fd _ _ p0)
  replay-Agrees (Request.sock_address_info _ _ _ _) r response item rest strict answered next =
      let (same_id, a, reads, (p0, (p1, (p2, (p3, _))))) =
        agreeing _ _ _ _ _ _ (λ a. Syscall.sock_address_info a.0 a.1 a.2 a.3 a.4) refl strict
          answered next in
      (same_id, _, reads, (same_bytes-path _ _ p0, same_bytes-path _ _ p1, p2, leb→le _ _ p3))
