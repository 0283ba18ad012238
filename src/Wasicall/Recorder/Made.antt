-- ===== src/Wasicall/Recorder/Made.antt =====
-- The recorder writes what `made` says.
use timecraft.Common.{List, refl, ℕ, ◌≡◌, ◌≢◌}
use timecraft.Wasicall.Recorder.{recording}
use timecraft.Wasicall.Recorder.Dispatch.{recorder}
use timecraft.Wasicall.Recorder.Env.{
  recorder_args_get, recorder_args_sizes_get, recorder_clock_res_get, recorder_clock_time_get,
  recorder_environ_get, recorder_environ_sizes_get,
}
use timecraft.Wasicall.Recorder.File.{
  recorder_fd_advise, recorder_fd_allocate, recorder_fd_close, recorder_fd_data_sync,
  recorder_fd_file_stat_get, recorder_fd_file_stat_set_size, recorder_fd_file_stat_set_times,
  recorder_fd_pre_stat_dir_name, recorder_fd_pre_stat_get, recorder_fd_stat_get,
  recorder_fd_stat_set_flags, recorder_fd_stat_set_rights,
}
use timecraft.Wasicall.Recorder.Io.{
  recorder_fd_pread, recorder_fd_pwrite, recorder_fd_read, recorder_fd_read_dir,
  recorder_fd_renumber, recorder_fd_seek, recorder_fd_sync, recorder_fd_tell, recorder_fd_write,
}
use timecraft.Wasicall.Recorder.Paths.{
  recorder_path_create_directory, recorder_path_file_stat_get, recorder_path_file_stat_set_times,
  recorder_path_link, recorder_path_open, recorder_path_read_link, recorder_path_remove_directory,
  recorder_path_rename, recorder_path_symlink, recorder_path_unlink_file,
}
use timecraft.Wasicall.Recorder.Process.{
  recorder_poll_one_off, recorder_proc_exit, recorder_proc_raise, recorder_random_get,
  recorder_sched_yield,
}
use timecraft.Wasicall.Recorder.Sock.{
  recorder_sock_accept, recorder_sock_bind, recorder_sock_connect, recorder_sock_listen,
  recorder_sock_open, recorder_sock_recv, recorder_sock_recv_from, recorder_sock_send,
  recorder_sock_send_to, recorder_sock_shutdown,
}
use timecraft.Wasicall.Recorder.SockInfo.{
  recorder_sock_address_info, recorder_sock_get_opt, recorder_sock_local_address,
  recorder_sock_remote_address, recorder_sock_set_opt,
}
use timecraft.Wasicall.Syscall.Ids.{SyscallId}
use timecraft.Wasicall.Syscall.Recorder.{encode_call}
use timecraft.Wasicall.System.Exchange.{made, request_id}
use timecraft.Wasicall.System.Request.{Request, System}
use timecraft.Wasicall.Wasi.{Wasi}

module _ ⦃w : Wasi⦄ {Fault S T : Type 0} where
  -- Every call but ProcExit is made before it is written.
  pub recorder-made :
      (system : System Fault S) (write : SyscallId → List ℕ → T → T) (q : Request) (s : S) (t : T)
      → request_id q ≢ SyscallId.proc_exit
      → recorder system write q (s, t)
        ≡ recording write (request_id q) (system q s) t (λ response. encode_call (made q response))
  unfolding recorder made request_id encode_call recorder_args_sizes_get recorder_args_get
      recorder_environ_sizes_get recorder_environ_get recorder_clock_res_get recorder_clock_time_get
      recorder_fd_advise recorder_fd_allocate recorder_fd_close recorder_fd_data_sync
      recorder_fd_stat_get recorder_fd_stat_set_flags recorder_fd_stat_set_rights
      recorder_fd_file_stat_get recorder_fd_file_stat_set_size recorder_fd_file_stat_set_times
      recorder_fd_pread recorder_fd_pre_stat_get recorder_fd_pre_stat_dir_name recorder_fd_pwrite
      recorder_fd_read recorder_fd_read_dir recorder_fd_renumber recorder_fd_seek recorder_fd_sync
      recorder_fd_tell recorder_fd_write recorder_path_create_directory recorder_path_file_stat_get
      recorder_path_file_stat_set_times recorder_path_link recorder_path_open
      recorder_path_read_link recorder_path_remove_directory recorder_path_rename
      recorder_path_symlink recorder_path_unlink_file recorder_poll_one_off recorder_proc_exit
      recorder_proc_raise recorder_sched_yield recorder_random_get recorder_sock_accept
      recorder_sock_recv recorder_sock_send recorder_sock_shutdown recorder_sock_open
      recorder_sock_bind recorder_sock_connect recorder_sock_listen recorder_sock_send_to
      recorder_sock_recv_from recorder_sock_get_opt recorder_sock_set_opt
      recorder_sock_local_address recorder_sock_remote_address recorder_sock_address_info
  recorder-made system write (Request.proc_exit _) s t other = absurd (other refl)
  recorder-made system write _ s t other = refl
