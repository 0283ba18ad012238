-- ===== src/Wasicall/Replay/Faithful.antt =====
-- The replay of any recorded call.
use mathlib.Core.Option.{some-injective}
use timecraft.Common.{Bool, List, length, some, ℕ, ◌≡◌}
use timecraft.Wasicall.Replay.Dispatch.{replay}
use timecraft.Wasicall.Replay.Recorded.{Answers, Holds}
use timecraft.Wasicall.Replay.Recorded.Env.{
  replay_args_get-recorded, replay_args_sizes_get-recorded, replay_clock_res_get-recorded,
  replay_clock_time_get-recorded, replay_environ_get-recorded, replay_environ_sizes_get-recorded,
}
use timecraft.Wasicall.Replay.Recorded.File.{
  replay_fd_advise-recorded, replay_fd_allocate-recorded, replay_fd_close-recorded,
  replay_fd_data_sync-recorded, replay_fd_file_stat_get-recorded,
  replay_fd_file_stat_set_size-recorded, replay_fd_file_stat_set_times-recorded,
  replay_fd_pre_stat_dir_name-recorded, replay_fd_pre_stat_get-recorded,
  replay_fd_stat_get-recorded, replay_fd_stat_set_flags-recorded,
  replay_fd_stat_set_rights-recorded,
}
use timecraft.Wasicall.Replay.Recorded.Io.{
  replay_fd_pread-recorded, replay_fd_pwrite-recorded, replay_fd_read-recorded,
  replay_fd_read_dir-recorded, replay_fd_renumber-recorded, replay_fd_seek-recorded,
  replay_fd_sync-recorded, replay_fd_tell-recorded, replay_fd_write-recorded,
}
use timecraft.Wasicall.Replay.Recorded.Paths.{
  replay_path_create_directory-recorded, replay_path_file_stat_get-recorded,
  replay_path_file_stat_set_times-recorded, replay_path_link-recorded, replay_path_open-recorded,
  replay_path_read_link-recorded, replay_path_remove_directory-recorded,
  replay_path_rename-recorded, replay_path_symlink-recorded, replay_path_unlink_file-recorded,
}
use timecraft.Wasicall.Replay.Recorded.Process.{
  replay_poll_one_off-recorded, replay_proc_raise-recorded, replay_random_get-recorded,
  replay_sched_yield-recorded,
}
use timecraft.Wasicall.Replay.Recorded.Sock.{
  replay_sock_accept-recorded, replay_sock_bind-recorded, replay_sock_connect-recorded,
  replay_sock_listen-recorded, replay_sock_open-recorded, replay_sock_recv-recorded,
  replay_sock_recv_from-recorded, replay_sock_send-recorded, replay_sock_send_to-recorded,
  replay_sock_shutdown-recorded,
}
use timecraft.Wasicall.Replay.Recorded.SockInfo.{
  replay_sock_address_info-recorded, replay_sock_get_opt-recorded,
  replay_sock_local_address-recorded, replay_sock_remote_address-recorded,
  replay_sock_set_opt-recorded,
}
use timecraft.Wasicall.Replay.State.{Replay}
use timecraft.Wasicall.Syscall.Log.{Record}
use timecraft.Wasicall.Syscall.Recordable.{IsRecordable}
use timecraft.Wasicall.Syscall.Recorder.{encode_call}
use timecraft.Wasicall.System.Exchange.{IsReproducible, made, request_id}
use timecraft.Wasicall.System.Request.{Request, Response}
use timecraft.Wasicall.Wasi.{Wasi}
use timecraft.Wasicall.Words.RoundTrip.{Fits}

module _ ⦃w : Wasi⦄ {Time Fault W : Type 0} (write : W → List ℕ → W × Bool) where
  pub replay-made :
      (q : Request) (response : Response q) (r : Replay Time Fault W) (rest : List (Record Time))
      (bytes : List ℕ)
      → IsRecordable (made q response)
      → IsReproducible q response
      → encode_call (made q response) ≡ some bytes
      → Fits bytes
      → Holds r (request_id q) bytes rest
      → Answers (replay write q r) response r rest
  unfolding replay made request_id encode_call
  replay-made Request.args_sizes_get (arg_count, string_bytes, errno) r rest bytes valid answer
        written fits holds =
      let same = some-injective _ _ written in
      replay_args_sizes_get-recorded arg_count string_bytes errno r rest valid (rw same fits)
        (rw same holds)
  replay-made Request.args_get (args, errno) r rest bytes valid answer written fits holds =
      let same = some-injective _ _ written in
      replay_args_get-recorded args errno r rest valid (rw same fits) (rw same holds)
  replay-made Request.environ_sizes_get (env_count, string_bytes, errno) r rest bytes valid answer
        written fits holds =
      let same = some-injective _ _ written in
      replay_environ_sizes_get-recorded env_count string_bytes errno r rest valid (rw same fits)
        (rw same holds)
  replay-made Request.environ_get (env, errno) r rest bytes valid answer written fits holds =
      let same = some-injective _ _ written in
      replay_environ_get-recorded env errno r rest valid (rw same fits) (rw same holds)
  replay-made (Request.clock_res_get id) (timestamp, errno) r rest bytes valid answer written fits
        holds =
      let same = some-injective _ _ written in
      replay_clock_res_get-recorded id timestamp errno r rest (rw same fits) (rw same holds)
  replay-made (Request.clock_time_get id precision) (timestamp, errno) r rest bytes valid answer
        written fits holds =
      let same = some-injective _ _ written in
      replay_clock_time_get-recorded id precision timestamp errno r rest (rw same fits)
        (rw same holds)
  replay-made (Request.fd_advise fd offset length advice) errno r rest bytes valid answer written
        fits holds =
      let same = some-injective _ _ written in
      replay_fd_advise-recorded fd offset length advice errno r rest (rw same fits) (rw same holds)
  replay-made (Request.fd_allocate fd offset length) errno r rest bytes valid answer written fits
        holds =
      let same = some-injective _ _ written in
      replay_fd_allocate-recorded fd offset length errno r rest (rw same fits) (rw same holds)
  replay-made (Request.fd_close fd) errno r rest bytes valid answer written fits holds =
      let same = some-injective _ _ written in
      replay_fd_close-recorded fd errno r rest (rw same fits) (rw same holds)
  replay-made (Request.fd_data_sync fd) errno r rest bytes valid answer written fits holds =
      let same = some-injective _ _ written in
      replay_fd_data_sync-recorded fd errno r rest (rw same fits) (rw same holds)
  replay-made (Request.fd_stat_get fd) (stat, errno) r rest bytes valid answer written fits holds =
      let same = some-injective _ _ written in
      replay_fd_stat_get-recorded fd stat errno r rest (rw same fits) (rw same holds)
  replay-made (Request.fd_stat_set_flags fd flags) errno r rest bytes valid answer written fits
        holds =
      let same = some-injective _ _ written in
      replay_fd_stat_set_flags-recorded fd flags errno r rest (rw same fits) (rw same holds)
  replay-made (Request.fd_stat_set_rights fd rights_base rights_inheriting) errno r rest bytes valid
        answer written fits holds =
      let same = some-injective _ _ written in
      replay_fd_stat_set_rights-recorded fd rights_base rights_inheriting errno r rest
        (rw same fits) (rw same holds)
  replay-made (Request.fd_file_stat_get fd) (stat, errno) r rest bytes valid answer written fits
        holds =
      let same = some-injective _ _ written in
      replay_fd_file_stat_get-recorded fd stat errno r rest (rw same fits) (rw same holds)
  replay-made (Request.fd_file_stat_set_size fd size) errno r rest bytes valid answer written fits
        holds =
      let same = some-injective _ _ written in
      replay_fd_file_stat_set_size-recorded fd size errno r rest (rw same fits) (rw same holds)
  replay-made (Request.fd_file_stat_set_times fd access_time modify_time flags) errno r rest bytes
        valid answer written fits holds =
      let same = some-injective _ _ written in
      replay_fd_file_stat_set_times-recorded fd access_time modify_time flags errno r rest
        (rw same fits) (rw same holds)
  replay-made (Request.fd_pread fd iovecs offset) (iovecs_after, size, errno) r rest bytes valid
        answer written fits holds =
      let same = some-injective _ _ written in
      replay_fd_pread-recorded fd iovecs offset iovecs_after size errno r rest valid answer
        (rw same fits) (rw same holds)
  replay-made (Request.fd_pre_stat_get fd) (stat, errno) r rest bytes valid answer written fits
        holds =
      let same = some-injective _ _ written in
      replay_fd_pre_stat_get-recorded fd stat errno r rest valid (rw same fits) (rw same holds)
  replay-made (Request.fd_pre_stat_dir_name fd) (name, errno) r rest bytes valid answer written fits
        holds =
      let same = some-injective _ _ written in
      replay_fd_pre_stat_dir_name-recorded fd name errno r rest (rw same fits) (rw same holds)
  replay-made (Request.fd_pwrite fd iovecs offset) (n, errno) r rest bytes valid answer written fits
        holds =
      let same = some-injective _ _ written in
      replay_fd_pwrite-recorded fd iovecs offset n errno r rest valid (rw same fits) (rw same holds)
  replay-made (Request.fd_read fd iovecs) (iovecs_after, n, errno) r rest bytes valid answer written
        fits holds =
      let same = some-injective _ _ written in
      replay_fd_read-recorded fd iovecs iovecs_after n errno r rest valid answer (rw same fits)
        (rw same holds)
  replay-made (Request.fd_read_dir fd entries cookie buffer_size_bytes) (entries_after, n, errno) r
        rest bytes valid answer written fits holds =
      let same = some-injective _ _ written in
      replay_fd_read_dir-recorded fd entries cookie buffer_size_bytes entries_after n errno r rest
        valid answer (rw same fits) (rw same holds)
  replay-made (Request.fd_renumber from to) errno r rest bytes valid answer written fits holds =
      let same = some-injective _ _ written in
      replay_fd_renumber-recorded from to errno r rest (rw same fits) (rw same holds)
  replay-made (Request.fd_seek fd offset whence) (result, errno) r rest bytes valid answer written
        fits holds =
      let same = some-injective _ _ written in
      replay_fd_seek-recorded fd offset whence result errno r rest (rw same fits) (rw same holds)
  replay-made (Request.fd_sync fd) errno r rest bytes valid answer written fits holds =
      let same = some-injective _ _ written in
      replay_fd_sync-recorded fd errno r rest (rw same fits) (rw same holds)
  replay-made (Request.fd_tell fd) (file_size, errno) r rest bytes valid answer written fits holds =
      let same = some-injective _ _ written in
      replay_fd_tell-recorded fd file_size errno r rest (rw same fits) (rw same holds)
  replay-made (Request.fd_write fd iovecs) (n, errno) r rest bytes valid answer written fits holds =
      let same = some-injective _ _ written in
      replay_fd_write-recorded write fd iovecs n errno r rest valid (rw same fits) (rw same holds)
  replay-made (Request.path_create_directory fd path) errno r rest bytes valid answer written fits
        holds =
      let same = some-injective _ _ written in
      replay_path_create_directory-recorded fd path errno r rest (rw same fits) (rw same holds)
  replay-made (Request.path_file_stat_get fd lookup_flags path) (filestat, errno) r rest bytes valid
        answer written fits holds =
      let same = some-injective _ _ written in
      replay_path_file_stat_get-recorded fd lookup_flags path filestat errno r rest (rw same fits)
        (rw same holds)
  replay-made (Request.path_file_stat_set_times fd lookup_flags path access_time modify_time flags)
        errno r rest bytes valid answer written fits holds =
      let same = some-injective _ _ written in
      replay_path_file_stat_set_times-recorded fd lookup_flags path access_time modify_time flags
        errno r rest (rw same fits) (rw same holds)
  replay-made (Request.path_link old_fd old_flags old_path new_fd new_path) errno r rest bytes valid
        answer written fits holds =
      let same = some-injective _ _ written in
      replay_path_link-recorded old_fd old_flags old_path new_fd new_path errno r rest
        (rw same fits) (rw same holds)
  replay-made
        (Request.path_open fd dir_flags path open_flags rights_base rights_inheriting fd_flags)
        (newfd, errno) r rest bytes valid answer written fits holds =
      let same = some-injective _ _ written in
      replay_path_open-recorded fd dir_flags path open_flags rights_base rights_inheriting fd_flags
        newfd errno r rest (rw same fits) (rw same holds)
  replay-made (Request.path_read_link fd path buffer) (buffer_after, n, errno) r rest bytes valid
        answer written fits holds =
      let same = some-injective _ _ written in
      replay_path_read_link-recorded fd path buffer buffer_after n errno r rest answer
        (rw same fits) (rw same holds)
  replay-made (Request.path_remove_directory fd path) errno r rest bytes valid answer written fits
        holds =
      let same = some-injective _ _ written in
      replay_path_remove_directory-recorded fd path errno r rest (rw same fits) (rw same holds)
  replay-made (Request.path_rename fd old_path new_fd new_path) errno r rest bytes valid answer
        written fits holds =
      let same = some-injective _ _ written in
      replay_path_rename-recorded fd old_path new_fd new_path errno r rest (rw same fits)
        (rw same holds)
  replay-made (Request.path_symlink old_path fd new_path) errno r rest bytes valid answer written
        fits holds =
      let same = some-injective _ _ written in
      replay_path_symlink-recorded old_path fd new_path errno r rest (rw same fits) (rw same holds)
  replay-made (Request.path_unlink_file fd path) errno r rest bytes valid answer written fits
        holds =
      let same = some-injective _ _ written in
      replay_path_unlink_file-recorded fd path errno r rest (rw same fits) (rw same holds)
  replay-made (Request.poll_one_off subscriptions events) (events_after, n, errno) r rest bytes
        valid answer written fits holds =
      replay_poll_one_off-recorded subscriptions events events_after n errno r rest bytes valid
        answer written fits holds
  replay-made (Request.proc_exit exit_code) errno r rest bytes valid answer written fits holds =
      absurd answer
  replay-made (Request.proc_raise signal) errno r rest bytes valid answer written fits holds =
      let same = some-injective _ _ written in
      replay_proc_raise-recorded signal errno r rest (rw same fits) (rw same holds)
  replay-made Request.sched_yield errno r rest bytes valid answer written fits holds =
      let same = some-injective _ _ written in
      replay_sched_yield-recorded errno r rest (rw same fits) (rw same holds)
  replay-made (Request.random_get buffer) (buffer_after, errno) r rest bytes valid answer written
        fits holds =
      let same = some-injective _ _ written in
      replay_random_get-recorded buffer buffer_after errno r rest answer (rw same fits)
        (rw same holds)
  replay-made (Request.sock_accept fd flags) (newfd, peer, addr, errno) r rest bytes valid answer
        written fits holds =
      let same = some-injective _ _ written in
      replay_sock_accept-recorded fd flags newfd peer addr errno r rest valid (rw same fits)
        (rw same holds)
  replay-made (Request.sock_recv fd iovecs iflags) (iovecs_after, n, oflags, errno) r rest bytes
        valid answer written fits holds =
      let same = some-injective _ _ written in
      replay_sock_recv-recorded fd iovecs iflags iovecs_after n oflags errno r rest valid answer
        (rw same fits) (rw same holds)
  replay-made (Request.sock_send fd iovecs iflags) (n, errno) r rest bytes valid answer written fits
        holds =
      let same = some-injective _ _ written in
      replay_sock_send-recorded fd iovecs iflags n errno r rest valid (rw same fits) (rw same holds)
  replay-made (Request.sock_shutdown fd flags) errno r rest bytes valid answer written fits holds =
      let same = some-injective _ _ written in
      replay_sock_shutdown-recorded fd flags errno r rest (rw same fits) (rw same holds)
  replay-made (Request.sock_open protocol_family socket_type protocol rights_base rights_inheriting)
        (fd, errno) r rest bytes valid answer written fits holds =
      let same = some-injective _ _ written in
      replay_sock_open-recorded protocol_family socket_type protocol rights_base rights_inheriting
        fd errno r rest (rw same fits) (rw same holds)
  replay-made (Request.sock_bind fd bind) (addr, errno) r rest bytes valid answer written fits
        holds =
      let same = some-injective _ _ written in
      replay_sock_bind-recorded fd bind addr errno r rest valid (rw same fits) (rw same holds)
  replay-made (Request.sock_connect fd peer) (addr, errno) r rest bytes valid answer written fits
        holds =
      let same = some-injective _ _ written in
      replay_sock_connect-recorded fd peer addr errno r rest valid (rw same fits) (rw same holds)
  replay-made (Request.sock_listen fd backlog) errno r rest bytes valid answer written fits holds =
      let same = some-injective _ _ written in
      replay_sock_listen-recorded fd backlog errno r rest valid (rw same fits) (rw same holds)
  replay-made (Request.sock_send_to fd iovecs iflags addr) (n, errno) r rest bytes valid answer
        written fits holds =
      let same = some-injective _ _ written in
      replay_sock_send_to-recorded fd iovecs iflags addr n errno r rest valid (rw same fits)
        (rw same holds)
  replay-made (Request.sock_recv_from fd iovecs iflags) (iovecs_after, n, oflags, addr, errno) r
        rest bytes valid answer written fits holds =
      let same = some-injective _ _ written in
      replay_sock_recv_from-recorded fd iovecs iflags iovecs_after n oflags addr errno r rest valid
        answer (rw same fits) (rw same holds)
  replay-made (Request.sock_get_opt fd option) (value, errno) r rest bytes valid answer written fits
        holds =
      let same = some-injective _ _ written in
      replay_sock_get_opt-recorded fd option value errno r rest valid (rw same fits) (rw same holds)
  replay-made (Request.sock_set_opt fd option value) errno r rest bytes valid answer written fits
        holds =
      let same = some-injective _ _ written in
      replay_sock_set_opt-recorded fd option value errno r rest valid (rw same fits) (rw same holds)
  replay-made (Request.sock_local_address fd) (addr, errno) r rest bytes valid answer written fits
        holds =
      let same = some-injective _ _ written in
      replay_sock_local_address-recorded fd addr errno r rest valid (rw same fits) (rw same holds)
  replay-made (Request.sock_remote_address fd) (addr, errno) r rest bytes valid answer written fits
        holds =
      let same = some-injective _ _ written in
      replay_sock_remote_address-recorded fd addr errno r rest valid (rw same fits) (rw same holds)
  replay-made (Request.sock_address_info name service hints buffer) (buffer_after, n, errno) r rest
        bytes valid answer written fits holds =
      let same = some-injective _ _ written in
      replay_sock_address_info-recorded name service hints buffer buffer_after n errno r rest valid
        answer (rw same fits) (rw same holds)
