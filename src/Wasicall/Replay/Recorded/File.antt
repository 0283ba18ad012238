-- ===== src/Wasicall/Replay/Recorded/File.antt =====
-- The replay of the recorded calls: the attributes of a file descriptor.
use timecraft.Common.{List, [], length, refl, ℕ}
use timecraft.Wasicall.Calls.File.{
  decode_fd_advise, decode_fd_allocate, decode_fd_close, decode_fd_data_sync,
  decode_fd_file_stat_get, decode_fd_file_stat_set_size, decode_fd_file_stat_set_times,
  decode_fd_pre_stat_dir_name, decode_fd_pre_stat_get, decode_fd_stat_get, decode_fd_stat_set_flags,
  decode_fd_stat_set_rights, encode_fd_advise, encode_fd_allocate, encode_fd_close,
  encode_fd_data_sync, encode_fd_file_stat_get, encode_fd_file_stat_set_size,
  encode_fd_file_stat_set_times, encode_fd_pre_stat_dir_name, encode_fd_pre_stat_get,
  encode_fd_stat_get, encode_fd_stat_set_flags, encode_fd_stat_set_rights,
}
use timecraft.Wasicall.Calls.File.RoundTrip.{
  fd_advise_lem, fd_allocate_lem, fd_close_lem, fd_data_sync_lem, fd_file_stat_get_lem,
  fd_file_stat_set_size_lem, fd_file_stat_set_times_lem, fd_pre_stat_dir_name_lem,
  fd_pre_stat_get_lem, fd_stat_get_lem, fd_stat_set_flags_lem, fd_stat_set_rights_lem,
}
use timecraft.Wasicall.Replay.Buffers.{closing-records}
use timecraft.Wasicall.Replay.File.{
  replay_fd_advise, replay_fd_allocate, replay_fd_close, replay_fd_data_sync,
  replay_fd_file_stat_get, replay_fd_file_stat_set_size, replay_fd_file_stat_set_times,
  replay_fd_pre_stat_dir_name, replay_fd_pre_stat_get, replay_fd_stat_get, replay_fd_stat_set_flags,
  replay_fd_stat_set_rights,
}
use timecraft.Wasicall.Replay.Recorded.{Answers, Holds, answers, passes, selves}
use timecraft.Wasicall.Replay.State.{Replay, advance, mismatches}
use timecraft.Wasicall.Stats.{FdStat, FileStat, PreStat}
use timecraft.Wasicall.Syscall.Call.{Syscall}
use timecraft.Wasicall.Syscall.Ids.{SyscallId}
use timecraft.Wasicall.Syscall.Log.{Record}
use timecraft.Wasicall.Syscall.Recordable.{IsRecordable}
use timecraft.Wasicall.Syscall.RoundTrip.{decoded}
use timecraft.Wasicall.Wasi.{
  Advice, Errno, Fd, FdFlags, FileSize, FstFlags, Rights, Timestamp, Wasi,
}
use timecraft.Wasicall.Words.RoundTrip.{Fits}

module _ ⦃w : Wasi⦄ {Time Fault W : Type 0} where
  pub replay_fd_advise-recorded :
      (fd : Fd) (offset : FileSize) (length : FileSize) (advice : Advice) (errno : Errno)
      (r : Replay Time Fault W) (rest : List (Record Time))
      → Fits (encode_fd_advise [] fd offset length advice errno)
      → Holds r SyscallId.fd_advise (encode_fd_advise [] fd offset length advice errno) rest
      → Answers (replay_fd_advise fd offset length advice r) errno r rest
  unfolding replay_fd_advise mismatches
  replay_fd_advise-recorded fd offset length advice errno r rest fits holds =
      answers _ _ _ holds
        (decoded decode_fd_advise _ (fd_advise_lem fd offset length advice errno []) fits)
        (passes _ _ (simp selves) (record { returned = refl; left = refl }))

  pub replay_fd_allocate-recorded :
      (fd : Fd) (offset : FileSize) (length : FileSize) (errno : Errno) (r : Replay Time Fault W)
      (rest : List (Record Time))
      → Fits (encode_fd_allocate [] fd offset length errno)
      → Holds r SyscallId.fd_allocate (encode_fd_allocate [] fd offset length errno) rest
      → Answers (replay_fd_allocate fd offset length r) errno r rest
  unfolding replay_fd_allocate mismatches
  replay_fd_allocate-recorded fd offset length errno r rest fits holds =
      answers _ _ _ holds
        (decoded decode_fd_allocate _ (fd_allocate_lem fd offset length errno []) fits)
        (passes _ _ (simp selves) (record { returned = refl; left = refl }))

  pub replay_fd_close-recorded :
      (fd : Fd) (errno : Errno) (r : Replay Time Fault W) (rest : List (Record Time))
      → Fits (encode_fd_close [] fd errno)
      → Holds r SyscallId.fd_close (encode_fd_close [] fd errno) rest
      → Answers (replay_fd_close fd r) errno r rest
  unfolding replay_fd_close mismatches
  replay_fd_close-recorded fd errno r rest fits holds =
      answers _ _ _ holds (decoded decode_fd_close _ (fd_close_lem fd errno []) fits) (
        passes _ _ (simp selves)
          (record { returned = refl; left = closing-records fd (advance rest r) }))

  pub replay_fd_data_sync-recorded :
      (fd : Fd) (errno : Errno) (r : Replay Time Fault W) (rest : List (Record Time))
      → Fits (encode_fd_data_sync [] fd errno)
      → Holds r SyscallId.fd_data_sync (encode_fd_data_sync [] fd errno) rest
      → Answers (replay_fd_data_sync fd r) errno r rest
  unfolding replay_fd_data_sync mismatches
  replay_fd_data_sync-recorded fd errno r rest fits holds =
      answers _ _ _ holds (decoded decode_fd_data_sync _ (fd_data_sync_lem fd errno []) fits)
        (passes _ _ (simp selves) (record { returned = refl; left = refl }))

  pub replay_fd_stat_get-recorded :
      (fd : Fd) (stat : FdStat) (errno : Errno) (r : Replay Time Fault W)
      (rest : List (Record Time))
      → Fits (encode_fd_stat_get [] fd stat errno)
      → Holds r SyscallId.fd_stat_get (encode_fd_stat_get [] fd stat errno) rest
      → Answers (replay_fd_stat_get fd r) (stat, errno) r rest
  unfolding replay_fd_stat_get mismatches
  replay_fd_stat_get-recorded fd stat errno r rest fits holds =
      answers _ _ _ holds (decoded decode_fd_stat_get _ (fd_stat_get_lem fd stat errno []) fits)
        (passes _ _ (simp selves) (record { returned = refl; left = refl }))

  pub replay_fd_stat_set_flags-recorded :
      (fd : Fd) (flags : FdFlags) (errno : Errno) (r : Replay Time Fault W)
      (rest : List (Record Time))
      → Fits (encode_fd_stat_set_flags [] fd flags errno)
      → Holds r SyscallId.fd_stat_set_flags (encode_fd_stat_set_flags [] fd flags errno) rest
      → Answers (replay_fd_stat_set_flags fd flags r) errno r rest
  unfolding replay_fd_stat_set_flags mismatches
  replay_fd_stat_set_flags-recorded fd flags errno r rest fits holds =
      answers _ _ _ holds
        (decoded decode_fd_stat_set_flags _ (fd_stat_set_flags_lem fd flags errno []) fits)
        (passes _ _ (simp selves) (record { returned = refl; left = refl }))

  pub replay_fd_stat_set_rights-recorded :
      (fd : Fd) (rights_base : Rights) (rights_inheriting : Rights) (errno : Errno)
      (r : Replay Time Fault W) (rest : List (Record Time))
      → Fits (encode_fd_stat_set_rights [] fd rights_base rights_inheriting errno)
      → Holds r SyscallId.fd_stat_set_rights
          (encode_fd_stat_set_rights [] fd rights_base rights_inheriting errno)
          rest
      → Answers (replay_fd_stat_set_rights fd rights_base rights_inheriting r) errno r rest
  unfolding replay_fd_stat_set_rights mismatches
  replay_fd_stat_set_rights-recorded fd rights_base rights_inheriting errno r rest fits holds =
      answers _ _ _ holds
        (decoded decode_fd_stat_set_rights _
          (fd_stat_set_rights_lem fd rights_base rights_inheriting errno []) fits)
        (passes _ _ (simp selves) (record { returned = refl; left = refl }))

  pub replay_fd_file_stat_get-recorded :
      (fd : Fd) (stat : FileStat) (errno : Errno) (r : Replay Time Fault W)
      (rest : List (Record Time))
      → Fits (encode_fd_file_stat_get [] fd stat errno)
      → Holds r SyscallId.fd_file_stat_get (encode_fd_file_stat_get [] fd stat errno) rest
      → Answers (replay_fd_file_stat_get fd r) (stat, errno) r rest
  unfolding replay_fd_file_stat_get mismatches
  replay_fd_file_stat_get-recorded fd stat errno r rest fits holds =
      answers _ _ _ holds
        (decoded decode_fd_file_stat_get _ (fd_file_stat_get_lem fd stat errno []) fits)
        (passes _ _ (simp selves) (record { returned = refl; left = refl }))

  pub replay_fd_file_stat_set_size-recorded :
      (fd : Fd) (size : FileSize) (errno : Errno) (r : Replay Time Fault W)
      (rest : List (Record Time))
      → Fits (encode_fd_file_stat_set_size [] fd size errno)
      → Holds r SyscallId.fd_file_stat_set_size (encode_fd_file_stat_set_size [] fd size errno) rest
      → Answers (replay_fd_file_stat_set_size fd size r) errno r rest
  unfolding replay_fd_file_stat_set_size mismatches
  replay_fd_file_stat_set_size-recorded fd size errno r rest fits holds =
      answers _ _ _ holds
        (decoded decode_fd_file_stat_set_size _ (fd_file_stat_set_size_lem fd size errno []) fits)
        (passes _ _ (simp selves) (record { returned = refl; left = refl }))

  pub replay_fd_file_stat_set_times-recorded :
      (fd : Fd) (access_time : Timestamp) (modify_time : Timestamp) (flags : FstFlags)
      (errno : Errno) (r : Replay Time Fault W) (rest : List (Record Time))
      → Fits (encode_fd_file_stat_set_times [] fd access_time modify_time flags errno)
      → Holds r SyscallId.fd_file_stat_set_times
          (encode_fd_file_stat_set_times [] fd access_time modify_time flags errno)
          rest
      → Answers (replay_fd_file_stat_set_times fd access_time modify_time flags r) errno r rest
  unfolding replay_fd_file_stat_set_times mismatches
  replay_fd_file_stat_set_times-recorded fd access_time modify_time flags errno r rest fits holds =
      answers _ _ _ holds
        (decoded decode_fd_file_stat_set_times _
          (fd_file_stat_set_times_lem fd access_time modify_time flags errno []) fits)
        (passes _ _ (simp selves) (record { returned = refl; left = refl }))

  pub replay_fd_pre_stat_get-recorded :
      (fd : Fd) (stat : PreStat) (errno : Errno) (r : Replay Time Fault W)
      (rest : List (Record Time))
      → IsRecordable (Syscall.fd_pre_stat_get fd stat errno)
      → Fits (encode_fd_pre_stat_get [] fd stat errno)
      → Holds r SyscallId.fd_pre_stat_get (encode_fd_pre_stat_get [] fd stat errno) rest
      → Answers (replay_fd_pre_stat_get fd r) (stat, errno) r rest
  unfolding replay_fd_pre_stat_get mismatches
  replay_fd_pre_stat_get-recorded fd stat errno r rest valid fits holds =
      answers _ _ _ holds
        (decoded decode_fd_pre_stat_get _ (fd_pre_stat_get_lem fd stat errno [] valid) fits)
        (passes _ _ (simp selves) (record { returned = refl; left = refl }))

  pub replay_fd_pre_stat_dir_name-recorded :
      (fd : Fd) (name : List ℕ) (errno : Errno) (r : Replay Time Fault W)
      (rest : List (Record Time))
      → Fits (encode_fd_pre_stat_dir_name [] fd name errno)
      → Holds r SyscallId.fd_pre_stat_dir_name (encode_fd_pre_stat_dir_name [] fd name errno) rest
      → Answers (replay_fd_pre_stat_dir_name fd r) (name, errno) r rest
  unfolding replay_fd_pre_stat_dir_name mismatches
  replay_fd_pre_stat_dir_name-recorded fd name errno r rest fits holds =
      answers _ _ _ holds
        (decoded decode_fd_pre_stat_dir_name _ (fd_pre_stat_dir_name_lem fd name errno []) fits)
        (passes _ _ (simp selves) (record { returned = refl; left = refl }))
