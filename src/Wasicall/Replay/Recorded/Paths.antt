-- ===== src/Wasicall/Replay/Recorded/Paths.antt =====
-- The replay of the recorded calls: the calls on paths.
use timecraft.Common.{List, [], refl, ℕ}
use timecraft.Common.Int.{ℤ}
use timecraft.Wasicall.Calls.Paths.{
  decode_path_create_directory, decode_path_file_stat_get, decode_path_file_stat_set_times,
  decode_path_link, decode_path_open, decode_path_read_link, decode_path_remove_directory,
  decode_path_rename, decode_path_symlink, decode_path_unlink_file, encode_path_create_directory,
  encode_path_file_stat_get, encode_path_file_stat_set_times, encode_path_link, encode_path_open,
  encode_path_read_link, encode_path_remove_directory, encode_path_rename, encode_path_symlink,
  encode_path_unlink_file,
}
use timecraft.Wasicall.Calls.Paths.RoundTrip.{
  path_create_directory_lem, path_file_stat_get_lem, path_file_stat_set_times_lem, path_link_lem,
  path_open_lem, path_read_link_lem, path_remove_directory_lem, path_rename_lem, path_symlink_lem,
  path_unlink_file_lem,
}
use timecraft.Wasicall.Replay.Buffers.{copy-Counted, count-Counted, room-Counted}
use timecraft.Wasicall.Replay.Paths.{
  replay_path_create_directory, replay_path_file_stat_get, replay_path_file_stat_set_times,
  replay_path_link, replay_path_open, replay_path_read_link, replay_path_remove_directory,
  replay_path_rename, replay_path_symlink, replay_path_unlink_file,
}
use timecraft.Wasicall.Replay.Recorded.{Answers, Holds, answers, passes, selves}
use timecraft.Wasicall.Replay.State.{Replay, mismatches}
use timecraft.Wasicall.Stats.{FileStat}
use timecraft.Wasicall.Syscall.Ids.{SyscallId}
use timecraft.Wasicall.Syscall.Log.{Record}
use timecraft.Wasicall.Syscall.RoundTrip.{decoded}
use timecraft.Wasicall.System.{cut}
use timecraft.Wasicall.System.Exchange.{Counted}
use timecraft.Wasicall.Wasi.{
  Errno, Fd, FdFlags, FstFlags, LookupFlags, OpenFlags, Rights, Timestamp, Wasi,
}
use timecraft.Wasicall.Words.RoundTrip.{Fits}

module _ ⦃w : Wasi⦄ {Time Fault W : Type 0} where
  pub replay_path_create_directory-recorded :
      (fd : Fd) (path : List ℕ) (errno : Errno) (r : Replay Time Fault W)
      (rest : List (Record Time))
      → Fits (encode_path_create_directory [] fd path errno)
      → Holds r SyscallId.path_create_directory (encode_path_create_directory [] fd path errno) rest
      → Answers (replay_path_create_directory fd path r) errno r rest
  unfolding replay_path_create_directory mismatches
  replay_path_create_directory-recorded fd path errno r rest fits holds =
      answers _ _ _ holds
        (decoded decode_path_create_directory _ (path_create_directory_lem fd path errno []) fits)
        (passes _ _ (simp selves) (record { returned = refl; left = refl }))

  pub replay_path_file_stat_get-recorded :
      (fd : Fd) (lookup_flags : LookupFlags) (path : List ℕ) (filestat : FileStat) (errno : Errno)
      (r : Replay Time Fault W) (rest : List (Record Time))
      → Fits (encode_path_file_stat_get [] fd lookup_flags path filestat errno)
      → Holds r SyscallId.path_file_stat_get
          (encode_path_file_stat_get [] fd lookup_flags path filestat errno)
          rest
      → Answers (replay_path_file_stat_get fd lookup_flags path r) (filestat, errno) r rest
  unfolding replay_path_file_stat_get mismatches
  replay_path_file_stat_get-recorded fd lookup_flags path filestat errno r rest fits holds =
      answers _ _ _ holds
        (decoded decode_path_file_stat_get _
          (path_file_stat_get_lem fd lookup_flags path filestat errno []) fits)
        (passes _ _ (simp selves) (record { returned = refl; left = refl }))

  pub replay_path_file_stat_set_times-recorded :
      (fd : Fd) (lookup_flags : LookupFlags) (path : List ℕ) (access_time : Timestamp)
      (modify_time : Timestamp) (flags : FstFlags) (errno : Errno) (r : Replay Time Fault W)
      (rest : List (Record Time))
      → Fits (
          encode_path_file_stat_set_times [] fd lookup_flags path access_time modify_time flags
            errno)
      → Holds r SyscallId.path_file_stat_set_times
          (encode_path_file_stat_set_times [] fd lookup_flags path access_time modify_time flags
            errno)
          rest
      → Answers
          (replay_path_file_stat_set_times fd lookup_flags path access_time modify_time flags r)
          errno
          r
          rest
  unfolding replay_path_file_stat_set_times mismatches
  replay_path_file_stat_set_times-recorded fd lookup_flags path access_time modify_time flags errno
        r rest fits holds =
      answers _ _ _ holds
        (decoded decode_path_file_stat_set_times _
          (path_file_stat_set_times_lem fd lookup_flags path access_time modify_time flags errno [])
          fits)
        (passes _ _ (simp selves) (record { returned = refl; left = refl }))

  pub replay_path_link-recorded :
      (old_fd : Fd) (old_flags : LookupFlags) (old_path : List ℕ) (new_fd : Fd) (new_path : List ℕ)
      (errno : Errno) (r : Replay Time Fault W) (rest : List (Record Time))
      → Fits (encode_path_link [] old_fd old_flags old_path new_fd new_path errno)
      → Holds r SyscallId.path_link
          (encode_path_link [] old_fd old_flags old_path new_fd new_path errno)
          rest
      → Answers (replay_path_link old_fd old_flags old_path new_fd new_path r) errno r rest
  unfolding replay_path_link mismatches
  replay_path_link-recorded old_fd old_flags old_path new_fd new_path errno r rest fits holds =
      answers _ _ _ holds
        (decoded decode_path_link _
          (path_link_lem old_fd old_flags old_path new_fd new_path errno []) fits)
        (passes _ _ (simp selves) (record { returned = refl; left = refl }))

  pub replay_path_open-recorded :
      (fd : Fd) (dir_flags : LookupFlags) (path : List ℕ) (open_flags : OpenFlags)
      (rights_base : Rights) (rights_inheriting : Rights) (fd_flags : FdFlags) (newfd : Fd)
      (errno : Errno) (r : Replay Time Fault W) (rest : List (Record Time))
      → Fits (
          encode_path_open [] fd dir_flags path open_flags rights_base rights_inheriting fd_flags
            newfd errno)
      → Holds r SyscallId.path_open
          (encode_path_open [] fd dir_flags path open_flags rights_base rights_inheriting fd_flags
            newfd errno)
          rest
      → Answers
          (replay_path_open fd dir_flags path open_flags rights_base rights_inheriting fd_flags r)
          (newfd, errno)
          r
          rest
  unfolding replay_path_open mismatches
  replay_path_open-recorded fd dir_flags path open_flags rights_base rights_inheriting fd_flags
        newfd errno r rest fits holds =
      answers _ _ _ holds
        (decoded decode_path_open _
          (path_open_lem fd dir_flags path open_flags rights_base rights_inheriting fd_flags newfd
            errno [])
          fits)
        (passes _ _ (simp selves) (record { returned = refl; left = refl }))

  pub replay_path_read_link-recorded :
      (fd : Fd) (path : List ℕ) (buffer : List ℕ) (buffer_after : List ℕ) (n : ℤ) (errno : Errno)
      (r : Replay Time Fault W) (rest : List (Record Time))
      → Counted n buffer buffer_after
      → Fits (encode_path_read_link [] fd path (cut n buffer_after) errno)
      → Holds r SyscallId.path_read_link
          (encode_path_read_link [] fd path (cut n buffer_after) errno)
          rest
      → Answers (replay_path_read_link fd path buffer r) (buffer_after, n, errno) r rest
  unfolding replay_path_read_link mismatches
  replay_path_read_link-recorded fd path buffer buffer_after n errno r rest answer fits holds =
      answers _ _ _ holds
        (decoded decode_path_read_link _ (path_read_link_lem fd path (cut n buffer_after) errno [])
          fits)
        (passes _ _ (simp (selves, room-Counted n buffer buffer_after answer)) (
          rw (copy-Counted n buffer buffer_after answer, count-Counted n buffer buffer_after answer)
            (record { returned = refl; left = refl })))

  pub replay_path_remove_directory-recorded :
      (fd : Fd) (path : List ℕ) (errno : Errno) (r : Replay Time Fault W)
      (rest : List (Record Time))
      → Fits (encode_path_remove_directory [] fd path errno)
      → Holds r SyscallId.path_remove_directory (encode_path_remove_directory [] fd path errno) rest
      → Answers (replay_path_remove_directory fd path r) errno r rest
  unfolding replay_path_remove_directory mismatches
  replay_path_remove_directory-recorded fd path errno r rest fits holds =
      answers _ _ _ holds
        (decoded decode_path_remove_directory _ (path_remove_directory_lem fd path errno []) fits)
        (passes _ _ (simp selves) (record { returned = refl; left = refl }))

  pub replay_path_rename-recorded :
      (fd : Fd) (old_path : List ℕ) (new_fd : Fd) (new_path : List ℕ) (errno : Errno)
      (r : Replay Time Fault W) (rest : List (Record Time))
      → Fits (encode_path_rename [] fd old_path new_fd new_path errno)
      → Holds r SyscallId.path_rename (encode_path_rename [] fd old_path new_fd new_path errno) rest
      → Answers (replay_path_rename fd old_path new_fd new_path r) errno r rest
  unfolding replay_path_rename mismatches
  replay_path_rename-recorded fd old_path new_fd new_path errno r rest fits holds =
      answers _ _ _ holds
        (decoded decode_path_rename _ (path_rename_lem fd old_path new_fd new_path errno []) fits)
        (passes _ _ (simp selves) (record { returned = refl; left = refl }))

  pub replay_path_symlink-recorded :
      (old_path : List ℕ) (fd : Fd) (new_path : List ℕ) (errno : Errno) (r : Replay Time Fault W)
      (rest : List (Record Time))
      → Fits (encode_path_symlink [] old_path fd new_path errno)
      → Holds r SyscallId.path_symlink (encode_path_symlink [] old_path fd new_path errno) rest
      → Answers (replay_path_symlink old_path fd new_path r) errno r rest
  unfolding replay_path_symlink mismatches
  replay_path_symlink-recorded old_path fd new_path errno r rest fits holds =
      answers _ _ _ holds
        (decoded decode_path_symlink _ (path_symlink_lem old_path fd new_path errno []) fits)
        (passes _ _ (simp selves) (record { returned = refl; left = refl }))

  pub replay_path_unlink_file-recorded :
      (fd : Fd) (path : List ℕ) (errno : Errno) (r : Replay Time Fault W)
      (rest : List (Record Time))
      → Fits (encode_path_unlink_file [] fd path errno)
      → Holds r SyscallId.path_unlink_file (encode_path_unlink_file [] fd path errno) rest
      → Answers (replay_path_unlink_file fd path r) errno r rest
  unfolding replay_path_unlink_file mismatches
  replay_path_unlink_file-recorded fd path errno r rest fits holds =
      answers _ _ _ holds
        (decoded decode_path_unlink_file _ (path_unlink_file_lem fd path errno []) fits)
        (passes _ _ (simp selves) (record { returned = refl; left = refl }))
