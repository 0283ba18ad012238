-- ===== src/Wasicall/Replay/File.antt =====
-- internal/timemachine/wasicall/replay.go: the methods of Replay for the attributes of a file descriptor.
use timecraft.Common.{List, [], length, ℕ, ◌∷◌}
use timecraft.Common.Result.{ok}
use timecraft.Wasicall.Calls.File.{
  decode_fd_advise, decode_fd_allocate, decode_fd_close, decode_fd_data_sync,
  decode_fd_file_stat_get, decode_fd_file_stat_set_size, decode_fd_file_stat_set_times,
  decode_fd_pre_stat_dir_name, decode_fd_pre_stat_get, decode_fd_stat_get, decode_fd_stat_set_flags,
  decode_fd_stat_set_rights,
}
use timecraft.Wasicall.Replay.State.{Replay, checked, closing, replaying}
use timecraft.Wasicall.Stats.{FdStat, FileStat, PreStat}
use timecraft.Wasicall.Syscall.Ids.{SyscallId}
use timecraft.Wasicall.System.{same, zero_fd_stat, zero_file_stat, zero_pre_stat}
use timecraft.Wasicall.System.Request.{Outcome}
use timecraft.Wasicall.Wasi.{
  Advice, Errno, Fd, FdFlags, FileSize, FstFlags, Rights, Timestamp, Wasi,
}

module _ ⦃w : Wasi⦄ {Time Fault W : Type 0} where
  unfoldable pub replay_fd_advise :
      Fd
      → FileSize
      → FileSize
      → Advice
      → Replay Time Fault W
      → Outcome Fault Errno (Replay Time Fault W)
  replay_fd_advise fd offset length advice r =
      replaying SyscallId.fd_advise w.enosys decode_fd_advise r
        λ (record_fd, record_offset, record_length, record_advice, errno) r.
          checked
            ((SyscallId.fd_advise, "fd", same w.fd fd record_fd)
              ∷ (SyscallId.fd_advise, "offset", same w.file_size offset record_offset)
              ∷ (SyscallId.fd_advise, "length", same w.file_size length record_length)
              ∷ (SyscallId.fd_advise, "advice", same w.advice advice record_advice)
              ∷ [])
            r (ok errno, r)

  unfoldable pub replay_fd_allocate :
      Fd → FileSize → FileSize → Replay Time Fault W → Outcome Fault Errno (Replay Time Fault W)
  replay_fd_allocate fd offset length r =
      replaying SyscallId.fd_allocate w.enosys decode_fd_allocate r
        λ (record_fd, record_offset, record_length, errno) r.
          checked
            ((SyscallId.fd_allocate, "fd", same w.fd fd record_fd)
              ∷ (SyscallId.fd_allocate, "offset", same w.file_size offset record_offset)
              ∷ (SyscallId.fd_allocate, "length", same w.file_size length record_length)
              ∷ [])
            r (ok errno, r)

  unfoldable pub replay_fd_close :
      Fd → Replay Time Fault W → Outcome Fault Errno (Replay Time Fault W)
  replay_fd_close fd r =
      replaying SyscallId.fd_close w.enosys decode_fd_close r λ (record_fd, errno) r.
        checked ((SyscallId.fd_close, "fd", same w.fd fd record_fd) ∷ []) r (ok errno, closing fd r)

  unfoldable pub replay_fd_data_sync :
      Fd → Replay Time Fault W → Outcome Fault Errno (Replay Time Fault W)
  replay_fd_data_sync fd r =
      replaying SyscallId.fd_data_sync w.enosys decode_fd_data_sync r λ (record_fd, errno) r.
        checked ((SyscallId.fd_data_sync, "fd", same w.fd fd record_fd) ∷ []) r (ok errno, r)

  unfoldable pub replay_fd_stat_get :
      Fd → Replay Time Fault W → Outcome Fault (FdStat × Errno) (Replay Time Fault W)
  replay_fd_stat_get fd r =
      replaying SyscallId.fd_stat_get (zero_fd_stat, w.enosys) decode_fd_stat_get r
        λ (record_fd, stat, errno) r.
          checked ((SyscallId.fd_stat_get, "fd", same w.fd fd record_fd) ∷ []) r
            (ok (stat, errno), r)

  unfoldable pub replay_fd_stat_set_flags :
      Fd → FdFlags → Replay Time Fault W → Outcome Fault Errno (Replay Time Fault W)
  replay_fd_stat_set_flags fd flags r =
      replaying SyscallId.fd_stat_set_flags w.enosys decode_fd_stat_set_flags r
        λ (record_fd, record_flags, errno) r.
          checked
            ((SyscallId.fd_stat_set_flags, "fd", same w.fd fd record_fd)
              ∷ (SyscallId.fd_stat_set_flags, "flags", same w.fd_flags flags record_flags)
              ∷ [])
            r (ok errno, r)

  unfoldable pub replay_fd_stat_set_rights :
      Fd → Rights → Rights → Replay Time Fault W → Outcome Fault Errno (Replay Time Fault W)
  replay_fd_stat_set_rights fd rights_base rights_inheriting r =
      replaying SyscallId.fd_stat_set_rights w.enosys decode_fd_stat_set_rights r
        λ (record_fd, record_rights_base, record_rights_inheriting, errno) r.
          checked
            ((SyscallId.fd_stat_set_rights, "fd", same w.fd fd record_fd)
              ∷ (
                SyscallId.fd_stat_set_rights,
                "rightsBase",
                same w.rights rights_base record_rights_base,
              )
              ∷ (
                SyscallId.fd_stat_set_rights,
                "rightsInheriting",
                same w.rights rights_inheriting record_rights_inheriting,
              )
              ∷ [])
            r (ok errno, r)

  unfoldable pub replay_fd_file_stat_get :
      Fd → Replay Time Fault W → Outcome Fault (FileStat × Errno) (Replay Time Fault W)
  replay_fd_file_stat_get fd r =
      replaying SyscallId.fd_file_stat_get (zero_file_stat, w.enosys) decode_fd_file_stat_get r
        λ (record_fd, stat, errno) r.
          checked ((SyscallId.fd_file_stat_get, "fd", same w.fd fd record_fd) ∷ []) r
            (ok (stat, errno), r)

  unfoldable pub replay_fd_file_stat_set_size :
      Fd → FileSize → Replay Time Fault W → Outcome Fault Errno (Replay Time Fault W)
  replay_fd_file_stat_set_size fd size r =
      replaying SyscallId.fd_file_stat_set_size w.enosys decode_fd_file_stat_set_size r
        λ (record_fd, record_size, errno) r.
          checked
            ((SyscallId.fd_file_stat_set_size, "fd", same w.fd fd record_fd)
              ∷ (SyscallId.fd_file_stat_set_size, "size", same w.file_size size record_size)
              ∷ [])
            r (ok errno, r)

  unfoldable pub replay_fd_file_stat_set_times :
      Fd
      → Timestamp
      → Timestamp
      → FstFlags
      → Replay Time Fault W
      → Outcome Fault Errno (Replay Time Fault W)
  replay_fd_file_stat_set_times fd access_time modify_time flags r =
      replaying SyscallId.fd_file_stat_set_times w.enosys decode_fd_file_stat_set_times r
        λ (record_fd, record_access_time, record_modify_time, record_flags, errno) r.
          checked
            ((SyscallId.fd_file_stat_set_times, "fd", same w.fd fd record_fd)
              ∷ (
                SyscallId.fd_file_stat_set_times,
                "accessTime",
                same w.timestamp access_time record_access_time,
              )
              ∷ (
                SyscallId.fd_file_stat_set_times,
                "modifyTime",
                same w.timestamp modify_time record_modify_time,
              )
              ∷ (SyscallId.fd_file_stat_set_times, "flags", same w.fst_flags flags record_flags)
              ∷ [])
            r (ok errno, r)

  unfoldable pub replay_fd_pre_stat_get :
      Fd → Replay Time Fault W → Outcome Fault (PreStat × Errno) (Replay Time Fault W)
  replay_fd_pre_stat_get fd r =
      replaying SyscallId.fd_pre_stat_get (zero_pre_stat, w.enosys) decode_fd_pre_stat_get r
        λ (record_fd, stat, errno) r.
          checked ((SyscallId.fd_pre_stat_get, "fd", same w.fd fd record_fd) ∷ []) r
            (ok (stat, errno), r)

  unfoldable pub replay_fd_pre_stat_dir_name :
      Fd → Replay Time Fault W → Outcome Fault (List ℕ × Errno) (Replay Time Fault W)
  replay_fd_pre_stat_dir_name fd r =
      replaying SyscallId.fd_pre_stat_dir_name ([], w.enosys) decode_fd_pre_stat_dir_name r
        λ (record_fd, name, errno) r.
          checked ((SyscallId.fd_pre_stat_dir_name, "fd", same w.fd fd record_fd) ∷ []) r
            (ok (name, errno), r)
