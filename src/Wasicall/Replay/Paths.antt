-- ===== src/Wasicall/Replay/Paths.antt =====
-- internal/timemachine/wasicall/replay.go: the methods of Replay for the calls on paths.
use timecraft.Common.{List, [], leb, length, ℕ, ◌∷◌}
use timecraft.Common.Int.{pos, ℤ}
use timecraft.Common.Result.{ok}
use timecraft.Wasicall.Calls.Paths.{
  decode_path_create_directory, decode_path_file_stat_get, decode_path_file_stat_set_times,
  decode_path_link, decode_path_open, decode_path_read_link, decode_path_remove_directory,
  decode_path_rename, decode_path_symlink, decode_path_unlink_file,
}
use timecraft.Wasicall.Replay.Equal.{same_bytes}
use timecraft.Wasicall.Replay.State.{Replay, checked, replaying}
use timecraft.Wasicall.Stats.{FileStat}
use timecraft.Wasicall.Syscall.Ids.{SyscallId}
use timecraft.Wasicall.System.{copy, none_fd, same, zero_file_stat}
use timecraft.Wasicall.System.Request.{Outcome}
use timecraft.Wasicall.Wasi.{
  Errno, Fd, FdFlags, FstFlags, LookupFlags, OpenFlags, Rights, Timestamp, Wasi,
}

module _ ⦃w : Wasi⦄ {Time Fault W : Type 0} where
  unfoldable pub replay_path_create_directory :
      Fd → List ℕ → Replay Time Fault W → Outcome Fault Errno (Replay Time Fault W)
  replay_path_create_directory fd path r =
      replaying SyscallId.path_create_directory w.enosys decode_path_create_directory r
        λ (record_fd, record_path, errno) r.
          checked
            ((SyscallId.path_create_directory, "fd", same w.fd fd record_fd)
              ∷ (SyscallId.path_create_directory, "path", same_bytes path record_path)
              ∷ [])
            r (ok errno, r)

  unfoldable pub replay_path_file_stat_get :
      Fd
      → LookupFlags
      → List ℕ
      → Replay Time Fault W
      → Outcome Fault (FileStat × Errno) (Replay Time Fault W)
  replay_path_file_stat_get fd lookup_flags path r =
      replaying SyscallId.path_file_stat_get (zero_file_stat, w.enosys) decode_path_file_stat_get r
        λ (record_fd, record_lookup_flags, record_path, stat, errno) r.
          checked
            ((SyscallId.path_file_stat_get, "fd", same w.fd fd record_fd)
              ∷ (
                SyscallId.path_file_stat_get,
                "lookupFlags",
                same w.lookup_flags lookup_flags record_lookup_flags,
              )
              ∷ (SyscallId.path_file_stat_get, "path", same_bytes path record_path)
              ∷ [])
            r (ok (stat, errno), r)

  unfoldable pub replay_path_file_stat_set_times :
      Fd
      → LookupFlags
      → List ℕ
      → Timestamp
      → Timestamp
      → FstFlags
      → Replay Time Fault W
      → Outcome Fault Errno (Replay Time Fault W)
  replay_path_file_stat_set_times fd lookup_flags path access_time modify_time flags r =
      replaying SyscallId.path_file_stat_set_times w.enosys decode_path_file_stat_set_times r
        λ (
          record_fd, record_lookup_flags, record_path, record_access_time, record_modify_time,
          record_flags, errno,
        )
            r.
          checked
            ((SyscallId.path_file_stat_set_times, "fd", same w.fd fd record_fd)
              ∷ (
                SyscallId.path_file_stat_set_times,
                "lookupFlags",
                same w.lookup_flags lookup_flags record_lookup_flags,
              )
              ∷ (
                SyscallId.path_file_stat_set_times,
                "accessTime",
                same w.timestamp access_time record_access_time,
              )
              ∷ (
                SyscallId.path_file_stat_set_times,
                "modifyTime",
                same w.timestamp modify_time record_modify_time,
              )
              ∷ (SyscallId.path_file_stat_set_times, "flags", same w.fst_flags flags record_flags)
              ∷ (SyscallId.path_file_stat_set_times, "path", same_bytes path record_path)
              ∷ [])
            r (ok errno, r)

  unfoldable pub replay_path_link :
      Fd
      → LookupFlags
      → List ℕ
      → Fd
      → List ℕ
      → Replay Time Fault W
      → Outcome Fault Errno (Replay Time Fault W)
  replay_path_link old_fd old_flags old_path new_fd new_path r =
      replaying SyscallId.path_link w.enosys decode_path_link r
        λ (record_old_fd, record_old_flags, record_old_path, record_new_fd, record_new_path, errno)
            r.
          checked
            ((SyscallId.path_link, "oldFD", same w.fd old_fd record_old_fd)
              ∷ (SyscallId.path_link, "oldFlags", same w.lookup_flags old_flags record_old_flags)
              ∷ (SyscallId.path_link, "oldPath", same_bytes old_path record_old_path)
              ∷ (SyscallId.path_link, "newFD", same w.fd new_fd record_new_fd)
              ∷ (SyscallId.path_link, "newPath", same_bytes new_path record_new_path)
              ∷ [])
            r (ok errno, r)

  unfoldable pub replay_path_open :
      Fd
      → LookupFlags
      → List ℕ
      → OpenFlags
      → Rights
      → Rights
      → FdFlags
      → Replay Time Fault W
      → Outcome Fault (Fd × Errno) (Replay Time Fault W)
  replay_path_open fd dir_flags path open_flags rights_base rights_inheriting fd_flags r =
      replaying SyscallId.path_open (none_fd, w.enosys) decode_path_open r
        λ (
          record_fd, record_dir_flags, record_path, record_open_flags, record_rights_base,
          record_rights_inheriting, record_fd_flags, newfd, errno,
        )
            r.
          checked
            ((SyscallId.path_open, "fd", same w.fd fd record_fd)
              ∷ (SyscallId.path_open, "dirFlags", same w.lookup_flags dir_flags record_dir_flags)
              ∷ (SyscallId.path_open, "path", same_bytes path record_path)
              ∷ (SyscallId.path_open, "openFlags", same w.open_flags open_flags record_open_flags)
              ∷ (SyscallId.path_open, "rightsBase", same w.rights rights_base record_rights_base)
              ∷ (
                SyscallId.path_open,
                "rightsInheriting",
                same w.rights rights_inheriting record_rights_inheriting,
              )
              ∷ (SyscallId.path_open, "fdFlags", same w.fd_flags fd_flags record_fd_flags)
              ∷ [])
            r (ok (newfd, errno), r)

  unfoldable pub replay_path_read_link :
      Fd
      → List ℕ
      → List ℕ
      → Replay Time Fault W
      → Outcome Fault (List ℕ × ℤ × Errno) (Replay Time Fault W)
  replay_path_read_link fd path buffer r =
      replaying SyscallId.path_read_link (buffer, pos 0, w.enosys) decode_path_read_link r
        λ (record_fd, record_path, result, errno) r.
          checked
            ((SyscallId.path_read_link, "fd", same w.fd fd record_fd)
              ∷ (SyscallId.path_read_link, "path", same_bytes path record_path)
              ∷ (SyscallId.path_read_link, "buffer", leb (length result) (length buffer))
              ∷ [])
            r (ok (copy buffer result, pos (length result), errno), r)

  unfoldable pub replay_path_remove_directory :
      Fd → List ℕ → Replay Time Fault W → Outcome Fault Errno (Replay Time Fault W)
  replay_path_remove_directory fd path r =
      replaying SyscallId.path_remove_directory w.enosys decode_path_remove_directory r
        λ (record_fd, record_path, errno) r.
          checked
            ((SyscallId.path_remove_directory, "fd", same w.fd fd record_fd)
              ∷ (SyscallId.path_remove_directory, "path", same_bytes path record_path)
              ∷ [])
            r (ok errno, r)

  unfoldable pub replay_path_rename :
      Fd → List ℕ → Fd → List ℕ → Replay Time Fault W → Outcome Fault Errno (Replay Time Fault W)
  replay_path_rename fd old_path new_fd new_path r =
      replaying SyscallId.path_rename w.enosys decode_path_rename r
        λ (record_fd, record_old_path, record_new_fd, record_new_path, errno) r.
          checked
            ((SyscallId.path_rename, "fd", same w.fd fd record_fd)
              ∷ (SyscallId.path_rename, "oldPath", same_bytes old_path record_old_path)
              ∷ (SyscallId.path_rename, "newFD", same w.fd new_fd record_new_fd)
              ∷ (SyscallId.path_rename, "newPath", same_bytes new_path record_new_path)
              ∷ [])
            r (ok errno, r)

  unfoldable pub replay_path_symlink :
      List ℕ → Fd → List ℕ → Replay Time Fault W → Outcome Fault Errno (Replay Time Fault W)
  replay_path_symlink old_path fd new_path r =
      replaying SyscallId.path_symlink w.enosys decode_path_symlink r
        λ (record_old_path, record_fd, record_new_path, errno) r.
          checked
            ((SyscallId.path_symlink, "oldPath", same_bytes old_path record_old_path)
              ∷ (SyscallId.path_symlink, "fd", same w.fd fd record_fd)
              ∷ (SyscallId.path_symlink, "newPath", same_bytes new_path record_new_path)
              ∷ [])
            r (ok errno, r)

  unfoldable pub replay_path_unlink_file :
      Fd → List ℕ → Replay Time Fault W → Outcome Fault Errno (Replay Time Fault W)
  replay_path_unlink_file fd path r =
      replaying SyscallId.path_unlink_file w.enosys decode_path_unlink_file r
        λ (record_fd, record_path, errno) r.
          checked
            ((SyscallId.path_unlink_file, "fd", same w.fd fd record_fd)
              ∷ (SyscallId.path_unlink_file, "path", same_bytes path record_path)
              ∷ [])
            r (ok errno, r)
