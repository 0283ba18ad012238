-- ===== src/Wasicall/Replay/Io.antt =====
-- internal/timemachine/wasicall/replay.go: the methods of Replay for reads, writes and seeks on a file descriptor.
use timecraft.Common.{Bool, List, [], if◌then◌else◌, leb, length, ℕ, ◌∷◌}
use timecraft.Common.Int.{pos, ℤ}
use timecraft.Common.Result.{ok}
use timecraft.Wasicall.Calls.Io.{
  decode_fd_pread, decode_fd_pwrite, decode_fd_read, decode_fd_read_dir, decode_fd_renumber,
  decode_fd_seek, decode_fd_sync, decode_fd_tell, decode_fd_write,
}
use timecraft.Wasicall.Replay.Equal.{equal_iovecs, equal_iovecs_shape_prefix, same_int}
use timecraft.Wasicall.Replay.State.{
  Replay, checked, copy_each, echo, filling, renumbering, replaying,
}
use timecraft.Wasicall.Stats.{DirEntry}
use timecraft.Wasicall.Syscall.Ids.{SyscallId}
use timecraft.Wasicall.System.{copy, same, zero_of}
use timecraft.Wasicall.System.Request.{Outcome}
use timecraft.Wasicall.Wasi.{DirCookie, Errno, Fd, FileDelta, FileSize, Wasi, Whence}

module _ ⦃w : Wasi⦄ {Time Fault W : Type 0} where
  unfoldable pub replay_fd_pread :
      Fd
      → List (List ℕ)
      → FileSize
      → Replay Time Fault W
      → Outcome Fault (List (List ℕ) × ℕ × Errno) (Replay Time Fault W)
  replay_fd_pread fd iovecs offset r =
      replaying SyscallId.fd_pread (iovecs, 0, w.enosys) decode_fd_pread r
        λ (record_fd, record_iovecs, record_offset, size, errno) r.
          checked
            ((SyscallId.fd_pread, "fd", same w.fd fd record_fd)
              ∷ (SyscallId.fd_pread, "iovecs", equal_iovecs_shape_prefix iovecs record_iovecs size)
              ∷ (SyscallId.fd_pread, "offset", same w.file_size offset record_offset)
              ∷ [])
            r (filling (copy_each iovecs record_iovecs) r λ iovecs. (iovecs, size, errno))

  unfoldable pub replay_fd_pwrite :
      Fd
      → List (List ℕ)
      → FileSize
      → Replay Time Fault W
      → Outcome Fault (ℕ × Errno) (Replay Time Fault W)
  replay_fd_pwrite fd iovecs offset r =
      replaying SyscallId.fd_pwrite (0, w.enosys) decode_fd_pwrite r
        λ (record_fd, record_iovecs, record_offset, size, errno) r.
          checked
            ((SyscallId.fd_pwrite, "fd", same w.fd fd record_fd)
              ∷ (SyscallId.fd_pwrite, "iovecs", equal_iovecs iovecs record_iovecs)
              ∷ (SyscallId.fd_pwrite, "offset", same w.file_size offset record_offset)
              ∷ [])
            r (ok (size, errno), r)

  unfoldable pub replay_fd_read :
      Fd
      → List (List ℕ)
      → Replay Time Fault W
      → Outcome Fault (List (List ℕ) × ℕ × Errno) (Replay Time Fault W)
  replay_fd_read fd iovecs r =
      replaying SyscallId.fd_read (iovecs, 0, w.enosys) decode_fd_read r
        λ (record_fd, record_iovecs, size, errno) r.
          checked
            ((SyscallId.fd_read, "fd", same w.fd fd record_fd)
              ∷ (SyscallId.fd_read, "iovecs", equal_iovecs_shape_prefix iovecs record_iovecs size)
              ∷ [])
            r (filling (copy_each iovecs record_iovecs) r λ iovecs. (iovecs, size, errno))

  unfoldable pub replay_fd_read_dir :
      Fd
      → List DirEntry
      → DirCookie
      → ℤ
      → Replay Time Fault W
      → Outcome Fault (List DirEntry × ℤ × Errno) (Replay Time Fault W)
  replay_fd_read_dir fd entries cookie buffer_size_bytes r =
      replaying SyscallId.fd_read_dir (entries, pos 0, w.enosys) decode_fd_read_dir r
        λ (record_fd, record_entries, record_cookie, record_buffer_size_bytes, errno) r.
          checked
            ((SyscallId.fd_read_dir, "fd", same w.fd fd record_fd)
              ∷ (SyscallId.fd_read_dir, "entries", leb (length record_entries) (length entries))
              ∷ (SyscallId.fd_read_dir, "cookie", same w.dir_cookie cookie record_cookie)
              ∷ (
                SyscallId.fd_read_dir,
                "bufferSizeBytes",
                same_int buffer_size_bytes record_buffer_size_bytes,
              )
              ∷ [])
            r (ok (copy entries record_entries, pos (length record_entries), errno), r)

  unfoldable pub replay_fd_renumber :
      Fd → Fd → Replay Time Fault W → Outcome Fault Errno (Replay Time Fault W)
  replay_fd_renumber from to r =
      replaying SyscallId.fd_renumber w.enosys decode_fd_renumber r
        λ (record_from, record_to, errno) r.
          checked
            ((SyscallId.fd_renumber, "from", same w.fd from record_from)
              ∷ (SyscallId.fd_renumber, "to", same w.fd to record_to)
              ∷ [])
            r (ok errno, if same w.errno errno w.esuccess then renumbering from to r else r)

  unfoldable pub replay_fd_seek :
      Fd
      → FileDelta
      → Whence
      → Replay Time Fault W
      → Outcome Fault (FileSize × Errno) (Replay Time Fault W)
  replay_fd_seek fd offset whence r =
      replaying SyscallId.fd_seek (zero_of w.file_size, w.enosys) decode_fd_seek r
        λ (record_fd, record_offset, record_whence, size, errno) r.
          checked
            ((SyscallId.fd_seek, "fd", same w.fd fd record_fd)
              ∷ (SyscallId.fd_seek, "offset", same w.file_delta offset record_offset)
              ∷ (SyscallId.fd_seek, "whence", same w.whence whence record_whence)
              ∷ [])
            r (ok (size, errno), r)

  unfoldable pub replay_fd_sync :
      Fd → Replay Time Fault W → Outcome Fault Errno (Replay Time Fault W)
  replay_fd_sync fd r =
      replaying SyscallId.fd_sync w.enosys decode_fd_sync r λ (record_fd, errno) r.
        checked ((SyscallId.fd_sync, "fd", same w.fd fd record_fd) ∷ []) r (ok errno, r)

  unfoldable pub replay_fd_tell :
      Fd → Replay Time Fault W → Outcome Fault (FileSize × Errno) (Replay Time Fault W)
  replay_fd_tell fd r =
      replaying SyscallId.fd_tell (zero_of w.file_size, w.enosys) decode_fd_tell r
        λ (record_fd, size, errno) r.
          checked ((SyscallId.fd_tell, "fd", same w.fd fd record_fd) ∷ []) r (ok (size, errno), r)

  unfoldable pub replay_fd_write :
      (W → List ℕ → W × Bool)
      → Fd
      → List (List ℕ)
      → Replay Time Fault W
      → Outcome Fault (ℕ × Errno) (Replay Time Fault W)
  replay_fd_write write fd iovecs r =
      replaying SyscallId.fd_write (0, w.enosys) decode_fd_write r
        λ (record_fd, record_iovecs, size, errno) r.
          checked
            ((SyscallId.fd_write, "fd", same w.fd fd record_fd)
              ∷ (SyscallId.fd_write, "iovecs", equal_iovecs iovecs record_iovecs)
              ∷ [])
            r (ok (size, errno), echo write fd iovecs r)
