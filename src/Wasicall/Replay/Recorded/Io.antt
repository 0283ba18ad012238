-- ===== src/Wasicall/Replay/Recorded/Io.antt =====
-- The replay of the recorded calls: reads, writes and seeks on a file descriptor.
use timecraft.Common.{Bool, List, [], refl, ℕ}
use timecraft.Common.Int.{ℤ}
use timecraft.Wasicall.Calls.Io.{
  decode_fd_pread, decode_fd_pwrite, decode_fd_read, decode_fd_read_dir, decode_fd_renumber,
  decode_fd_seek, decode_fd_sync, decode_fd_tell, decode_fd_write, encode_fd_pread,
  encode_fd_pwrite, encode_fd_read, encode_fd_read_dir, encode_fd_renumber, encode_fd_seek,
  encode_fd_sync, encode_fd_tell, encode_fd_write,
}
use timecraft.Wasicall.Calls.Io.RoundTrip.{
  fd_pread_lem, fd_pwrite_lem, fd_read_dir_lem, fd_read_lem, fd_renumber_lem, fd_seek_lem,
  fd_sync_lem, fd_tell_lem, fd_write_lem,
}
use timecraft.Wasicall.Replay.Buffers.{
  copy-Counted, copy_each-Fills, count-Counted, echo-records, if-records, renumbering-records,
  room-Counted, shape-Fills,
}
use timecraft.Wasicall.Replay.Io.{
  replay_fd_pread, replay_fd_pwrite, replay_fd_read, replay_fd_read_dir, replay_fd_renumber,
  replay_fd_seek, replay_fd_sync, replay_fd_tell, replay_fd_write,
}
use timecraft.Wasicall.Replay.Recorded.{Answers, Holds, answers, passes, selves}
use timecraft.Wasicall.Replay.State.{Replay, advance, mismatches}
use timecraft.Wasicall.Stats.{DirEntry}
use timecraft.Wasicall.Syscall.Call.{Syscall}
use timecraft.Wasicall.Syscall.Ids.{SyscallId}
use timecraft.Wasicall.Syscall.Log.{Record}
use timecraft.Wasicall.Syscall.Recordable.{IsRecordable}
use timecraft.Wasicall.Syscall.RoundTrip.{decoded}
use timecraft.Wasicall.System.{cut}
use timecraft.Wasicall.System.Exchange.{Counted, Fills, positive_count}
use timecraft.Wasicall.Wasi.{DirCookie, Errno, Fd, FileDelta, FileSize, Wasi, Whence}
use timecraft.Wasicall.Words.RoundTrip.{Fits}

module _ ⦃w : Wasi⦄ {Time Fault W : Type 0} where
  pub replay_fd_pread-recorded :
      (fd : Fd) (iovecs : List (List ℕ)) (offset : FileSize) (iovecs_after : List (List ℕ))
      (size : ℕ) (errno : Errno) (r : Replay Time Fault W) (rest : List (Record Time))
      → IsRecordable (Syscall.fd_pread fd iovecs_after offset size errno)
      → Fills iovecs iovecs_after (positive_count size)
      → Fits (encode_fd_pread [] fd iovecs_after offset size errno)
      → Holds r SyscallId.fd_pread (encode_fd_pread [] fd iovecs_after offset size errno) rest
      → Answers (replay_fd_pread fd iovecs offset r) (iovecs_after, size, errno) r rest
  unfolding replay_fd_pread mismatches
  replay_fd_pread-recorded fd iovecs offset iovecs_after size errno r rest valid answer fits holds =
      answers _ _ _ holds
        (decoded decode_fd_pread _
          (fd_pread_lem fd iovecs_after offset size errno [] valid.0 valid.1 valid.2) fits)
        (passes _ _ (simp (selves, shape-Fills iovecs iovecs_after size answer)) (
          rw (copy_each-Fills iovecs iovecs_after size answer)
            (record { returned = refl; left = refl })))

  pub replay_fd_pwrite-recorded :
      (fd : Fd) (iovecs : List (List ℕ)) (offset : FileSize) (n : ℕ) (errno : Errno)
      (r : Replay Time Fault W) (rest : List (Record Time))
      → IsRecordable (Syscall.fd_pwrite fd iovecs offset n errno)
      → Fits (encode_fd_pwrite [] fd iovecs offset n errno)
      → Holds r SyscallId.fd_pwrite (encode_fd_pwrite [] fd iovecs offset n errno) rest
      → Answers (replay_fd_pwrite fd iovecs offset r) (n, errno) r rest
  unfolding replay_fd_pwrite mismatches
  replay_fd_pwrite-recorded fd iovecs offset n errno r rest valid fits holds =
      answers _ _ _ holds
        (decoded decode_fd_pwrite _ (fd_pwrite_lem fd iovecs offset n errno [] valid.0 valid.1)
          fits)
        (passes _ _ (simp selves) (record { returned = refl; left = refl }))

  pub replay_fd_read-recorded :
      (fd : Fd) (iovecs : List (List ℕ)) (iovecs_after : List (List ℕ)) (n : ℕ) (errno : Errno)
      (r : Replay Time Fault W) (rest : List (Record Time))
      → IsRecordable (Syscall.fd_read fd iovecs_after n errno)
      → Fills iovecs iovecs_after (positive_count n)
      → Fits (encode_fd_read [] fd iovecs_after n errno)
      → Holds r SyscallId.fd_read (encode_fd_read [] fd iovecs_after n errno) rest
      → Answers (replay_fd_read fd iovecs r) (iovecs_after, n, errno) r rest
  unfolding replay_fd_read mismatches
  replay_fd_read-recorded fd iovecs iovecs_after n errno r rest valid answer fits holds =
      answers _ _ _ holds
        (decoded decode_fd_read _ (fd_read_lem fd iovecs_after n errno [] valid.0 valid.1 valid.2)
          fits)
        (passes _ _ (simp (selves, shape-Fills iovecs iovecs_after n answer)) (
          rw (copy_each-Fills iovecs iovecs_after n answer)
            (record { returned = refl; left = refl })))

  pub replay_fd_read_dir-recorded :
      (fd : Fd) (entries : List DirEntry) (cookie : DirCookie) (buffer_size_bytes : ℤ)
      (entries_after : List DirEntry) (n : ℤ) (errno : Errno) (r : Replay Time Fault W)
      (rest : List (Record Time))
      → IsRecordable (Syscall.fd_read_dir fd (cut n entries_after) cookie buffer_size_bytes errno)
      → Counted n entries entries_after
      → Fits (encode_fd_read_dir [] fd (cut n entries_after) cookie buffer_size_bytes errno)
      → Holds r SyscallId.fd_read_dir
          (encode_fd_read_dir [] fd (cut n entries_after) cookie buffer_size_bytes errno)
          rest
      → Answers
          (replay_fd_read_dir fd entries cookie buffer_size_bytes r)
          (entries_after, n, errno)
          r
          rest
  unfolding replay_fd_read_dir mismatches
  replay_fd_read_dir-recorded fd entries cookie buffer_size_bytes entries_after n errno r rest valid
        answer fits holds =
      answers _ _ _ holds
        (decoded decode_fd_read_dir _
          (fd_read_dir_lem fd (cut n entries_after) cookie buffer_size_bytes errno [] valid.0
            valid.1)
          fits)
        (passes _ _ (simp (selves, room-Counted n entries entries_after answer)) (
          rw
            (
              copy-Counted n entries entries_after answer,
              count-Counted n entries entries_after answer,
            )
            (record { returned = refl; left = refl })))

  pub replay_fd_renumber-recorded :
      (from : Fd) (to : Fd) (errno : Errno) (r : Replay Time Fault W) (rest : List (Record Time))
      → Fits (encode_fd_renumber [] from to errno)
      → Holds r SyscallId.fd_renumber (encode_fd_renumber [] from to errno) rest
      → Answers (replay_fd_renumber from to r) errno r rest
  unfolding replay_fd_renumber mismatches
  replay_fd_renumber-recorded from to errno r rest fits holds =
      answers _ _ _ holds (decoded decode_fd_renumber _ (fd_renumber_lem from to errno []) fits) (
        passes _ _ (simp selves) (record {
          returned = refl;
          left = if-records _ _ _ (renumbering-records from to (advance rest r)) refl;
        }))

  pub replay_fd_seek-recorded :
      (fd : Fd) (offset : FileDelta) (whence : Whence) (result : FileSize) (errno : Errno)
      (r : Replay Time Fault W) (rest : List (Record Time))
      → Fits (encode_fd_seek [] fd offset whence result errno)
      → Holds r SyscallId.fd_seek (encode_fd_seek [] fd offset whence result errno) rest
      → Answers (replay_fd_seek fd offset whence r) (result, errno) r rest
  unfolding replay_fd_seek mismatches
  replay_fd_seek-recorded fd offset whence result errno r rest fits holds =
      answers _ _ _ holds
        (decoded decode_fd_seek _ (fd_seek_lem fd offset whence result errno []) fits)
        (passes _ _ (simp selves) (record { returned = refl; left = refl }))

  pub replay_fd_sync-recorded :
      (fd : Fd) (errno : Errno) (r : Replay Time Fault W) (rest : List (Record Time))
      → Fits (encode_fd_sync [] fd errno)
      → Holds r SyscallId.fd_sync (encode_fd_sync [] fd errno) rest
      → Answers (replay_fd_sync fd r) errno r rest
  unfolding replay_fd_sync mismatches
  replay_fd_sync-recorded fd errno r rest fits holds =
      answers _ _ _ holds (decoded decode_fd_sync _ (fd_sync_lem fd errno []) fits)
        (passes _ _ (simp selves) (record { returned = refl; left = refl }))

  pub replay_fd_tell-recorded :
      (fd : Fd) (file_size : FileSize) (errno : Errno) (r : Replay Time Fault W)
      (rest : List (Record Time))
      → Fits (encode_fd_tell [] fd file_size errno)
      → Holds r SyscallId.fd_tell (encode_fd_tell [] fd file_size errno) rest
      → Answers (replay_fd_tell fd r) (file_size, errno) r rest
  unfolding replay_fd_tell mismatches
  replay_fd_tell-recorded fd file_size errno r rest fits holds =
      answers _ _ _ holds (decoded decode_fd_tell _ (fd_tell_lem fd file_size errno []) fits)
        (passes _ _ (simp selves) (record { returned = refl; left = refl }))

  pub replay_fd_write-recorded :
      (write : W → List ℕ → W × Bool) (fd : Fd) (iovecs : List (List ℕ)) (n : ℕ) (errno : Errno)
      (r : Replay Time Fault W) (rest : List (Record Time))
      → IsRecordable (Syscall.fd_write fd iovecs n errno)
      → Fits (encode_fd_write [] fd iovecs n errno)
      → Holds r SyscallId.fd_write (encode_fd_write [] fd iovecs n errno) rest
      → Answers (replay_fd_write write fd iovecs r) (n, errno) r rest
  unfolding replay_fd_write mismatches
  replay_fd_write-recorded write fd iovecs n errno r rest valid fits holds =
      answers _ _ _ holds
        (decoded decode_fd_write _ (fd_write_lem fd iovecs n errno [] valid.0 valid.1) fits)
        (passes _ _ (simp selves)
          (record { returned = refl; left = echo-records write fd iovecs (advance rest r) }))
