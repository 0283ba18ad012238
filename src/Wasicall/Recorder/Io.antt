-- ===== src/Wasicall/Recorder/Io.antt =====
-- internal/timemachine/wasicall/record.go: the methods of recorderSystem for reads, writes and seeks on a file descriptor.
use timecraft.Common.{List, [], some, ℕ}
use timecraft.Common.Int.{ℤ}
use timecraft.Wasicall.Calls.Io.{
  encode_fd_pread, encode_fd_pwrite, encode_fd_read, encode_fd_read_dir, encode_fd_renumber,
  encode_fd_seek, encode_fd_sync, encode_fd_tell, encode_fd_write,
}
use timecraft.Wasicall.Recorder.{recording}
use timecraft.Wasicall.Stats.{DirEntry}
use timecraft.Wasicall.Syscall.Ids.{SyscallId}
use timecraft.Wasicall.System.{cut}
use timecraft.Wasicall.System.Request.{Outcome, Request, System}
use timecraft.Wasicall.Wasi.{DirCookie, Errno, Fd, FileDelta, FileSize, Wasi, Whence}

module _ ⦃w : Wasi⦄ {Fault S T : Type 0} where
  unfoldable pub recorder_fd_pread :
      System Fault S
      → (SyscallId → List ℕ → T → T)
      → Fd
      → List (List ℕ)
      → FileSize
      → S × T
      → Outcome Fault (List (List ℕ) × ℕ × Errno) (S × T)
  recorder_fd_pread system write fd iovecs offset (s, t) =
      recording write SyscallId.fd_pread (system (Request.fd_pread fd iovecs offset) s) t
        λ (iovecs, size, errno). some (encode_fd_pread [] fd iovecs offset size errno)

  unfoldable pub recorder_fd_pwrite :
      System Fault S
      → (SyscallId → List ℕ → T → T)
      → Fd
      → List (List ℕ)
      → FileSize
      → S × T
      → Outcome Fault (ℕ × Errno) (S × T)
  recorder_fd_pwrite system write fd iovecs offset (s, t) =
      recording write SyscallId.fd_pwrite (system (Request.fd_pwrite fd iovecs offset) s) t
        λ (n, errno). some (encode_fd_pwrite [] fd iovecs offset n errno)

  unfoldable pub recorder_fd_read :
      System Fault S
      → (SyscallId → List ℕ → T → T)
      → Fd
      → List (List ℕ)
      → S × T
      → Outcome Fault (List (List ℕ) × ℕ × Errno) (S × T)
  recorder_fd_read system write fd iovecs (s, t) =
      recording write SyscallId.fd_read (system (Request.fd_read fd iovecs) s) t
        λ (iovecs, n, errno). some (encode_fd_read [] fd iovecs n errno)

  unfoldable pub recorder_fd_read_dir :
      System Fault S
      → (SyscallId → List ℕ → T → T)
      → Fd
      → List DirEntry
      → DirCookie
      → ℤ
      → S × T
      → Outcome Fault (List DirEntry × ℤ × Errno) (S × T)
  recorder_fd_read_dir system write fd entries cookie buffer_size_bytes (s, t) =
      recording write SyscallId.fd_read_dir
        (system (Request.fd_read_dir fd entries cookie buffer_size_bytes) s) t
        λ (entries, n, errno).
          some (encode_fd_read_dir [] fd (cut n entries) cookie buffer_size_bytes errno)

  unfoldable pub recorder_fd_renumber :
      System Fault S → (SyscallId → List ℕ → T → T) → Fd → Fd → S × T → Outcome Fault Errno (S × T)
  recorder_fd_renumber system write from to (s, t) =
      recording write SyscallId.fd_renumber (system (Request.fd_renumber from to) s) t
        λ errno. some (encode_fd_renumber [] from to errno)

  unfoldable pub recorder_fd_seek :
      System Fault S
      → (SyscallId → List ℕ → T → T)
      → Fd
      → FileDelta
      → Whence
      → S × T
      → Outcome Fault (FileSize × Errno) (S × T)
  recorder_fd_seek system write fd offset whence (s, t) =
      recording write SyscallId.fd_seek (system (Request.fd_seek fd offset whence) s) t
        λ (result, errno). some (encode_fd_seek [] fd offset whence result errno)

  unfoldable pub recorder_fd_sync :
      System Fault S → (SyscallId → List ℕ → T → T) → Fd → S × T → Outcome Fault Errno (S × T)
  recorder_fd_sync system write fd (s, t) =
      recording write SyscallId.fd_sync (system (Request.fd_sync fd) s) t
        λ errno. some (encode_fd_sync [] fd errno)

  unfoldable pub recorder_fd_tell :
      System Fault S
      → (SyscallId → List ℕ → T → T)
      → Fd
      → S × T
      → Outcome Fault (FileSize × Errno) (S × T)
  recorder_fd_tell system write fd (s, t) =
      recording write SyscallId.fd_tell (system (Request.fd_tell fd) s) t
        λ (file_size, errno). some (encode_fd_tell [] fd file_size errno)

  unfoldable pub recorder_fd_write :
      System Fault S
      → (SyscallId → List ℕ → T → T)
      → Fd
      → List (List ℕ)
      → S × T
      → Outcome Fault (ℕ × Errno) (S × T)
  recorder_fd_write system write fd iovecs (s, t) =
      recording write SyscallId.fd_write (system (Request.fd_write fd iovecs) s) t
        λ (n, errno). some (encode_fd_write [] fd iovecs n errno)
