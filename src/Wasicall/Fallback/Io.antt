-- ===== src/Wasicall/Fallback/Io.antt =====
-- internal/timemachine/wasicall/fallback.go: the methods of fallbackSystem for reads, writes and seeks on a file descriptor.
use timecraft.Common.{List, ℕ}
use timecraft.Common.Int.{ℤ}
use timecraft.Wasicall.Fallback.{or_else}
use timecraft.Wasicall.Stats.{DirEntry}
use timecraft.Wasicall.System.Request.{Outcome, Request, System}
use timecraft.Wasicall.Wasi.{DirCookie, Errno, Fd, FileDelta, FileSize, Wasi, Whence}

module _ ⦃w : Wasi⦄ {Fault S T : Type 0} where
  unfoldable pub fallback_fd_pread :
      System Fault S
      → System Fault T
      → Fd
      → List (List ℕ)
      → FileSize
      → S × T
      → Outcome Fault (List (List ℕ) × ℕ × Errno) (S × T)
  fallback_fd_pread primary secondary fd iovecs offset (s, t) =
      or_else (primary (Request.fd_pread fd iovecs offset) s) t
        λ (iovecs, size, errno). (errno, secondary (Request.fd_pread fd iovecs offset))

  unfoldable pub fallback_fd_pwrite :
      System Fault S
      → System Fault T
      → Fd
      → List (List ℕ)
      → FileSize
      → S × T
      → Outcome Fault (ℕ × Errno) (S × T)
  fallback_fd_pwrite primary secondary fd iovecs offset (s, t) =
      or_else (primary (Request.fd_pwrite fd iovecs offset) s) t
        λ (size, errno). (errno, secondary (Request.fd_pwrite fd iovecs offset))

  unfoldable pub fallback_fd_read :
      System Fault S
      → System Fault T
      → Fd
      → List (List ℕ)
      → S × T
      → Outcome Fault (List (List ℕ) × ℕ × Errno) (S × T)
  fallback_fd_read primary secondary fd iovecs (s, t) =
      or_else (primary (Request.fd_read fd iovecs) s) t
        λ (iovecs, size, errno). (errno, secondary (Request.fd_read fd iovecs))

  unfoldable pub fallback_fd_read_dir :
      System Fault S
      → System Fault T
      → Fd
      → List DirEntry
      → DirCookie
      → ℤ
      → S × T
      → Outcome Fault (List DirEntry × ℤ × Errno) (S × T)
  fallback_fd_read_dir primary secondary fd entries cookie buffer_size_bytes (s, t) =
      or_else (primary (Request.fd_read_dir fd entries cookie buffer_size_bytes) s) t
        λ (entries, count, errno).
          (errno, secondary (Request.fd_read_dir fd entries cookie buffer_size_bytes))

  unfoldable pub fallback_fd_renumber :
      System Fault S → System Fault T → Fd → Fd → S × T → Outcome Fault Errno (S × T)
  fallback_fd_renumber primary secondary from to (s, t) =
      or_else (primary (Request.fd_renumber from to) s) t
        λ errno. (errno, secondary (Request.fd_renumber from to))

  unfoldable pub fallback_fd_seek :
      System Fault S
      → System Fault T
      → Fd
      → FileDelta
      → Whence
      → S × T
      → Outcome Fault (FileSize × Errno) (S × T)
  fallback_fd_seek primary secondary fd offset whence (s, t) =
      or_else (primary (Request.fd_seek fd offset whence) s) t
        λ (size, errno). (errno, secondary (Request.fd_seek fd offset whence))

  unfoldable pub fallback_fd_sync :
      System Fault S → System Fault T → Fd → S × T → Outcome Fault Errno (S × T)
  fallback_fd_sync primary secondary fd (s, t) =
      or_else (primary (Request.fd_sync fd) s) t λ errno. (errno, secondary (Request.fd_sync fd))

  unfoldable pub fallback_fd_tell :
      System Fault S → System Fault T → Fd → S × T → Outcome Fault (FileSize × Errno) (S × T)
  fallback_fd_tell primary secondary fd (s, t) =
      or_else (primary (Request.fd_tell fd) s) t
        λ (size, errno). (errno, secondary (Request.fd_tell fd))

  unfoldable pub fallback_fd_write :
      System Fault S
      → System Fault T
      → Fd
      → List (List ℕ)
      → S × T
      → Outcome Fault (ℕ × Errno) (S × T)
  fallback_fd_write primary secondary fd iovecs (s, t) =
      or_else (primary (Request.fd_write fd iovecs) s) t
        λ (size, errno). (errno, secondary (Request.fd_write fd iovecs))
