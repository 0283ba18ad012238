-- ===== src/Wasicall/Observer/Io.antt =====
-- internal/timemachine/wasicall/observer.go: the methods of observerSystem for reads, writes and seeks on a file descriptor.
use timecraft.Common.{List, Option, ℕ}
use timecraft.Common.Int.{ℤ}
use timecraft.Wasicall.Observer.{notify, observing}
use timecraft.Wasicall.Stats.{DirEntry}
use timecraft.Wasicall.Syscall.Call.{Syscall}
use timecraft.Wasicall.System.{cut, zero_of}
use timecraft.Wasicall.System.Request.{Outcome, Request, System}
use timecraft.Wasicall.Wasi.{DirCookie, Errno, Fd, FileDelta, FileSize, Wasi, Whence}

module _ ⦃w : Wasi⦄ {Fault S T : Type 0} where
  unfoldable pub observer_fd_pread :
      System Fault S
      → Option (Syscall → T → T)
      → Option (Syscall → T → T)
      → Fd
      → List (List ℕ)
      → FileSize
      → S × T
      → Outcome Fault (List (List ℕ) × ℕ × Errno) (S × T)
  observer_fd_pread system before after fd iovecs offset (s, t) =
      let t = notify before (Syscall.fd_pread fd iovecs offset 0 (zero_of w.errno)) t in
      observing after (system (Request.fd_pread fd iovecs offset) s) t
        λ (iovecs, size, errno). Syscall.fd_pread fd iovecs offset size errno

  unfoldable pub observer_fd_pwrite :
      System Fault S
      → Option (Syscall → T → T)
      → Option (Syscall → T → T)
      → Fd
      → List (List ℕ)
      → FileSize
      → S × T
      → Outcome Fault (ℕ × Errno) (S × T)
  observer_fd_pwrite system before after fd iovecs offset (s, t) =
      let t = notify before (Syscall.fd_pwrite fd iovecs offset 0 (zero_of w.errno)) t in
      observing after (system (Request.fd_pwrite fd iovecs offset) s) t
        λ (size, errno). Syscall.fd_pwrite fd iovecs offset size errno

  unfoldable pub observer_fd_read :
      System Fault S
      → Option (Syscall → T → T)
      → Option (Syscall → T → T)
      → Fd
      → List (List ℕ)
      → S × T
      → Outcome Fault (List (List ℕ) × ℕ × Errno) (S × T)
  observer_fd_read system before after fd iovecs (s, t) =
      let t = notify before (Syscall.fd_read fd iovecs 0 (zero_of w.errno)) t in
      observing after (system (Request.fd_read fd iovecs) s) t
        λ (iovecs, size, errno). Syscall.fd_read fd iovecs size errno

  unfoldable pub observer_fd_read_dir :
      System Fault S
      → Option (Syscall → T → T)
      → Option (Syscall → T → T)
      → Fd
      → List DirEntry
      → DirCookie
      → ℤ
      → S × T
      → Outcome Fault (List DirEntry × ℤ × Errno) (S × T)
  observer_fd_read_dir system before after fd entries cookie buffer_size_bytes (s, t) =
      let t =
        notify before (Syscall.fd_read_dir fd entries cookie buffer_size_bytes (zero_of w.errno))
          t in
      observing after (system (Request.fd_read_dir fd entries cookie buffer_size_bytes) s) t
        λ (entries, n, errno). Syscall.fd_read_dir fd (cut n entries) cookie buffer_size_bytes errno

  unfoldable pub observer_fd_renumber :
      System Fault S
      → Option (Syscall → T → T)
      → Option (Syscall → T → T)
      → Fd
      → Fd
      → S × T
      → Outcome Fault Errno (S × T)
  observer_fd_renumber system before after from to (s, t) =
      let t = notify before (Syscall.fd_renumber from to (zero_of w.errno)) t in
      observing after (system (Request.fd_renumber from to) s) t
        λ errno. Syscall.fd_renumber from to errno

  unfoldable pub observer_fd_seek :
      System Fault S
      → Option (Syscall → T → T)
      → Option (Syscall → T → T)
      → Fd
      → FileDelta
      → Whence
      → S × T
      → Outcome Fault (FileSize × Errno) (S × T)
  observer_fd_seek system before after fd offset whence (s, t) =
      let t =
        notify before (Syscall.fd_seek fd offset whence (zero_of w.file_size) (zero_of w.errno))
          t in
      observing after (system (Request.fd_seek fd offset whence) s) t
        λ (size, errno). Syscall.fd_seek fd offset whence size errno

  unfoldable pub observer_fd_sync :
      System Fault S
      → Option (Syscall → T → T)
      → Option (Syscall → T → T)
      → Fd
      → S × T
      → Outcome Fault Errno (S × T)
  observer_fd_sync system before after fd (s, t) =
      let t = notify before (Syscall.fd_sync fd (zero_of w.errno)) t in
      observing after (system (Request.fd_sync fd) s) t λ errno. Syscall.fd_sync fd errno

  unfoldable pub observer_fd_tell :
      System Fault S
      → Option (Syscall → T → T)
      → Option (Syscall → T → T)
      → Fd
      → S × T
      → Outcome Fault (FileSize × Errno) (S × T)
  observer_fd_tell system before after fd (s, t) =
      let t = notify before (Syscall.fd_tell fd (zero_of w.file_size) (zero_of w.errno)) t in
      observing after (system (Request.fd_tell fd) s) t
        λ (size, errno). Syscall.fd_tell fd size errno

  unfoldable pub observer_fd_write :
      System Fault S
      → Option (Syscall → T → T)
      → Option (Syscall → T → T)
      → Fd
      → List (List ℕ)
      → S × T
      → Outcome Fault (ℕ × Errno) (S × T)
  observer_fd_write system before after fd iovecs (s, t) =
      let t = notify before (Syscall.fd_write fd iovecs 0 (zero_of w.errno)) t in
      observing after (system (Request.fd_write fd iovecs) s) t
        λ (size, errno). Syscall.fd_write fd iovecs size errno
