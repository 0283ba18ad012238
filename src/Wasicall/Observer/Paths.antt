-- ===== src/Wasicall/Observer/Paths.antt =====
-- internal/timemachine/wasicall/observer.go: the methods of observerSystem for the calls on paths.
use timecraft.Common.{List, Option, ℕ}
use timecraft.Common.Int.{ℤ}
use timecraft.Wasicall.Observer.{notify, observing}
use timecraft.Wasicall.Stats.{FileStat}
use timecraft.Wasicall.Syscall.Call.{Syscall}
use timecraft.Wasicall.System.{cut, zero_file_stat, zero_of}
use timecraft.Wasicall.System.Request.{Outcome, Request, System}
use timecraft.Wasicall.Wasi.{
  Errno, Fd, FdFlags, FstFlags, LookupFlags, OpenFlags, Rights, Timestamp, Wasi,
}

module _ ⦃w : Wasi⦄ {Fault S T : Type 0} where
  unfoldable pub observer_path_create_directory :
      System Fault S
      → Option (Syscall → T → T)
      → Option (Syscall → T → T)
      → Fd
      → List ℕ
      → S × T
      → Outcome Fault Errno (S × T)
  observer_path_create_directory system before after fd path (s, t) =
      let t = notify before (Syscall.path_create_directory fd path (zero_of w.errno)) t in
      observing after (system (Request.path_create_directory fd path) s) t
        λ errno. Syscall.path_create_directory fd path errno

  unfoldable pub observer_path_file_stat_get :
      System Fault S
      → Option (Syscall → T → T)
      → Option (Syscall → T → T)
      → Fd
      → LookupFlags
      → List ℕ
      → S × T
      → Outcome Fault (FileStat × Errno) (S × T)
  observer_path_file_stat_get system before after fd lookup_flags path (s, t) =
      let t =
        notify before
          (Syscall.path_file_stat_get fd lookup_flags path zero_file_stat (zero_of w.errno)) t in
      observing after (system (Request.path_file_stat_get fd lookup_flags path) s) t
        λ (stat, errno). Syscall.path_file_stat_get fd lookup_flags path stat errno

  unfoldable pub observer_path_file_stat_set_times :
      System Fault S
      → Option (Syscall → T → T)
      → Option (Syscall → T → T)
      → Fd
      → LookupFlags
      → List ℕ
      → Timestamp
      → Timestamp
      → FstFlags
      → S × T
      → Outcome Fault Errno (S × T)
  observer_path_file_stat_set_times system before after fd lookup_flags path access_time modify_time
        flags (s, t) =
      let t =
        notify before
          (Syscall.path_file_stat_set_times fd lookup_flags path access_time modify_time flags
            (zero_of w.errno))
          t in
      observing after
        (system
          (Request.path_file_stat_set_times fd lookup_flags path access_time modify_time flags) s)
        t
        λ errno.
          Syscall.path_file_stat_set_times fd lookup_flags path access_time modify_time flags errno

  unfoldable pub observer_path_link :
      System Fault S
      → Option (Syscall → T → T)
      → Option (Syscall → T → T)
      → Fd
      → LookupFlags
      → List ℕ
      → Fd
      → List ℕ
      → S × T
      → Outcome Fault Errno (S × T)
  observer_path_link system before after old_fd old_flags old_path new_fd new_path (s, t) =
      let t =
        notify before
          (Syscall.path_link old_fd old_flags old_path new_fd new_path (zero_of w.errno)) t in
      observing after (system (Request.path_link old_fd old_flags old_path new_fd new_path) s) t
        λ errno. Syscall.path_link old_fd old_flags old_path new_fd new_path errno

  unfoldable pub observer_path_open :
      System Fault S
      → Option (Syscall → T → T)
      → Option (Syscall → T → T)
      → Fd
      → LookupFlags
      → List ℕ
      → OpenFlags
      → Rights
      → Rights
      → FdFlags
      → S × T
      → Outcome Fault (Fd × Errno) (S × T)
  observer_path_open system before after fd dir_flags path open_flags rights_base rights_inheriting
        fd_flags (s, t) =
      let t =
        notify before
          (Syscall.path_open fd dir_flags path open_flags rights_base rights_inheriting fd_flags
            (zero_of w.fd) (zero_of w.errno))
          t in
      observing after
        (system
          (Request.path_open fd dir_flags path open_flags rights_base rights_inheriting fd_flags) s)
        t
        λ (newfd, errno).
          Syscall.path_open fd dir_flags path open_flags rights_base rights_inheriting fd_flags
            newfd errno

  unfoldable pub observer_path_read_link :
      System Fault S
      → Option (Syscall → T → T)
      → Option (Syscall → T → T)
      → Fd
      → List ℕ
      → List ℕ
      → S × T
      → Outcome Fault (List ℕ × ℤ × Errno) (S × T)
  observer_path_read_link system before after fd path buffer (s, t) =
      let t = notify before (Syscall.path_read_link fd path buffer (zero_of w.errno)) t in
      observing after (system (Request.path_read_link fd path buffer) s) t
        λ (buffer, n, errno). Syscall.path_read_link fd path (cut n buffer) errno

  unfoldable pub observer_path_remove_directory :
      System Fault S
      → Option (Syscall → T → T)
      → Option (Syscall → T → T)
      → Fd
      → List ℕ
      → S × T
      → Outcome Fault Errno (S × T)
  observer_path_remove_directory system before after fd path (s, t) =
      let t = notify before (Syscall.path_remove_directory fd path (zero_of w.errno)) t in
      observing after (system (Request.path_remove_directory fd path) s) t
        λ errno. Syscall.path_remove_directory fd path errno

  unfoldable pub observer_path_rename :
      System Fault S
      → Option (Syscall → T → T)
      → Option (Syscall → T → T)
      → Fd
      → List ℕ
      → Fd
      → List ℕ
      → S × T
      → Outcome Fault Errno (S × T)
  observer_path_rename system before after fd old_path new_fd new_path (s, t) =
      let t = notify before (Syscall.path_rename fd old_path new_fd new_path (zero_of w.errno)) t in
      observing after (system (Request.path_rename fd old_path new_fd new_path) s) t
        λ errno. Syscall.path_rename fd old_path new_fd new_path errno

  unfoldable pub observer_path_symlink :
      System Fault S
      → Option (Syscall → T → T)
      → Option (Syscall → T → T)
      → List ℕ
      → Fd
      → List ℕ
      → S × T
      → Outcome Fault Errno (S × T)
  observer_path_symlink system before after old_path fd new_path (s, t) =
      let t = notify before (Syscall.path_symlink old_path fd new_path (zero_of w.errno)) t in
      observing after (system (Request.path_symlink old_path fd new_path) s) t
        λ errno. Syscall.path_symlink old_path fd new_path errno

  unfoldable pub observer_path_unlink_file :
      System Fault S
      → Option (Syscall → T → T)
      → Option (Syscall → T → T)
      → Fd
      → List ℕ
      → S × T
      → Outcome Fault Errno (S × T)
  observer_path_unlink_file system before after fd path (s, t) =
      let t = notify before (Syscall.path_unlink_file fd path (zero_of w.errno)) t in
      observing after (system (Request.path_unlink_file fd path) s) t
        λ errno. Syscall.path_unlink_file fd path errno
