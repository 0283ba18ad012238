-- ===== src/Wasicall/Fallback/Paths.antt =====
-- internal/timemachine/wasicall/fallback.go: the methods of fallbackSystem for the calls on paths.
use timecraft.Common.{List, ℕ}
use timecraft.Common.Int.{ℤ}
use timecraft.Wasicall.Fallback.{or_else}
use timecraft.Wasicall.Stats.{FileStat}
use timecraft.Wasicall.System.Request.{Outcome, Request, System}
use timecraft.Wasicall.Wasi.{
  Errno, Fd, FdFlags, FstFlags, LookupFlags, OpenFlags, Rights, Timestamp, Wasi,
}

module _ ⦃w : Wasi⦄ {Fault S T : Type 0} where
  unfoldable pub fallback_path_create_directory :
      System Fault S → System Fault T → Fd → List ℕ → S × T → Outcome Fault Errno (S × T)
  fallback_path_create_directory primary secondary fd path (s, t) =
      or_else (primary (Request.path_create_directory fd path) s) t
        λ errno. (errno, secondary (Request.path_create_directory fd path))

  unfoldable pub fallback_path_file_stat_get :
      System Fault S
      → System Fault T
      → Fd
      → LookupFlags
      → List ℕ
      → S × T
      → Outcome Fault (FileStat × Errno) (S × T)
  fallback_path_file_stat_get primary secondary fd lookup_flags path (s, t) =
      or_else (primary (Request.path_file_stat_get fd lookup_flags path) s) t
        λ (stat, errno). (errno, secondary (Request.path_file_stat_get fd lookup_flags path))

  unfoldable pub fallback_path_file_stat_set_times :
      System Fault S
      → System Fault T
      → Fd
      → LookupFlags
      → List ℕ
      → Timestamp
      → Timestamp
      → FstFlags
      → S × T
      → Outcome Fault Errno (S × T)
  fallback_path_file_stat_set_times primary secondary fd lookup_flags path access_time modify_time
        flags (s, t) =
      or_else
        (primary
          (Request.path_file_stat_set_times fd lookup_flags path access_time modify_time flags) s)
        t
        λ errno. (
          errno,
          secondary
              (Request.path_file_stat_set_times fd lookup_flags path access_time modify_time flags),
        )

  unfoldable pub fallback_path_link :
      System Fault S
      → System Fault T
      → Fd
      → LookupFlags
      → List ℕ
      → Fd
      → List ℕ
      → S × T
      → Outcome Fault Errno (S × T)
  fallback_path_link primary secondary old_fd old_flags old_path new_fd new_path (s, t) =
      or_else (primary (Request.path_link old_fd old_flags old_path new_fd new_path) s) t
        λ errno. (errno, secondary (Request.path_link old_fd old_flags old_path new_fd new_path))

  unfoldable pub fallback_path_open :
      System Fault S
      → System Fault T
      → Fd
      → LookupFlags
      → List ℕ
      → OpenFlags
      → Rights
      → Rights
      → FdFlags
      → S × T
      → Outcome Fault (Fd × Errno) (S × T)
  fallback_path_open primary secondary fd dir_flags path open_flags rights_base rights_inheriting
        fd_flags (s, t) =
      or_else
        (primary
          (Request.path_open fd dir_flags path open_flags rights_base rights_inheriting fd_flags) s)
        t
        λ (newfd, errno). (
          errno,
          secondary (
              Request.path_open fd dir_flags path open_flags rights_base rights_inheriting
                fd_flags),
        )

  unfoldable pub fallback_path_read_link :
      System Fault S
      → System Fault T
      → Fd
      → List ℕ
      → List ℕ
      → S × T
      → Outcome Fault (List ℕ × ℤ × Errno) (S × T)
  fallback_path_read_link primary secondary fd path buffer (s, t) =
      or_else (primary (Request.path_read_link fd path buffer) s) t
        λ (buffer, n, errno). (errno, secondary (Request.path_read_link fd path buffer))

  unfoldable pub fallback_path_remove_directory :
      System Fault S → System Fault T → Fd → List ℕ → S × T → Outcome Fault Errno (S × T)
  fallback_path_remove_directory primary secondary fd path (s, t) =
      or_else (primary (Request.path_remove_directory fd path) s) t
        λ errno. (errno, secondary (Request.path_remove_directory fd path))

  unfoldable pub fallback_path_rename :
      System Fault S
      → System Fault T
      → Fd
      → List ℕ
      → Fd
      → List ℕ
      → S × T
      → Outcome Fault Errno (S × T)
  fallback_path_rename primary secondary fd old_path new_fd new_path (s, t) =
      or_else (primary (Request.path_rename fd old_path new_fd new_path) s) t
        λ errno. (errno, secondary (Request.path_rename fd old_path new_fd new_path))

  unfoldable pub fallback_path_symlink :
      System Fault S → System Fault T → List ℕ → Fd → List ℕ → S × T → Outcome Fault Errno (S × T)
  fallback_path_symlink primary secondary old_path fd new_path (s, t) =
      or_else (primary (Request.path_symlink old_path fd new_path) s) t
        λ errno. (errno, secondary (Request.path_symlink old_path fd new_path))

  unfoldable pub fallback_path_unlink_file :
      System Fault S → System Fault T → Fd → List ℕ → S × T → Outcome Fault Errno (S × T)
  fallback_path_unlink_file primary secondary fd path (s, t) =
      or_else (primary (Request.path_unlink_file fd path) s) t
        λ errno. (errno, secondary (Request.path_unlink_file fd path))
