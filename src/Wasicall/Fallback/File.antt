-- ===== src/Wasicall/Fallback/File.antt =====
-- internal/timemachine/wasicall/fallback.go: the methods of fallbackSystem for the attributes of a file descriptor.
use timecraft.Common.{List, length, ℕ}
use timecraft.Wasicall.Fallback.{or_else}
use timecraft.Wasicall.Stats.{FdStat, FileStat, PreStat}
use timecraft.Wasicall.System.Request.{Outcome, Request, System}
use timecraft.Wasicall.Wasi.{
  Advice, Errno, Fd, FdFlags, FileSize, FstFlags, Rights, Timestamp, Wasi,
}

module _ ⦃w : Wasi⦄ {Fault S T : Type 0} where
  unfoldable pub fallback_fd_advise :
      System Fault S
      → System Fault T
      → Fd
      → FileSize
      → FileSize
      → Advice
      → S × T
      → Outcome Fault Errno (S × T)
  fallback_fd_advise primary secondary fd offset length advice (s, t) =
      or_else (primary (Request.fd_advise fd offset length advice) s) t
        λ errno. (errno, secondary (Request.fd_advise fd offset length advice))

  unfoldable pub fallback_fd_allocate :
      System Fault S
      → System Fault T
      → Fd
      → FileSize
      → FileSize
      → S × T
      → Outcome Fault Errno (S × T)
  fallback_fd_allocate primary secondary fd offset length (s, t) =
      or_else (primary (Request.fd_allocate fd offset length) s) t
        λ errno. (errno, secondary (Request.fd_allocate fd offset length))

  unfoldable pub fallback_fd_close :
      System Fault S → System Fault T → Fd → S × T → Outcome Fault Errno (S × T)
  fallback_fd_close primary secondary fd (s, t) =
      or_else (primary (Request.fd_close fd) s) t λ errno. (errno, secondary (Request.fd_close fd))

  unfoldable pub fallback_fd_data_sync :
      System Fault S → System Fault T → Fd → S × T → Outcome Fault Errno (S × T)
  fallback_fd_data_sync primary secondary fd (s, t) =
      or_else (primary (Request.fd_data_sync fd) s) t
        λ errno. (errno, secondary (Request.fd_data_sync fd))

  unfoldable pub fallback_fd_stat_get :
      System Fault S → System Fault T → Fd → S × T → Outcome Fault (FdStat × Errno) (S × T)
  fallback_fd_stat_get primary secondary fd (s, t) =
      or_else (primary (Request.fd_stat_get fd) s) t
        λ (stat, errno). (errno, secondary (Request.fd_stat_get fd))

  unfoldable pub fallback_fd_stat_set_flags :
      System Fault S → System Fault T → Fd → FdFlags → S × T → Outcome Fault Errno (S × T)
  fallback_fd_stat_set_flags primary secondary fd flags (s, t) =
      or_else (primary (Request.fd_stat_set_flags fd flags) s) t
        λ errno. (errno, secondary (Request.fd_stat_set_flags fd flags))

  unfoldable pub fallback_fd_stat_set_rights :
      System Fault S → System Fault T → Fd → Rights → Rights → S × T → Outcome Fault Errno (S × T)
  fallback_fd_stat_set_rights primary secondary fd rights_base rights_inheriting (s, t) =
      or_else (primary (Request.fd_stat_set_rights fd rights_base rights_inheriting) s) t
        λ errno. (errno, secondary (Request.fd_stat_set_rights fd rights_base rights_inheriting))

  unfoldable pub fallback_fd_file_stat_get :
      System Fault S → System Fault T → Fd → S × T → Outcome Fault (FileStat × Errno) (S × T)
  fallback_fd_file_stat_get primary secondary fd (s, t) =
      or_else (primary (Request.fd_file_stat_get fd) s) t
        λ (stat, errno). (errno, secondary (Request.fd_file_stat_get fd))

  unfoldable pub fallback_fd_file_stat_set_size :
      System Fault S → System Fault T → Fd → FileSize → S × T → Outcome Fault Errno (S × T)
  fallback_fd_file_stat_set_size primary secondary fd size (s, t) =
      or_else (primary (Request.fd_file_stat_set_size fd size) s) t
        λ errno. (errno, secondary (Request.fd_file_stat_set_size fd size))

  unfoldable pub fallback_fd_file_stat_set_times :
      System Fault S
      → System Fault T
      → Fd
      → Timestamp
      → Timestamp
      → FstFlags
      → S × T
      → Outcome Fault Errno (S × T)
  fallback_fd_file_stat_set_times primary secondary fd access_time modify_time flags (s, t) =
      or_else (primary (Request.fd_file_stat_set_times fd access_time modify_time flags) s) t
        λ errno.
          (errno, secondary (Request.fd_file_stat_set_times fd access_time modify_time flags))

  unfoldable pub fallback_fd_pre_stat_get :
      System Fault S → System Fault T → Fd → S × T → Outcome Fault (PreStat × Errno) (S × T)
  fallback_fd_pre_stat_get primary secondary fd (s, t) =
      or_else (primary (Request.fd_pre_stat_get fd) s) t
        λ (stat, errno). (errno, secondary (Request.fd_pre_stat_get fd))

  unfoldable pub fallback_fd_pre_stat_dir_name :
      System Fault S → System Fault T → Fd → S × T → Outcome Fault (List ℕ × Errno) (S × T)
  fallback_fd_pre_stat_dir_name primary secondary fd (s, t) =
      or_else (primary (Request.fd_pre_stat_dir_name fd) s) t
        λ (name, errno). (errno, secondary (Request.fd_pre_stat_dir_name fd))
