-- ===== src/Wasicall/Observer/File.antt =====
-- internal/timemachine/wasicall/observer.go: the methods of observerSystem for the attributes of a file descriptor.
use timecraft.Common.{List, Option, [], length, ℕ}
use timecraft.Wasicall.Observer.{notify, observing}
use timecraft.Wasicall.Stats.{FdStat, FileStat, PreStat}
use timecraft.Wasicall.Syscall.Call.{Syscall}
use timecraft.Wasicall.System.{zero_fd_stat, zero_file_stat, zero_of, zero_pre_stat}
use timecraft.Wasicall.System.Request.{Outcome, Request, System}
use timecraft.Wasicall.Wasi.{
  Advice, Errno, Fd, FdFlags, FileSize, FstFlags, Rights, Timestamp, Wasi,
}

module _ ⦃w : Wasi⦄ {Fault S T : Type 0} where
  unfoldable pub observer_fd_advise :
      System Fault S
      → Option (Syscall → T → T)
      → Option (Syscall → T → T)
      → Fd
      → FileSize
      → FileSize
      → Advice
      → S × T
      → Outcome Fault Errno (S × T)
  observer_fd_advise system before after fd offset length advice (s, t) =
      let t = notify before (Syscall.fd_advise fd offset length advice (zero_of w.errno)) t in
      observing after (system (Request.fd_advise fd offset length advice) s) t
        λ errno. Syscall.fd_advise fd offset length advice errno

  unfoldable pub observer_fd_allocate :
      System Fault S
      → Option (Syscall → T → T)
      → Option (Syscall → T → T)
      → Fd
      → FileSize
      → FileSize
      → S × T
      → Outcome Fault Errno (S × T)
  observer_fd_allocate system before after fd offset length (s, t) =
      let t = notify before (Syscall.fd_allocate fd offset length (zero_of w.errno)) t in
      observing after (system (Request.fd_allocate fd offset length) s) t
        λ errno. Syscall.fd_allocate fd offset length errno

  unfoldable pub observer_fd_close :
      System Fault S
      → Option (Syscall → T → T)
      → Option (Syscall → T → T)
      → Fd
      → S × T
      → Outcome Fault Errno (S × T)
  observer_fd_close system before after fd (s, t) =
      let t = notify before (Syscall.fd_close fd (zero_of w.errno)) t in
      observing after (system (Request.fd_close fd) s) t λ errno. Syscall.fd_close fd errno

  unfoldable pub observer_fd_data_sync :
      System Fault S
      → Option (Syscall → T → T)
      → Option (Syscall → T → T)
      → Fd
      → S × T
      → Outcome Fault Errno (S × T)
  observer_fd_data_sync system before after fd (s, t) =
      let t = notify before (Syscall.fd_data_sync fd (zero_of w.errno)) t in
      observing after (system (Request.fd_data_sync fd) s) t λ errno. Syscall.fd_data_sync fd errno

  unfoldable pub observer_fd_stat_get :
      System Fault S
      → Option (Syscall → T → T)
      → Option (Syscall → T → T)
      → Fd
      → S × T
      → Outcome Fault (FdStat × Errno) (S × T)
  observer_fd_stat_get system before after fd (s, t) =
      let t = notify before (Syscall.fd_stat_get fd zero_fd_stat (zero_of w.errno)) t in
      observing after (system (Request.fd_stat_get fd) s) t
        λ (stat, errno). Syscall.fd_stat_get fd stat errno

  unfoldable pub observer_fd_stat_set_flags :
      System Fault S
      → Option (Syscall → T → T)
      → Option (Syscall → T → T)
      → Fd
      → FdFlags
      → S × T
      → Outcome Fault Errno (S × T)
  observer_fd_stat_set_flags system before after fd flags (s, t) =
      let t = notify before (Syscall.fd_stat_set_flags fd flags (zero_of w.errno)) t in
      observing after (system (Request.fd_stat_set_flags fd flags) s) t
        λ errno. Syscall.fd_stat_set_flags fd flags errno

  unfoldable pub observer_fd_stat_set_rights :
      System Fault S
      → Option (Syscall → T → T)
      → Option (Syscall → T → T)
      → Fd
      → Rights
      → Rights
      → S × T
      → Outcome Fault Errno (S × T)
  observer_fd_stat_set_rights system before after fd rights_base rights_inheriting (s, t) =
      let t =
        notify before
          (Syscall.fd_stat_set_rights fd rights_base rights_inheriting (zero_of w.errno)) t in
      observing after (system (Request.fd_stat_set_rights fd rights_base rights_inheriting) s) t
        λ errno. Syscall.fd_stat_set_rights fd rights_base rights_inheriting errno

  unfoldable pub observer_fd_file_stat_get :
      System Fault S
      → Option (Syscall → T → T)
      → Option (Syscall → T → T)
      → Fd
      → S × T
      → Outcome Fault (FileStat × Errno) (S × T)
  observer_fd_file_stat_get system before after fd (s, t) =
      let t = notify before (Syscall.fd_file_stat_get fd zero_file_stat (zero_of w.errno)) t in
      observing after (system (Request.fd_file_stat_get fd) s) t
        λ (stat, errno). Syscall.fd_file_stat_get fd stat errno

  unfoldable pub observer_fd_file_stat_set_size :
      System Fault S
      → Option (Syscall → T → T)
      → Option (Syscall → T → T)
      → Fd
      → FileSize
      → S × T
      → Outcome Fault Errno (S × T)
  observer_fd_file_stat_set_size system before after fd size (s, t) =
      let t = notify before (Syscall.fd_file_stat_set_size fd size (zero_of w.errno)) t in
      observing after (system (Request.fd_file_stat_set_size fd size) s) t
        λ errno. Syscall.fd_file_stat_set_size fd size errno

  unfoldable pub observer_fd_file_stat_set_times :
      System Fault S
      → Option (Syscall → T → T)
      → Option (Syscall → T → T)
      → Fd
      → Timestamp
      → Timestamp
      → FstFlags
      → S × T
      → Outcome Fault Errno (S × T)
  observer_fd_file_stat_set_times system before after fd access_time modify_time flags (s, t) =
      let t =
        notify before
          (Syscall.fd_file_stat_set_times fd access_time modify_time flags (zero_of w.errno)) t in
      observing after (system (Request.fd_file_stat_set_times fd access_time modify_time flags) s) t
        λ errno. Syscall.fd_file_stat_set_times fd access_time modify_time flags errno

  unfoldable pub observer_fd_pre_stat_get :
      System Fault S
      → Option (Syscall → T → T)
      → Option (Syscall → T → T)
      → Fd
      → S × T
      → Outcome Fault (PreStat × Errno) (S × T)
  observer_fd_pre_stat_get system before after fd (s, t) =
      let t = notify before (Syscall.fd_pre_stat_get fd zero_pre_stat (zero_of w.errno)) t in
      observing after (system (Request.fd_pre_stat_get fd) s) t
        λ (stat, errno). Syscall.fd_pre_stat_get fd stat errno

  unfoldable pub observer_fd_pre_stat_dir_name :
      System Fault S
      → Option (Syscall → T → T)
      → Option (Syscall → T → T)
      → Fd
      → S × T
      → Outcome Fault (List ℕ × Errno) (S × T)
  observer_fd_pre_stat_dir_name system before after fd (s, t) =
      let t = notify before (Syscall.fd_pre_stat_dir_name fd [] (zero_of w.errno)) t in
      observing after (system (Request.fd_pre_stat_dir_name fd) s) t
        λ (name, errno). Syscall.fd_pre_stat_dir_name fd name errno
