-- ===== src/Wasicall/Recorder/File.antt =====
-- internal/timemachine/wasicall/record.go: the methods of recorderSystem for the attributes of a file descriptor.
use timecraft.Common.{List, [], length, some, ℕ}
use timecraft.Wasicall.Calls.File.{
  encode_fd_advise, encode_fd_allocate, encode_fd_close, encode_fd_data_sync,
  encode_fd_file_stat_get, encode_fd_file_stat_set_size, encode_fd_file_stat_set_times,
  encode_fd_pre_stat_dir_name, encode_fd_pre_stat_get, encode_fd_stat_get, encode_fd_stat_set_flags,
  encode_fd_stat_set_rights,
}
use timecraft.Wasicall.Recorder.{recording}
use timecraft.Wasicall.Stats.{FdStat, FileStat, PreStat}
use timecraft.Wasicall.Syscall.Ids.{SyscallId}
use timecraft.Wasicall.System.Request.{Outcome, Request, System}
use timecraft.Wasicall.Wasi.{
  Advice, Errno, Fd, FdFlags, FileSize, FstFlags, Rights, Timestamp, Wasi,
}

module _ ⦃w : Wasi⦄ {Fault S T : Type 0} where
  unfoldable pub recorder_fd_advise :
      System Fault S
      → (SyscallId → List ℕ → T → T)
      → Fd
      → FileSize
      → FileSize
      → Advice
      → S × T
      → Outcome Fault Errno (S × T)
  recorder_fd_advise system write fd offset length advice (s, t) =
      recording write SyscallId.fd_advise (system (Request.fd_advise fd offset length advice) s) t
        λ errno. some (encode_fd_advise [] fd offset length advice errno)

  unfoldable pub recorder_fd_allocate :
      System Fault S
      → (SyscallId → List ℕ → T → T)
      → Fd
      → FileSize
      → FileSize
      → S × T
      → Outcome Fault Errno (S × T)
  recorder_fd_allocate system write fd offset length (s, t) =
      recording write SyscallId.fd_allocate (system (Request.fd_allocate fd offset length) s) t
        λ errno. some (encode_fd_allocate [] fd offset length errno)

  unfoldable pub recorder_fd_close :
      System Fault S → (SyscallId → List ℕ → T → T) → Fd → S × T → Outcome Fault Errno (S × T)
  recorder_fd_close system write fd (s, t) =
      recording write SyscallId.fd_close (system (Request.fd_close fd) s) t
        λ errno. some (encode_fd_close [] fd errno)

  unfoldable pub recorder_fd_data_sync :
      System Fault S → (SyscallId → List ℕ → T → T) → Fd → S × T → Outcome Fault Errno (S × T)
  recorder_fd_data_sync system write fd (s, t) =
      recording write SyscallId.fd_data_sync (system (Request.fd_data_sync fd) s) t
        λ errno. some (encode_fd_data_sync [] fd errno)

  unfoldable pub recorder_fd_stat_get :
      System Fault S
      → (SyscallId → List ℕ → T → T)
      → Fd
      → S × T
      → Outcome Fault (FdStat × Errno) (S × T)
  recorder_fd_stat_get system write fd (s, t) =
      recording write SyscallId.fd_stat_get (system (Request.fd_stat_get fd) s) t
        λ (stat, errno). some (encode_fd_stat_get [] fd stat errno)

  unfoldable pub recorder_fd_stat_set_flags :
      System Fault S
      → (SyscallId → List ℕ → T → T)
      → Fd
      → FdFlags
      → S × T
      → Outcome Fault Errno (S × T)
  recorder_fd_stat_set_flags system write fd flags (s, t) =
      recording write SyscallId.fd_stat_set_flags (system (Request.fd_stat_set_flags fd flags) s) t
        λ errno. some (encode_fd_stat_set_flags [] fd flags errno)

  unfoldable pub recorder_fd_stat_set_rights :
      System Fault S
      → (SyscallId → List ℕ → T → T)
      → Fd
      → Rights
      → Rights
      → S × T
      → Outcome Fault Errno (S × T)
  recorder_fd_stat_set_rights system write fd rights_base rights_inheriting (s, t) =
      recording write SyscallId.fd_stat_set_rights
        (system (Request.fd_stat_set_rights fd rights_base rights_inheriting) s) t
        λ errno. some (encode_fd_stat_set_rights [] fd rights_base rights_inheriting errno)

  unfoldable pub recorder_fd_file_stat_get :
      System Fault S
      → (SyscallId → List ℕ → T → T)
      → Fd
      → S × T
      → Outcome Fault (FileStat × Errno) (S × T)
  recorder_fd_file_stat_get system write fd (s, t) =
      recording write SyscallId.fd_file_stat_get (system (Request.fd_file_stat_get fd) s) t
        λ (stat, errno). some (encode_fd_file_stat_get [] fd stat errno)

  unfoldable pub recorder_fd_file_stat_set_size :
      System Fault S
      → (SyscallId → List ℕ → T → T)
      → Fd
      → FileSize
      → S × T
      → Outcome Fault Errno (S × T)
  recorder_fd_file_stat_set_size system write fd size (s, t) =
      recording write SyscallId.fd_file_stat_set_size
        (system (Request.fd_file_stat_set_size fd size) s) t
        λ errno. some (encode_fd_file_stat_set_size [] fd size errno)

  unfoldable pub recorder_fd_file_stat_set_times :
      System Fault S
      → (SyscallId → List ℕ → T → T)
      → Fd
      → Timestamp
      → Timestamp
      → FstFlags
      → S × T
      → Outcome Fault Errno (S × T)
  recorder_fd_file_stat_set_times system write fd access_time modify_time flags (s, t) =
      recording write SyscallId.fd_file_stat_set_times
        (system (Request.fd_file_stat_set_times fd access_time modify_time flags) s) t
        λ errno. some (encode_fd_file_stat_set_times [] fd access_time modify_time flags errno)

  unfoldable pub recorder_fd_pre_stat_get :
      System Fault S
      → (SyscallId → List ℕ → T → T)
      → Fd
      → S × T
      → Outcome Fault (PreStat × Errno) (S × T)
  recorder_fd_pre_stat_get system write fd (s, t) =
      recording write SyscallId.fd_pre_stat_get (system (Request.fd_pre_stat_get fd) s) t
        λ (stat, errno). some (encode_fd_pre_stat_get [] fd stat errno)

  unfoldable pub recorder_fd_pre_stat_dir_name :
      System Fault S
      → (SyscallId → List ℕ → T → T)
      → Fd
      → S × T
      → Outcome Fault (List ℕ × Errno) (S × T)
  recorder_fd_pre_stat_dir_name system write fd (s, t) =
      recording write SyscallId.fd_pre_stat_dir_name (system (Request.fd_pre_stat_dir_name fd) s) t
        λ (name, errno). some (encode_fd_pre_stat_dir_name [] fd name errno)
