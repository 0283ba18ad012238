-- ===== src/Wasicall/Recorder/Paths.antt =====
-- internal/timemachine/wasicall/record.go: the methods of recorderSystem for the calls on paths.
use timecraft.Common.{List, [], some, ℕ}
use timecraft.Common.Int.{ℤ}
use timecraft.Wasicall.Calls.Paths.{
  encode_path_create_directory, encode_path_file_stat_get, encode_path_file_stat_set_times,
  encode_path_link, encode_path_open, encode_path_read_link, encode_path_remove_directory,
  encode_path_rename, encode_path_symlink, encode_path_unlink_file,
}
use timecraft.Wasicall.Recorder.{recording}
use timecraft.Wasicall.Stats.{FileStat}
use timecraft.Wasicall.Syscall.Ids.{SyscallId}
use timecraft.Wasicall.System.{cut}
use timecraft.Wasicall.System.Request.{Outcome, Request, System}
use timecraft.Wasicall.Wasi.{
  Errno, Fd, FdFlags, FstFlags, LookupFlags, OpenFlags, Rights, Timestamp, Wasi,
}

module _ ⦃w : Wasi⦄ {Fault S T : Type 0} where
  unfoldable pub recorder_path_create_directory :
      System Fault S
      → (SyscallId → List ℕ → T → T)
      → Fd
      → List ℕ
      → S × T
      → Outcome Fault Errno (S × T)
  recorder_path_create_directory system write fd path (s, t) =
      recording write SyscallId.path_create_directory
        (system (Request.path_create_directory fd path) s) t
        λ errno. some (encode_path_create_directory [] fd path errno)

  unfoldable pub recorder_path_file_stat_get :
      System Fault S
      → (SyscallId → List ℕ → T → T)
      → Fd
      → LookupFlags
      → List ℕ
      → S × T
      → Outcome Fault (FileStat × Errno) (S × T)
  recorder_path_file_stat_get system write fd lookup_flags path (s, t) =
      recording write SyscallId.path_file_stat_get
        (system (Request.path_file_stat_get fd lookup_flags path) s) t
        λ (filestat, errno). some (encode_path_file_stat_get [] fd lookup_flags path filestat errno)

  unfoldable pub recorder_path_file_stat_set_times :
      System Fault S
      → (SyscallId → List ℕ → T → T)
      → Fd
      → LookupFlags
      → List ℕ
      → Timestamp
      → Timestamp
      → FstFlags
      → S × T
      → Outcome Fault Errno (S × T)
  recorder_path_file_stat_set_times system write fd lookup_flags path access_time modify_time flags
        (s, t) =
      recording write SyscallId.path_file_stat_set_times
        (system
          (Request.path_file_stat_set_times fd lookup_flags path access_time modify_time flags) s)
        t
        λ errno. some (
          encode_path_file_stat_set_times [] fd lookup_flags path access_time modify_time flags
            errno)

  unfoldable pub recorder_path_link :
      System Fault S
      → (SyscallId → List ℕ → T → T)
      → Fd
      → LookupFlags
      → List ℕ
      → Fd
      → List ℕ
      → S × T
      → Outcome Fault Errno (S × T)
  recorder_path_link system write old_fd old_flags old_path new_fd new_path (s, t) =
      recording write SyscallId.path_link
        (system (Request.path_link old_fd old_flags old_path new_fd new_path) s) t
        λ errno. some (encode_path_link [] old_fd old_flags old_path new_fd new_path errno)

  unfoldable pub recorder_path_open :
      System Fault S
      → (SyscallId → List ℕ → T → T)
      → Fd
      → LookupFlags
      → List ℕ
      → OpenFlags
      → Rights
      → Rights
      → FdFlags
      → S × T
      → Outcome Fault (Fd × Errno) (S × T)
  recorder_path_open system write fd dir_flags path open_flags rights_base rights_inheriting
        fd_flags (s, t) =
      recording write SyscallId.path_open
        (system
          (Request.path_open fd dir_flags path open_flags rights_base rights_inheriting fd_flags) s)
        t
        λ (newfd, errno). some (
          encode_path_open [] fd dir_flags path open_flags rights_base rights_inheriting fd_flags
            newfd errno)

  unfoldable pub recorder_path_read_link :
      System Fault S
      → (SyscallId → List ℕ → T → T)
      → Fd
      → List ℕ
      → List ℕ
      → S × T
      → Outcome Fault (List ℕ × ℤ × Errno) (S × T)
  recorder_path_read_link system write fd path buffer (s, t) =
      recording write SyscallId.path_read_link (system (Request.path_read_link fd path buffer) s) t
        λ (buffer, n, errno). some (encode_path_read_link [] fd path (cut n buffer) errno)

  unfoldable pub recorder_path_remove_directory :
      System Fault S
      → (SyscallId → List ℕ → T → T)
      → Fd
      → List ℕ
      → S × T
      → Outcome Fault Errno (S × T)
  recorder_path_remove_directory system write fd path (s, t) =
      recording write SyscallId.path_remove_directory
        (system (Request.path_remove_directory fd path) s) t
        λ errno. some (encode_path_remove_directory [] fd path errno)

  unfoldable pub recorder_path_rename :
      System Fault S
      → (SyscallId → List ℕ → T → T)
      → Fd
      → List ℕ
      → Fd
      → List ℕ
      → S × T
      → Outcome Fault Errno (S × T)
  recorder_path_rename system write fd old_path new_fd new_path (s, t) =
      recording write SyscallId.path_rename
        (system (Request.path_rename fd old_path new_fd new_path) s) t
        λ errno. some (encode_path_rename [] fd old_path new_fd new_path errno)

  unfoldable pub recorder_path_symlink :
      System Fault S
      → (SyscallId → List ℕ → T → T)
      → List ℕ
      → Fd
      → List ℕ
      → S × T
      → Outcome Fault Errno (S × T)
  recorder_path_symlink system write old_path fd new_path (s, t) =
      recording write SyscallId.path_symlink (system (Request.path_symlink old_path fd new_path) s)
        t λ errno. some (encode_path_symlink [] old_path fd new_path errno)

  unfoldable pub recorder_path_unlink_file :
      System Fault S
      → (SyscallId → List ℕ → T → T)
      → Fd
      → List ℕ
      → S × T
      → Outcome Fault Errno (S × T)
  recorder_path_unlink_file system write fd path (s, t) =
      recording write SyscallId.path_unlink_file (system (Request.path_unlink_file fd path) s) t
        λ errno. some (encode_path_unlink_file [] fd path errno)
