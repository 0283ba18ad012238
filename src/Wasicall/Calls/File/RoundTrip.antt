-- ===== src/Wasicall/Calls/File/RoundTrip.antt =====
-- The round trips of the codec of the attributes of a file descriptor.
use timecraft.Common.{List, [], length, refl, ℕ, ◌++◌, ◌<◌, ◌^◌, ◌≡◌}
use timecraft.Common.Result.{ok}
use timecraft.Wasicall.Calls.File.{
  decode_fd_advise, decode_fd_allocate, decode_fd_close, decode_fd_data_sync,
  decode_fd_file_stat_get, decode_fd_file_stat_set_size, decode_fd_file_stat_set_times,
  decode_fd_pre_stat_dir_name, decode_fd_pre_stat_get, decode_fd_stat_get, decode_fd_stat_set_flags,
  decode_fd_stat_set_rights, encode_fd_advise, encode_fd_allocate, encode_fd_close,
  encode_fd_data_sync, encode_fd_file_stat_get, encode_fd_file_stat_set_size,
  encode_fd_file_stat_set_times, encode_fd_pre_stat_dir_name, encode_fd_pre_stat_get,
  encode_fd_stat_get, encode_fd_stat_set_flags, encode_fd_stat_set_rights,
}
use timecraft.Wasicall.Stats.{FdStat, FileStat, PreStat}
use timecraft.Wasicall.Stats.RoundTrip.{
  encode_fd_stat-append, encode_file_stat-append, encode_pre_stat-append, fd_stat_codec,
  file_stat_codec, pre_stat_codec,
}
use timecraft.Wasicall.Wasi.{
  Advice, Errno, Fd, FdFlags, FileSize, FstFlags, Rights, Timestamp, Wasi,
}
use timecraft.Wasicall.Words.RoundTrip.{Fits, appended, read_then, scalar32, scalar64, string_codec}

module _ ⦃w : Wasi⦄ where
  pub fd_advise_lem :
      (fd : Fd) (offset : FileSize) (length : FileSize) (advice : Advice) (errno : Errno)
      (rest : List ℕ)
      → Fits (encode_fd_advise [] fd offset length advice errno ++ rest)
      → decode_fd_advise (encode_fd_advise [] fd offset length advice errno ++ rest)
        ≡ ok (fd, offset, length, advice, errno)
  unfolding encode_fd_advise decode_fd_advise
  fd_advise_lem fd offset length advice errno rest fits =
      let fits = simp appended at fits in
      simp appended (
        read_then (scalar32 w.errno) errno _ tt fits λ fits.
          read_then (scalar32 w.fd) fd _ tt fits λ fits.
            read_then (scalar64 w.file_size) offset _ tt fits λ fits.
              read_then (scalar64 w.file_size) length _ tt fits
                λ fits. read_then (scalar32 w.advice) advice _ tt fits λ fits. refl)

  pub fd_allocate_lem :
      (fd : Fd) (offset : FileSize) (length : FileSize) (errno : Errno) (rest : List ℕ)
      → Fits (encode_fd_allocate [] fd offset length errno ++ rest)
      → decode_fd_allocate (encode_fd_allocate [] fd offset length errno ++ rest)
        ≡ ok (fd, offset, length, errno)
  unfolding encode_fd_allocate decode_fd_allocate
  fd_allocate_lem fd offset length errno rest fits =
      let fits = simp appended at fits in
      simp appended (
        read_then (scalar32 w.errno) errno _ tt fits λ fits.
          read_then (scalar32 w.fd) fd _ tt fits λ fits.
            read_then (scalar64 w.file_size) offset _ tt fits
              λ fits. read_then (scalar64 w.file_size) length _ tt fits λ fits. refl)

  pub fd_close_lem :
      (fd : Fd) (errno : Errno) (rest : List ℕ)
      → Fits (encode_fd_close [] fd errno ++ rest)
      → decode_fd_close (encode_fd_close [] fd errno ++ rest) ≡ ok (fd, errno)
  unfolding encode_fd_close decode_fd_close
  fd_close_lem fd errno rest fits =
      let fits = simp appended at fits in
      simp appended (
        read_then (scalar32 w.errno) errno _ tt fits
          λ fits. read_then (scalar32 w.fd) fd _ tt fits λ fits. refl)

  pub fd_data_sync_lem :
      (fd : Fd) (errno : Errno) (rest : List ℕ)
      → Fits (encode_fd_data_sync [] fd errno ++ rest)
      → decode_fd_data_sync (encode_fd_data_sync [] fd errno ++ rest) ≡ ok (fd, errno)
  unfolding encode_fd_data_sync decode_fd_data_sync
  fd_data_sync_lem fd errno rest fits =
      let fits = simp appended at fits in
      simp appended (
        read_then (scalar32 w.errno) errno _ tt fits
          λ fits. read_then (scalar32 w.fd) fd _ tt fits λ fits. refl)

  pub fd_stat_get_lem :
      (fd : Fd) (stat : FdStat) (errno : Errno) (rest : List ℕ)
      → Fits (encode_fd_stat_get [] fd stat errno ++ rest)
      → decode_fd_stat_get (encode_fd_stat_get [] fd stat errno ++ rest) ≡ ok (fd, stat, errno)
  unfolding encode_fd_stat_get decode_fd_stat_get
  fd_stat_get_lem fd stat errno rest fits =
      let fits = simp (appended, encode_fd_stat-append) at fits in
      simp (appended, encode_fd_stat-append)
        (read_then (scalar32 w.errno) errno _ tt fits λ fits.
          read_then (scalar32 w.fd) fd _ tt fits
            λ fits. read_then fd_stat_codec stat _ tt fits λ fits. refl)

  pub fd_stat_set_flags_lem :
      (fd : Fd) (flags : FdFlags) (errno : Errno) (rest : List ℕ)
      → Fits (encode_fd_stat_set_flags [] fd flags errno ++ rest)
      → decode_fd_stat_set_flags (encode_fd_stat_set_flags [] fd flags errno ++ rest)
        ≡ ok (fd, flags, errno)
  unfolding encode_fd_stat_set_flags decode_fd_stat_set_flags
  fd_stat_set_flags_lem fd flags errno rest fits =
      let fits = simp appended at fits in
      simp appended (
        read_then (scalar32 w.errno) errno _ tt fits λ fits.
          read_then (scalar32 w.fd) fd _ tt fits
            λ fits. read_then (scalar32 w.fd_flags) flags _ tt fits λ fits. refl)

  pub fd_stat_set_rights_lem :
      (fd : Fd) (rights_base : Rights) (rights_inheriting : Rights) (errno : Errno) (rest : List ℕ)
      → Fits (encode_fd_stat_set_rights [] fd rights_base rights_inheriting errno ++ rest)
      → decode_fd_stat_set_rights
          (encode_fd_stat_set_rights [] fd rights_base rights_inheriting errno ++ rest)
        ≡ ok (fd, rights_base, rights_inheriting, errno)
  unfolding encode_fd_stat_set_rights decode_fd_stat_set_rights
  fd_stat_set_rights_lem fd rights_base rights_inheriting errno rest fits =
      let fits = simp appended at fits in
      simp appended (
        read_then (scalar32 w.errno) errno _ tt fits λ fits.
          read_then (scalar32 w.fd) fd _ tt fits λ fits.
            read_then (scalar64 w.rights) rights_base _ tt fits
              λ fits. read_then (scalar64 w.rights) rights_inheriting _ tt fits λ fits. refl)

  pub fd_file_stat_get_lem :
      (fd : Fd) (stat : FileStat) (errno : Errno) (rest : List ℕ)
      → Fits (encode_fd_file_stat_get [] fd stat errno ++ rest)
      → decode_fd_file_stat_get (encode_fd_file_stat_get [] fd stat errno ++ rest)
        ≡ ok (fd, stat, errno)
  unfolding encode_fd_file_stat_get decode_fd_file_stat_get
  fd_file_stat_get_lem fd stat errno rest fits =
      let fits = simp (appended, encode_file_stat-append) at fits in
      simp (appended, encode_file_stat-append)
        (read_then (scalar32 w.errno) errno _ tt fits λ fits.
          read_then (scalar32 w.fd) fd _ tt fits
            λ fits. read_then file_stat_codec stat _ tt fits λ fits. refl)

  pub fd_file_stat_set_size_lem :
      (fd : Fd) (size : FileSize) (errno : Errno) (rest : List ℕ)
      → Fits (encode_fd_file_stat_set_size [] fd size errno ++ rest)
      → decode_fd_file_stat_set_size (encode_fd_file_stat_set_size [] fd size errno ++ rest)
        ≡ ok (fd, size, errno)
  unfolding encode_fd_file_stat_set_size decode_fd_file_stat_set_size
  fd_file_stat_set_size_lem fd size errno rest fits =
      let fits = simp appended at fits in
      simp appended (
        read_then (scalar32 w.errno) errno _ tt fits λ fits.
          read_then (scalar32 w.fd) fd _ tt fits
            λ fits. read_then (scalar64 w.file_size) size _ tt fits λ fits. refl)

  pub fd_file_stat_set_times_lem :
      (fd : Fd) (access_time : Timestamp) (modify_time : Timestamp) (flags : FstFlags)
      (errno : Errno) (rest : List ℕ)
      → Fits (encode_fd_file_stat_set_times [] fd access_time modify_time flags errno ++ rest)
      → decode_fd_file_stat_set_times
          (encode_fd_file_stat_set_times [] fd access_time modify_time flags errno ++ rest)
        ≡ ok (fd, access_time, modify_time, flags, errno)
  unfolding encode_fd_file_stat_set_times decode_fd_file_stat_set_times
  fd_file_stat_set_times_lem fd access_time modify_time flags errno rest fits =
      let fits = simp appended at fits in
      simp appended (
        read_then (scalar32 w.errno) errno _ tt fits λ fits.
          read_then (scalar32 w.fd) fd _ tt fits λ fits.
            read_then (scalar64 w.timestamp) access_time _ tt fits λ fits.
              read_then (scalar64 w.timestamp) modify_time _ tt fits
                λ fits. read_then (scalar32 w.fst_flags) flags _ tt fits λ fits. refl)

  pub fd_pre_stat_get_lem :
      (fd : Fd) (stat : PreStat) (errno : Errno) (rest : List ℕ)
      → stat.name_length < 2 ^ 32
      → Fits (encode_fd_pre_stat_get [] fd stat errno ++ rest)
      → decode_fd_pre_stat_get (encode_fd_pre_stat_get [] fd stat errno ++ rest)
        ≡ ok (fd, stat, errno)
  unfolding encode_fd_pre_stat_get decode_fd_pre_stat_get
  fd_pre_stat_get_lem fd stat errno rest valid_stat fits =
      let fits = simp (appended, encode_pre_stat-append) at fits in
      simp (appended, encode_pre_stat-append)
        (read_then (scalar32 w.errno) errno _ tt fits λ fits.
          read_then (scalar32 w.fd) fd _ tt fits
            λ fits. read_then pre_stat_codec stat _ valid_stat fits λ fits. refl)

  pub fd_pre_stat_dir_name_lem :
      (fd : Fd) (name : List ℕ) (errno : Errno) (rest : List ℕ)
      → Fits (encode_fd_pre_stat_dir_name [] fd name errno ++ rest)
      → decode_fd_pre_stat_dir_name (encode_fd_pre_stat_dir_name [] fd name errno ++ rest)
        ≡ ok (fd, name, errno)
  unfolding encode_fd_pre_stat_dir_name decode_fd_pre_stat_dir_name
  fd_pre_stat_dir_name_lem fd name errno rest fits =
      let fits = simp appended at fits in
      simp appended (
        read_then (scalar32 w.errno) errno _ tt fits λ fits.
          read_then (scalar32 w.fd) fd _ tt fits
            λ fits. read_then string_codec name _ tt fits λ fits. refl)
