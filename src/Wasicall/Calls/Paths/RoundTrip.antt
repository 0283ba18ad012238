-- ===== src/Wasicall/Calls/Paths/RoundTrip.antt =====
-- The round trips of the codec of the calls on paths.
use timecraft.Common.{List, [], refl, ℕ, ◌++◌, ◌≡◌}
use timecraft.Common.Result.{ok}
use timecraft.Wasicall.Calls.Paths.{
  decode_path_create_directory, decode_path_file_stat_get, decode_path_file_stat_set_times,
  decode_path_link, decode_path_open, decode_path_read_link, decode_path_remove_directory,
  decode_path_rename, decode_path_symlink, decode_path_unlink_file, encode_path_create_directory,
  encode_path_file_stat_get, encode_path_file_stat_set_times, encode_path_link, encode_path_open,
  encode_path_read_link, encode_path_remove_directory, encode_path_rename, encode_path_symlink,
  encode_path_unlink_file,
}
use timecraft.Wasicall.Stats.{FileStat}
use timecraft.Wasicall.Stats.RoundTrip.{encode_file_stat-append, file_stat_codec}
use timecraft.Wasicall.Wasi.{
  Errno, Fd, FdFlags, FstFlags, LookupFlags, OpenFlags, Rights, Timestamp, Wasi,
}
use timecraft.Wasicall.Words.RoundTrip.{
  Fits, appended, bytes_codec, read_then, scalar32, scalar64, string_codec,
}

module _ ⦃w : Wasi⦄ where
  pub path_create_directory_lem :
      (fd : Fd) (path : List ℕ) (errno : Errno) (rest : List ℕ)
      → Fits (encode_path_create_directory [] fd path errno ++ rest)
      → decode_path_create_directory (encode_path_create_directory [] fd path errno ++ rest)
        ≡ ok (fd, path, errno)
  unfolding encode_path_create_directory decode_path_create_directory
  path_create_directory_lem fd path errno rest fits =
      let fits = simp appended at fits in
      simp appended (
        read_then (scalar32 w.errno) errno _ tt fits λ fits.
          read_then (scalar32 w.fd) fd _ tt fits
            λ fits. read_then string_codec path _ tt fits λ fits. refl)

  pub path_file_stat_get_lem :
      (fd : Fd) (lookup_flags : LookupFlags) (path : List ℕ) (file_stat : FileStat) (errno : Errno)
      (rest : List ℕ)
      → Fits (encode_path_file_stat_get [] fd lookup_flags path file_stat errno ++ rest)
      → decode_path_file_stat_get
          (encode_path_file_stat_get [] fd lookup_flags path file_stat errno ++ rest)
        ≡ ok (fd, lookup_flags, path, file_stat, errno)
  unfolding encode_path_file_stat_get decode_path_file_stat_get
  path_file_stat_get_lem fd lookup_flags path file_stat errno rest fits =
      let fits = simp (appended, encode_file_stat-append) at fits in
      simp (appended, encode_file_stat-append)
        (read_then (scalar32 w.errno) errno _ tt fits λ fits.
          read_then (scalar32 w.fd) fd _ tt fits λ fits.
            read_then (scalar32 w.lookup_flags) lookup_flags _ tt fits λ fits.
              read_then string_codec path _ tt fits
                λ fits. read_then file_stat_codec file_stat _ tt fits λ fits. refl)

  pub path_file_stat_set_times_lem :
      (fd : Fd) (lookup_flags : LookupFlags) (path : List ℕ) (access_time : Timestamp)
      (modify_time : Timestamp) (flags : FstFlags) (errno : Errno) (rest : List ℕ)
      → Fits (
          encode_path_file_stat_set_times [] fd lookup_flags path access_time modify_time flags
            errno
          ++ rest)
      → decode_path_file_stat_set_times (
          encode_path_file_stat_set_times [] fd lookup_flags path access_time modify_time flags
            errno
          ++ rest)
        ≡ ok (fd, lookup_flags, path, access_time, modify_time, flags, errno)
  unfolding encode_path_file_stat_set_times decode_path_file_stat_set_times
  path_file_stat_set_times_lem fd lookup_flags path access_time modify_time flags errno rest fits =
      let fits = simp appended at fits in
      simp appended (
        read_then (scalar32 w.errno) errno _ tt fits λ fits.
          read_then (scalar32 w.fd) fd _ tt fits λ fits.
            read_then (scalar32 w.lookup_flags) lookup_flags _ tt fits λ fits.
              read_then string_codec path _ tt fits λ fits.
                read_then (scalar64 w.timestamp) access_time _ tt fits λ fits.
                  read_then (scalar64 w.timestamp) modify_time _ tt fits
                    λ fits. read_then (scalar32 w.fst_flags) flags _ tt fits λ fits. refl)

  pub path_link_lem :
      (old_fd : Fd) (old_flags : LookupFlags) (old_path : List ℕ) (new_fd : Fd) (new_path : List ℕ)
      (errno : Errno) (rest : List ℕ)
      → Fits (encode_path_link [] old_fd old_flags old_path new_fd new_path errno ++ rest)
      → decode_path_link
          (encode_path_link [] old_fd old_flags old_path new_fd new_path errno ++ rest)
        ≡ ok (old_fd, old_flags, old_path, new_fd, new_path, errno)
  unfolding encode_path_link decode_path_link
  path_link_lem old_fd old_flags old_path new_fd new_path errno rest fits =
      let fits = simp appended at fits in
      simp appended (
        read_then (scalar32 w.errno) errno _ tt fits λ fits.
          read_then (scalar32 w.fd) old_fd _ tt fits λ fits.
            read_then (scalar32 w.lookup_flags) old_flags _ tt fits λ fits.
              read_then string_codec old_path _ tt fits λ fits.
                read_then (scalar32 w.fd) new_fd _ tt fits
                  λ fits. read_then string_codec new_path _ tt fits λ fits. refl)

  pub path_open_lem :
      (fd : Fd) (dir_flags : LookupFlags) (path : List ℕ) (open_flags : OpenFlags)
      (rights_base : Rights) (rights_inheriting : Rights) (fd_flags : FdFlags) (newfd : Fd)
      (errno : Errno) (rest : List ℕ)
      → Fits (
          encode_path_open [] fd dir_flags path open_flags rights_base rights_inheriting fd_flags
            newfd errno
          ++ rest)
      → decode_path_open (
          encode_path_open [] fd dir_flags path open_flags rights_base rights_inheriting fd_flags
            newfd errno
          ++ rest)
        ≡ ok (
          fd, dir_flags, path, open_flags, rights_base, rights_inheriting, fd_flags, newfd, errno,
        )
  unfolding encode_path_open decode_path_open
  path_open_lem fd dir_flags path open_flags rights_base rights_inheriting fd_flags newfd errno rest
        fits =
      let fits = simp appended at fits in
      simp appended (
        read_then (scalar32 w.errno) errno _ tt fits λ fits.
          read_then (scalar32 w.fd) fd _ tt fits λ fits.
            read_then (scalar32 w.lookup_flags) dir_flags _ tt fits λ fits.
              read_then string_codec path _ tt fits λ fits.
                read_then (scalar32 w.open_flags) open_flags _ tt fits λ fits.
                  read_then (scalar64 w.rights) rights_base _ tt fits λ fits.
                    read_then (scalar64 w.rights) rights_inheriting _ tt fits λ fits.
                      read_then (scalar32 w.fd_flags) fd_flags _ tt fits
                        λ fits. read_then (scalar32 w.fd) newfd _ tt fits λ fits. refl)

  pub path_read_link_lem :
      (fd : Fd) (path : List ℕ) (output : List ℕ) (errno : Errno) (rest : List ℕ)
      → Fits (encode_path_read_link [] fd path output errno ++ rest)
      → decode_path_read_link (encode_path_read_link [] fd path output errno ++ rest)
        ≡ ok (fd, path, output, errno)
  unfolding encode_path_read_link decode_path_read_link
  path_read_link_lem fd path output errno rest fits =
      let fits = simp appended at fits in
      simp appended (
        read_then (scalar32 w.errno) errno _ tt fits λ fits.
          read_then (scalar32 w.fd) fd _ tt fits λ fits.
            read_then string_codec path _ tt fits
              λ fits. read_then bytes_codec output _ tt fits λ fits. refl)

  pub path_remove_directory_lem :
      (fd : Fd) (path : List ℕ) (errno : Errno) (rest : List ℕ)
      → Fits (encode_path_remove_directory [] fd path errno ++ rest)
      → decode_path_remove_directory (encode_path_remove_directory [] fd path errno ++ rest)
        ≡ ok (fd, path, errno)
  unfolding encode_path_remove_directory decode_path_remove_directory
  path_remove_directory_lem fd path errno rest fits =
      let fits = simp appended at fits in
      simp appended (
        read_then (scalar32 w.errno) errno _ tt fits λ fits.
          read_then (scalar32 w.fd) fd _ tt fits
            λ fits. read_then string_codec path _ tt fits λ fits. refl)

  pub path_rename_lem :
      (fd : Fd) (old_path : List ℕ) (new_fd : Fd) (new_path : List ℕ) (errno : Errno)
      (rest : List ℕ)
      → Fits (encode_path_rename [] fd old_path new_fd new_path errno ++ rest)
      → decode_path_rename (encode_path_rename [] fd old_path new_fd new_path errno ++ rest)
        ≡ ok (fd, old_path, new_fd, new_path, errno)
  unfolding encode_path_rename decode_path_rename
  path_rename_lem fd old_path new_fd new_path errno rest fits =
      let fits = simp appended at fits in
      simp appended (
        read_then (scalar32 w.errno) errno _ tt fits λ fits.
          read_then (scalar32 w.fd) fd _ tt fits λ fits.
            read_then string_codec old_path _ tt fits λ fits.
              read_then (scalar32 w.fd) new_fd _ tt fits
                λ fits. read_then string_codec new_path _ tt fits λ fits. refl)

  pub path_symlink_lem :
      (old_path : List ℕ) (fd : Fd) (new_path : List ℕ) (errno : Errno) (rest : List ℕ)
      → Fits (encode_path_symlink [] old_path fd new_path errno ++ rest)
      → decode_path_symlink (encode_path_symlink [] old_path fd new_path errno ++ rest)
        ≡ ok (old_path, fd, new_path, errno)
  unfolding encode_path_symlink decode_path_symlink
  path_symlink_lem old_path fd new_path errno rest fits =
      let fits = simp appended at fits in
      simp appended (
        read_then (scalar32 w.errno) errno _ tt fits λ fits.
          read_then string_codec old_path _ tt fits λ fits.
            read_then (scalar32 w.fd) fd _ tt fits
              λ fits. read_then string_codec new_path _ tt fits λ fits. refl)

  pub path_unlink_file_lem :
      (fd : Fd) (path : List ℕ) (errno : Errno) (rest : List ℕ)
      → Fits (encode_path_unlink_file [] fd path errno ++ rest)
      → decode_path_unlink_file (encode_path_unlink_file [] fd path errno ++ rest)
        ≡ ok (fd, path, errno)
  unfolding encode_path_unlink_file decode_path_unlink_file
  path_unlink_file_lem fd path errno rest fits =
      let fits = simp appended at fits in
      simp appended (
        read_then (scalar32 w.errno) errno _ tt fits λ fits.
          read_then (scalar32 w.fd) fd _ tt fits
            λ fits. read_then string_codec path _ tt fits λ fits. refl)
