-- ===== src/Wasicall/Calls/Io/RoundTrip.antt =====
-- The round trips of the codec of reads, writes and seeks on a file descriptor.
use timecraft.Common.{List, [], arith, length, refl, ℕ, ◌++◌, ◌<◌, ◌^◌, ◌≡◌}
use timecraft.Common.Int.{ℤ}
use timecraft.Common.Result.{ok}
use timecraft.Wasicall.Calls.Io.{
  decode_fd_pread, decode_fd_pwrite, decode_fd_read, decode_fd_read_dir, decode_fd_renumber,
  decode_fd_seek, decode_fd_sync, decode_fd_tell, decode_fd_write, encode_fd_pread,
  encode_fd_pwrite, encode_fd_read, encode_fd_read_dir, encode_fd_renumber, encode_fd_seek,
  encode_fd_sync, encode_fd_tell, encode_fd_write,
}
use timecraft.Wasicall.Iovecs.Prefix.{
  encode_iovecs_prefix-recorded, length-recorded_iovecs, recorded_iovecs, total,
}
use timecraft.Wasicall.Lists.{bytes_list, encode_iovecs-append, list_codec}
use timecraft.Wasicall.Stats.{DirEntry}
use timecraft.Wasicall.Stats.RoundTrip.{dir_entry_codec, encode_dir_entries-append}
use timecraft.Wasicall.Wasi.{DirCookie, Errno, Fd, FileDelta, FileSize, Wasi, Whence}
use timecraft.Wasicall.Words.RoundTrip.{
  Fits, IsInt64, appended, int_codec, read_then, scalar32, scalar64, u32_codec,
}

module _ ⦃w : Wasi⦄ where
  pub fd_pread_lem :
      (fd : Fd) (iovecs : List (List ℕ)) (offset : FileSize) (size : ℕ) (errno : Errno)
      (rest : List ℕ)
      → length iovecs < 2 ^ 32
      → total iovecs < 2 ^ 32
      → size < 2 ^ 32
      → Fits (encode_fd_pread [] fd iovecs offset size errno ++ rest)
      → decode_fd_pread (encode_fd_pread [] fd iovecs offset size errno ++ rest)
        ≡ ok (fd, recorded_iovecs iovecs size, offset, size, errno)
  unfolding encode_fd_pread decode_fd_pread
  fd_pread_lem fd iovecs offset size errno rest short_iovecs total_iovecs valid_size fits =
      let prefix =
        λ (buffer : List ℕ). encode_iovecs_prefix-recorded buffer iovecs size total_iovecs in
      let fits = simp (prefix, appended, encode_iovecs-append) at fits in
      simp (prefix, appended, encode_iovecs-append)
        (read_then (scalar32 w.errno) errno _ tt fits λ fits.
          read_then (scalar32 w.fd) fd _ tt fits λ fits.
            read_then bytes_list (recorded_iovecs iovecs size) _
              (omega (arith, length-recorded_iovecs iovecs size)) fits
              λ fits.
                read_then (scalar64 w.file_size) offset _ tt fits
                  λ fits. read_then u32_codec size _ valid_size fits λ fits. refl)

  pub fd_pwrite_lem :
      (fd : Fd) (iovecs : List (List ℕ)) (offset : FileSize) (size : ℕ) (errno : Errno)
      (rest : List ℕ)
      → length iovecs < 2 ^ 32
      → size < 2 ^ 32
      → Fits (encode_fd_pwrite [] fd iovecs offset size errno ++ rest)
      → decode_fd_pwrite (encode_fd_pwrite [] fd iovecs offset size errno ++ rest)
        ≡ ok (fd, iovecs, offset, size, errno)
  unfolding encode_fd_pwrite decode_fd_pwrite
  fd_pwrite_lem fd iovecs offset size errno rest valid_iovecs valid_size fits =
      let fits = simp (appended, encode_iovecs-append) at fits in
      simp (appended, encode_iovecs-append)
        (read_then (scalar32 w.errno) errno _ tt fits λ fits.
          read_then (scalar32 w.fd) fd _ tt fits λ fits.
            read_then bytes_list iovecs _ valid_iovecs fits λ fits.
              read_then (scalar64 w.file_size) offset _ tt fits
                λ fits. read_then u32_codec size _ valid_size fits λ fits. refl)

  pub fd_read_lem :
      (fd : Fd) (iovecs : List (List ℕ)) (size : ℕ) (errno : Errno) (rest : List ℕ)
      → length iovecs < 2 ^ 32
      → total iovecs < 2 ^ 32
      → size < 2 ^ 32
      → Fits (encode_fd_read [] fd iovecs size errno ++ rest)
      → decode_fd_read (encode_fd_read [] fd iovecs size errno ++ rest)
        ≡ ok (fd, recorded_iovecs iovecs size, size, errno)
  unfolding encode_fd_read decode_fd_read
  fd_read_lem fd iovecs size errno rest short_iovecs total_iovecs valid_size fits =
      let prefix =
        λ (buffer : List ℕ). encode_iovecs_prefix-recorded buffer iovecs size total_iovecs in
      let fits = simp (prefix, appended, encode_iovecs-append) at fits in
      simp (prefix, appended, encode_iovecs-append)
        (read_then (scalar32 w.errno) errno _ tt fits λ fits.
          read_then (scalar32 w.fd) fd _ tt fits λ fits.
            read_then bytes_list (recorded_iovecs iovecs size) _
              (omega (arith, length-recorded_iovecs iovecs size)) fits
              λ fits. read_then u32_codec size _ valid_size fits λ fits. refl)

  pub fd_read_dir_lem :
      (fd : Fd) (entries : List DirEntry) (cookie : DirCookie) (buffer_size_bytes : ℤ)
      (errno : Errno) (rest : List ℕ)
      → (list_codec dir_entry_codec).IsValid entries
      → IsInt64 buffer_size_bytes
      → Fits (encode_fd_read_dir [] fd entries cookie buffer_size_bytes errno ++ rest)
      → decode_fd_read_dir (encode_fd_read_dir [] fd entries cookie buffer_size_bytes errno ++ rest)
        ≡ ok (fd, entries, cookie, buffer_size_bytes, errno)
  unfolding encode_fd_read_dir decode_fd_read_dir
  fd_read_dir_lem fd entries cookie buffer_size_bytes errno rest valid_entries
        valid_buffer_size_bytes fits =
      let fits = simp (appended, encode_dir_entries-append) at fits in
      simp (appended, encode_dir_entries-append)
        (read_then (scalar32 w.errno) errno _ tt fits λ fits.
          read_then (scalar32 w.fd) fd _ tt fits λ fits.
            read_then (list_codec dir_entry_codec) entries _ valid_entries fits λ fits.
              read_then (scalar64 w.dir_cookie) cookie _ tt fits λ fits.
                read_then int_codec buffer_size_bytes _ valid_buffer_size_bytes fits λ fits. refl)

  pub fd_renumber_lem :
      (from : Fd) (to : Fd) (errno : Errno) (rest : List ℕ)
      → Fits (encode_fd_renumber [] from to errno ++ rest)
      → decode_fd_renumber (encode_fd_renumber [] from to errno ++ rest) ≡ ok (from, to, errno)
  unfolding encode_fd_renumber decode_fd_renumber
  fd_renumber_lem from to errno rest fits =
      let fits = simp appended at fits in
      simp appended (
        read_then (scalar32 w.errno) errno _ tt fits λ fits.
          read_then (scalar32 w.fd) from _ tt fits
            λ fits. read_then (scalar32 w.fd) to _ tt fits λ fits. refl)

  pub fd_seek_lem :
      (fd : Fd) (seek_offset : FileDelta) (whence : Whence) (offset : FileSize) (errno : Errno)
      (rest : List ℕ)
      → Fits (encode_fd_seek [] fd seek_offset whence offset errno ++ rest)
      → decode_fd_seek (encode_fd_seek [] fd seek_offset whence offset errno ++ rest)
        ≡ ok (fd, seek_offset, whence, offset, errno)
  unfolding encode_fd_seek decode_fd_seek
  fd_seek_lem fd seek_offset whence offset errno rest fits =
      let fits = simp appended at fits in
      simp appended (
        read_then (scalar32 w.errno) errno _ tt fits λ fits.
          read_then (scalar32 w.fd) fd _ tt fits λ fits.
            read_then (scalar64 w.file_delta) seek_offset _ tt fits λ fits.
              read_then (scalar32 w.whence) whence _ tt fits
                λ fits. read_then (scalar64 w.file_size) offset _ tt fits λ fits. refl)

  pub fd_sync_lem :
      (fd : Fd) (errno : Errno) (rest : List ℕ)
      → Fits (encode_fd_sync [] fd errno ++ rest)
      → decode_fd_sync (encode_fd_sync [] fd errno ++ rest) ≡ ok (fd, errno)
  unfolding encode_fd_sync decode_fd_sync
  fd_sync_lem fd errno rest fits =
      let fits = simp appended at fits in
      simp appended (
        read_then (scalar32 w.errno) errno _ tt fits
          λ fits. read_then (scalar32 w.fd) fd _ tt fits λ fits. refl)

  pub fd_tell_lem :
      (fd : Fd) (offset : FileSize) (errno : Errno) (rest : List ℕ)
      → Fits (encode_fd_tell [] fd offset errno ++ rest)
      → decode_fd_tell (encode_fd_tell [] fd offset errno ++ rest) ≡ ok (fd, offset, errno)
  unfolding encode_fd_tell decode_fd_tell
  fd_tell_lem fd offset errno rest fits =
      let fits = simp appended at fits in
      simp appended (
        read_then (scalar32 w.errno) errno _ tt fits λ fits.
          read_then (scalar32 w.fd) fd _ tt fits
            λ fits. read_then (scalar64 w.file_size) offset _ tt fits λ fits. refl)

  pub fd_write_lem :
      (fd : Fd) (iovecs : List (List ℕ)) (size : ℕ) (errno : Errno) (rest : List ℕ)
      → length iovecs < 2 ^ 32
      → size < 2 ^ 32
      → Fits (encode_fd_write [] fd iovecs size errno ++ rest)
      → decode_fd_write (encode_fd_write [] fd iovecs size errno ++ rest)
        ≡ ok (fd, iovecs, size, errno)
  unfolding encode_fd_write decode_fd_write
  fd_write_lem fd iovecs size errno rest valid_iovecs valid_size fits =
      let fits = simp (appended, encode_iovecs-append) at fits in
      simp (appended, encode_iovecs-append)
        (read_then (scalar32 w.errno) errno _ tt fits λ fits.
          read_then (scalar32 w.fd) fd _ tt fits λ fits.
            read_then bytes_list iovecs _ valid_iovecs fits
              λ fits. read_then u32_codec size _ valid_size fits λ fits. refl)
