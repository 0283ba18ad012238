-- ===== src/Wasicall/Calls/Io.antt =====
-- internal/timemachine/wasicall/codec.go: the Codec methods of reads, writes and seeks on a file descriptor.
pub mod RoundTrip
use timecraft.Common.{List, ℕ}
use timecraft.Common.Int.{ℤ}
use timecraft.Common.Result.{Result, ok, ◌>>=◌}
use timecraft.Wasicall.Iovecs.{encode_iovecs_prefix}
use timecraft.Wasicall.Lists.{decode_iovecs, encode_iovecs}
use timecraft.Wasicall.Scalars.{
  decode_dir_cookie, decode_errno, decode_fd, decode_file_delta, decode_file_size, decode_size,
  decode_whence, encode_dir_cookie, encode_errno, encode_fd, encode_file_delta, encode_file_size,
  encode_size, encode_whence,
}
use timecraft.Wasicall.Stats.{DirEntry, decode_dir_entries, encode_dir_entries}
use timecraft.Wasicall.Wasi.{DirCookie, Errno, Fd, FileDelta, FileSize, Wasi, Whence}
use timecraft.Wasicall.Words.{CodecError, decode_int, encode_int}

module _ ⦃w : Wasi⦄ where
  unfoldable pub encode_fd_pread : List ℕ → Fd → List (List ℕ) → FileSize → ℕ → Errno → List ℕ
  encode_fd_pread buffer fd iovecs offset size errno =
      let buffer = encode_errno buffer errno in
      let buffer = encode_fd buffer fd in
      let buffer = encode_iovecs_prefix buffer iovecs size in
      let buffer = encode_file_size buffer offset in encode_size buffer size

  unfoldable pub decode_fd_pread :
      List ℕ → Result CodecError (Fd × List (List ℕ) × FileSize × ℕ × Errno)
  decode_fd_pread buffer = do
    (errno, buffer) ← decode_errno buffer
    (fd, buffer) ← decode_fd buffer
    (iovecs, buffer) ← decode_iovecs buffer
    (offset, buffer) ← decode_file_size buffer
    (size, _) ← decode_size buffer
    ok (fd, iovecs, offset, size, errno)

  unfoldable pub encode_fd_pwrite : List ℕ → Fd → List (List ℕ) → FileSize → ℕ → Errno → List ℕ
  encode_fd_pwrite buffer fd iovecs offset size errno =
      let buffer = encode_errno buffer errno in
      let buffer = encode_fd buffer fd in
      let buffer = encode_iovecs buffer iovecs in
      let buffer = encode_file_size buffer offset in encode_size buffer size

  unfoldable pub decode_fd_pwrite :
      List ℕ → Result CodecError (Fd × List (List ℕ) × FileSize × ℕ × Errno)
  decode_fd_pwrite buffer = do
    (errno, buffer) ← decode_errno buffer
    (fd, buffer) ← decode_fd buffer
    (iovecs, buffer) ← decode_iovecs buffer
    (offset, buffer) ← decode_file_size buffer
    (size, _) ← decode_size buffer
    ok (fd, iovecs, offset, size, errno)

  unfoldable pub encode_fd_read : List ℕ → Fd → List (List ℕ) → ℕ → Errno → List ℕ
  encode_fd_read buffer fd iovecs size errno =
      let buffer = encode_errno buffer errno in
      let buffer = encode_fd buffer fd in
      let buffer = encode_iovecs_prefix buffer iovecs size in encode_size buffer size

  unfoldable pub decode_fd_read : List ℕ → Result CodecError (Fd × List (List ℕ) × ℕ × Errno)
  decode_fd_read buffer = do
    (errno, buffer) ← decode_errno buffer
    (fd, buffer) ← decode_fd buffer
    (iovecs, buffer) ← decode_iovecs buffer
    (size, _) ← decode_size buffer
    ok (fd, iovecs, size, errno)

  unfoldable pub encode_fd_read_dir : List ℕ → Fd → List DirEntry → DirCookie → ℤ → Errno → List ℕ
  encode_fd_read_dir buffer fd entries cookie buffer_size_bytes errno =
      let buffer = encode_errno buffer errno in
      let buffer = encode_fd buffer fd in
      let buffer = encode_dir_entries buffer entries in
      let buffer = encode_dir_cookie buffer cookie in encode_int buffer buffer_size_bytes

  unfoldable pub decode_fd_read_dir :
      List ℕ → Result CodecError (Fd × List DirEntry × DirCookie × ℤ × Errno)
  decode_fd_read_dir buffer = do
    (errno, buffer) ← decode_errno buffer
    (fd, buffer) ← decode_fd buffer
    (entries, buffer) ← decode_dir_entries buffer
    (cookie, buffer) ← decode_dir_cookie buffer
    (buffer_size_bytes, _) ← decode_int buffer
    ok (fd, entries, cookie, buffer_size_bytes, errno)

  unfoldable pub encode_fd_renumber : List ℕ → Fd → Fd → Errno → List ℕ
  encode_fd_renumber buffer from to errno =
      let buffer = encode_errno buffer errno in
      let buffer = encode_fd buffer from in encode_fd buffer to

  unfoldable pub decode_fd_renumber : List ℕ → Result CodecError (Fd × Fd × Errno)
  decode_fd_renumber buffer = do
    (errno, buffer) ← decode_errno buffer
    (from, buffer) ← decode_fd buffer
    (to, _) ← decode_fd buffer
    ok (from, to, errno)

  unfoldable pub encode_fd_seek : List ℕ → Fd → FileDelta → Whence → FileSize → Errno → List ℕ
  encode_fd_seek buffer fd seek_offset whence offset errno =
      let buffer = encode_errno buffer errno in
      let buffer = encode_fd buffer fd in
      let buffer = encode_file_delta buffer seek_offset in
      let buffer = encode_whence buffer whence in encode_file_size buffer offset

  unfoldable pub decode_fd_seek :
      List ℕ → Result CodecError (Fd × FileDelta × Whence × FileSize × Errno)
  decode_fd_seek buffer = do
    (errno, buffer) ← decode_errno buffer
    (fd, buffer) ← decode_fd buffer
    (seek_offset, buffer) ← decode_file_delta buffer
    (whence, buffer) ← decode_whence buffer
    (offset, _) ← decode_file_size buffer
    ok (fd, seek_offset, whence, offset, errno)

  unfoldable pub encode_fd_sync : List ℕ → Fd → Errno → List ℕ
  encode_fd_sync buffer fd errno = let buffer = encode_errno buffer errno in encode_fd buffer fd

  unfoldable pub decode_fd_sync : List ℕ → Result CodecError (Fd × Errno)
  decode_fd_sync buffer = do
    (errno, buffer) ← decode_errno buffer
    (fd, _) ← decode_fd buffer
    ok (fd, errno)

  unfoldable pub encode_fd_tell : List ℕ → Fd → FileSize → Errno → List ℕ
  encode_fd_tell buffer fd offset errno =
      let buffer = encode_errno buffer errno in
      let buffer = encode_fd buffer fd in encode_file_size buffer offset

  unfoldable pub decode_fd_tell : List ℕ → Result CodecError (Fd × FileSize × Errno)
  decode_fd_tell buffer = do
    (errno, buffer) ← decode_errno buffer
    (fd, buffer) ← decode_fd buffer
    (offset, _) ← decode_file_size buffer
    ok (fd, offset, errno)

  unfoldable pub encode_fd_write : List ℕ → Fd → List (List ℕ) → ℕ → Errno → List ℕ
  encode_fd_write buffer fd iovecs size errno =
      let buffer = encode_errno buffer errno in
      let buffer = encode_fd buffer fd in
      let buffer = encode_iovecs buffer iovecs in encode_size buffer size

  unfoldable pub decode_fd_write : List ℕ → Result CodecError (Fd × List (List ℕ) × ℕ × Errno)
  decode_fd_write buffer = do
    (errno, buffer) ← decode_errno buffer
    (fd, buffer) ← decode_fd buffer
    (iovecs, buffer) ← decode_iovecs buffer
    (size, _) ← decode_size buffer
    ok (fd, iovecs, size, errno)
