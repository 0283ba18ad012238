-- ===== src/Wasicall/Calls/Paths.antt =====
-- internal/timemachine/wasicall/codec.go: the Codec methods of the calls on paths.
pub mod RoundTrip
use timecraft.Common.{List, ℕ}
use timecraft.Common.Result.{Result, ok, ◌>>=◌}
use timecraft.Wasicall.Scalars.{
  decode_errno, decode_fd, decode_fd_flags, decode_fst_flags, decode_lookup_flags,
  decode_open_flags, decode_rights, decode_timestamp, encode_errno, encode_fd, encode_fd_flags,
  encode_fst_flags, encode_lookup_flags, encode_open_flags, encode_rights, encode_timestamp,
}
use timecraft.Wasicall.Stats.{FileStat, decode_file_stat, encode_file_stat}
use timecraft.Wasicall.Wasi.{
  Errno, Fd, FdFlags, FstFlags, LookupFlags, OpenFlags, Rights, Timestamp, Wasi,
}
use timecraft.Wasicall.Words.{CodecError, decode_bytes, decode_string, encode_bytes, encode_string}

module _ ⦃w : Wasi⦄ where
  unfoldable pub encode_path_create_directory : List ℕ → Fd → List ℕ → Errno → List ℕ
  encode_path_create_directory buffer fd path errno =
      let buffer = encode_errno buffer errno in
      let buffer = encode_fd buffer fd in encode_string buffer path

  unfoldable pub decode_path_create_directory : List ℕ → Result CodecError (Fd × List ℕ × Errno)
  decode_path_create_directory buffer = do
    (errno, buffer) ← decode_errno buffer
    (fd, buffer) ← decode_fd buffer
    (path, _) ← decode_string buffer
    ok (fd, path, errno)

  unfoldable pub encode_path_file_stat_get :
      List ℕ → Fd → LookupFlags → List ℕ → FileStat → Errno → List ℕ
  encode_path_file_stat_get buffer fd lookup_flags path file_stat errno =
      let buffer = encode_errno buffer errno in
      let buffer = encode_fd buffer fd in
      let buffer = encode_lookup_flags buffer lookup_flags in
      let buffer = encode_string buffer path in encode_file_stat buffer file_stat

  unfoldable pub decode_path_file_stat_get :
      List ℕ → Result CodecError (Fd × LookupFlags × List ℕ × FileStat × Errno)
  decode_path_file_stat_get buffer = do
    (errno, buffer) ← decode_errno buffer
    (fd, buffer) ← decode_fd buffer
    (lookup_flags, buffer) ← decode_lookup_flags buffer
    (path, buffer) ← decode_string buffer
    (file_stat, _) ← decode_file_stat buffer
    ok (fd, lookup_flags, path, file_stat, errno)

  unfoldable pub encode_path_file_stat_set_times :
      List ℕ → Fd → LookupFlags → List ℕ → Timestamp → Timestamp → FstFlags → Errno → List ℕ
  encode_path_file_stat_set_times buffer fd lookup_flags path access_time modify_time flags errno =
      let buffer = encode_errno buffer errno in
      let buffer = encode_fd buffer fd in
      let buffer = encode_lookup_flags buffer lookup_flags in
      let buffer = encode_string buffer path in
      let buffer = encode_timestamp buffer access_time in
      let buffer = encode_timestamp buffer modify_time in encode_fst_flags buffer flags

  unfoldable pub decode_path_file_stat_set_times :
      List ℕ
      → Result CodecError (Fd × LookupFlags × List ℕ × Timestamp × Timestamp × FstFlags × Errno)
  decode_path_file_stat_set_times buffer = do
    (errno, buffer) ← decode_errno buffer
    (fd, buffer) ← decode_fd buffer
    (lookup_flags, buffer) ← decode_lookup_flags buffer
    (path, buffer) ← decode_string buffer
    (access_time, buffer) ← decode_timestamp buffer
    (modify_time, buffer) ← decode_timestamp buffer
    (flags, _) ← decode_fst_flags buffer
    ok (fd, lookup_flags, path, access_time, modify_time, flags, errno)

  unfoldable pub encode_path_link :
      List ℕ → Fd → LookupFlags → List ℕ → Fd → List ℕ → Errno → List ℕ
  encode_path_link buffer old_fd old_flags old_path new_fd new_path errno =
      let buffer = encode_errno buffer errno in
      let buffer = encode_fd buffer old_fd in
      let buffer = encode_lookup_flags buffer old_flags in
      let buffer = encode_string buffer old_path in
      let buffer = encode_fd buffer new_fd in encode_string buffer new_path

  unfoldable pub decode_path_link :
      List ℕ → Result CodecError (Fd × LookupFlags × List ℕ × Fd × List ℕ × Errno)
  decode_path_link buffer = do
    (errno, buffer) ← decode_errno buffer
    (old_fd, buffer) ← decode_fd buffer
    (old_flags, buffer) ← decode_lookup_flags buffer
    (old_path, buffer) ← decode_string buffer
    (new_fd, buffer) ← decode_fd buffer
    (new_path, _) ← decode_string buffer
    ok (old_fd, old_flags, old_path, new_fd, new_path, errno)

  unfoldable pub encode_path_open :
      List ℕ
      → Fd
      → LookupFlags
      → List ℕ
      → OpenFlags
      → Rights
      → Rights
      → FdFlags
      → Fd
      → Errno
      → List ℕ
  encode_path_open buffer fd dir_flags path open_flags rights_base rights_inheriting fd_flags newfd
        errno =
      let buffer = encode_errno buffer errno in
      let buffer = encode_fd buffer fd in
      let buffer = encode_lookup_flags buffer dir_flags in
      let buffer = encode_string buffer path in
      let buffer = encode_open_flags buffer open_flags in
      let buffer = encode_rights buffer rights_base in
      let buffer = encode_rights buffer rights_inheriting in
      let buffer = encode_fd_flags buffer fd_flags in encode_fd buffer newfd

  unfoldable pub decode_path_open :
      List ℕ
      → Result CodecError
          (Fd × LookupFlags × List ℕ × OpenFlags × Rights × Rights × FdFlags × Fd × Errno)
  decode_path_open buffer = do
    (errno, buffer) ← decode_errno buffer
    (fd, buffer) ← decode_fd buffer
    (dir_flags, buffer) ← decode_lookup_flags buffer
    (path, buffer) ← decode_string buffer
    (open_flags, buffer) ← decode_open_flags buffer
    (rights_base, buffer) ← decode_rights buffer
    (rights_inheriting, buffer) ← decode_rights buffer
    (fd_flags, buffer) ← decode_fd_flags buffer
    (newfd, _) ← decode_fd buffer
    ok (fd, dir_flags, path, open_flags, rights_base, rights_inheriting, fd_flags, newfd, errno)

  unfoldable pub encode_path_read_link : List ℕ → Fd → List ℕ → List ℕ → Errno → List ℕ
  encode_path_read_link buffer fd path output errno =
      let buffer = encode_errno buffer errno in
      let buffer = encode_fd buffer fd in
      let buffer = encode_string buffer path in encode_bytes buffer output

  unfoldable pub decode_path_read_link : List ℕ → Result CodecError (Fd × List ℕ × List ℕ × Errno)
  decode_path_read_link buffer = do
    (errno, buffer) ← decode_errno buffer
    (fd, buffer) ← decode_fd buffer
    (path, buffer) ← decode_string buffer
    (output, _) ← decode_bytes buffer
    ok (fd, path, output, errno)

  unfoldable pub encode_path_remove_directory : List ℕ → Fd → List ℕ → Errno → List ℕ
  encode_path_remove_directory buffer fd path errno =
      let buffer = encode_errno buffer errno in
      let buffer = encode_fd buffer fd in encode_string buffer path

  unfoldable pub decode_path_remove_directory : List ℕ → Result CodecError (Fd × List ℕ × Errno)
  decode_path_remove_directory buffer = do
    (errno, buffer) ← decode_errno buffer
    (fd, buffer) ← decode_fd buffer
    (path, _) ← decode_string buffer
    ok (fd, path, errno)

  unfoldable pub encode_path_rename : List ℕ → Fd → List ℕ → Fd → List ℕ → Errno → List ℕ
  encode_path_rename buffer fd old_path new_fd new_path errno =
      let buffer = encode_errno buffer errno in
      let buffer = encode_fd buffer fd in
      let buffer = encode_string buffer old_path in
      let buffer = encode_fd buffer new_fd in encode_string buffer new_path

  unfoldable pub decode_path_rename : List ℕ → Result CodecError (Fd × List ℕ × Fd × List ℕ × Errno)
  decode_path_rename buffer = do
    (errno, buffer) ← decode_errno buffer
    (fd, buffer) ← decode_fd buffer
    (old_path, buffer) ← decode_string buffer
    (new_fd, buffer) ← decode_fd buffer
    (new_path, _) ← decode_string buffer
    ok (fd, old_path, new_fd, new_path, errno)

  unfoldable pub encode_path_symlink : List ℕ → List ℕ → Fd → List ℕ → Errno → List ℕ
  encode_path_symlink buffer old_path fd new_path errno =
      let buffer = encode_errno buffer errno in
      let buffer = encode_string buffer old_path in
      let buffer = encode_fd buffer fd in encode_string buffer new_path

  unfoldable pub decode_path_symlink : List ℕ → Result CodecError (List ℕ × Fd × List ℕ × Errno)
  decode_path_symlink buffer = do
    (errno, buffer) ← decode_errno buffer
    (old_path, buffer) ← decode_string buffer
    (fd, buffer) ← decode_fd buffer
    (new_path, _) ← decode_string buffer
    ok (old_path, fd, new_path, errno)

  unfoldable pub encode_path_unlink_file : List ℕ → Fd → List ℕ → Errno → List ℕ
  encode_path_unlink_file buffer fd path errno =
      let buffer = encode_errno buffer errno in
      let buffer = encode_fd buffer fd in encode_string buffer path

  unfoldable pub decode_path_unlink_file : List ℕ → Result CodecError (Fd × List ℕ × Errno)
  decode_path_unlink_file buffer = do
    (errno, buffer) ← decode_errno buffer
    (fd, buffer) ← decode_fd buffer
    (path, _) ← decode_string buffer
    ok (fd, path, errno)
