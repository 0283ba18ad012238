-- ===== src/Wasicall/Calls/File.antt =====
-- internal/timemachine/wasicall/codec.go: the Codec methods of the attributes of a file descriptor.
pub mod RoundTrip
use timecraft.Common.{List, length, ℕ}
use timecraft.Common.Result.{Result, ok, ◌>>=◌}
use timecraft.Wasicall.Scalars.{
  decode_advice, decode_errno, decode_fd, decode_fd_flags, decode_file_size, decode_fst_flags,
  decode_rights, decode_timestamp, encode_advice, encode_errno, encode_fd, encode_fd_flags,
  encode_file_size, encode_fst_flags, encode_rights, encode_timestamp,
}
use timecraft.Wasicall.Stats.{
  FdStat, FileStat, PreStat, decode_fd_stat, decode_file_stat, decode_pre_stat, encode_fd_stat,
  encode_file_stat, encode_pre_stat,
}
use timecraft.Wasicall.Wasi.{
  Advice, Errno, Fd, FdFlags, FileSize, FstFlags, Rights, Timestamp, Wasi,
}
use timecraft.Wasicall.Words.{CodecError, decode_string, encode_string}

module _ ⦃w : Wasi⦄ where
  unfoldable pub encode_fd_advise : List ℕ → Fd → FileSize → FileSize → Advice → Errno → List ℕ
  encode_fd_advise buffer fd offset length advice errno =
      let buffer = encode_errno buffer errno in
      let buffer = encode_fd buffer fd in
      let buffer = encode_file_size buffer offset in
      let buffer = encode_file_size buffer length in encode_advice buffer advice

  unfoldable pub decode_fd_advise :
      List ℕ → Result CodecError (Fd × FileSize × FileSize × Advice × Errno)
  decode_fd_advise buffer = do
    (errno, buffer) ← decode_errno buffer
    (fd, buffer) ← decode_fd buffer
    (offset, buffer) ← decode_file_size buffer
    (length, buffer) ← decode_file_size buffer
    (advice, _) ← decode_advice buffer
    ok (fd, offset, length, advice, errno)

  unfoldable pub encode_fd_allocate : List ℕ → Fd → FileSize → FileSize → Errno → List ℕ
  encode_fd_allocate buffer fd offset length errno =
      let buffer = encode_errno buffer errno in
      let buffer = encode_fd buffer fd in
      let buffer = encode_file_size buffer offset in encode_file_size buffer length

  unfoldable pub decode_fd_allocate : List ℕ → Result CodecError (Fd × FileSize × FileSize × Errno)
  decode_fd_allocate buffer = do
    (errno, buffer) ← decode_errno buffer
    (fd, buffer) ← decode_fd buffer
    (offset, buffer) ← decode_file_size buffer
    (length, _) ← decode_file_size buffer
    ok (fd, offset, length, errno)

  unfoldable pub encode_fd_close : List ℕ → Fd → Errno → List ℕ
  encode_fd_close buffer fd errno = let buffer = encode_errno buffer errno in encode_fd buffer fd

  unfoldable pub decode_fd_close : List ℕ → Result CodecError (Fd × Errno)
  decode_fd_close buffer = do
    (errno, buffer) ← decode_errno buffer
    (fd, _) ← decode_fd buffer
    ok (fd, errno)

  unfoldable pub encode_fd_data_sync : List ℕ → Fd → Errno → List ℕ
  encode_fd_data_sync buffer fd errno =
      let buffer = encode_errno buffer errno in encode_fd buffer fd

  unfoldable pub decode_fd_data_sync : List ℕ → Result CodecError (Fd × Errno)
  decode_fd_data_sync buffer = do
    (errno, buffer) ← decode_errno buffer
    (fd, _) ← decode_fd buffer
    ok (fd, errno)

  unfoldable pub encode_fd_stat_get : List ℕ → Fd → FdStat → Errno → List ℕ
  encode_fd_stat_get buffer fd stat errno =
      let buffer = encode_errno buffer errno in
      let buffer = encode_fd buffer fd in encode_fd_stat buffer stat

  unfoldable pub decode_fd_stat_get : List ℕ → Result CodecError (Fd × FdStat × Errno)
  decode_fd_stat_get buffer = do
    (errno, buffer) ← decode_errno buffer
    (fd, buffer) ← decode_fd buffer
    (stat, _) ← decode_fd_stat buffer
    ok (fd, stat, errno)

  unfoldable pub encode_fd_stat_set_flags : List ℕ → Fd → FdFlags → Errno → List ℕ
  encode_fd_stat_set_flags buffer fd flags errno =
      let buffer = encode_errno buffer errno in
      let buffer = encode_fd buffer fd in encode_fd_flags buffer flags

  unfoldable pub decode_fd_stat_set_flags : List ℕ → Result CodecError (Fd × FdFlags × Errno)
  decode_fd_stat_set_flags buffer = do
    (errno, buffer) ← decode_errno buffer
    (fd, buffer) ← decode_fd buffer
    (flags, _) ← decode_fd_flags buffer
    ok (fd, flags, errno)

  unfoldable pub encode_fd_stat_set_rights : List ℕ → Fd → Rights → Rights → Errno → List ℕ
  encode_fd_stat_set_rights buffer fd rights_base rights_inheriting errno =
      let buffer = encode_errno buffer errno in
      let buffer = encode_fd buffer fd in
      let buffer = encode_rights buffer rights_base in encode_rights buffer rights_inheriting

  unfoldable pub decode_fd_stat_set_rights :
      List ℕ → Result CodecError (Fd × Rights × Rights × Errno)
  decode_fd_stat_set_rights buffer = do
    (errno, buffer) ← decode_errno buffer
    (fd, buffer) ← decode_fd buffer
    (rights_base, buffer) ← decode_rights buffer
    (rights_inheriting, _) ← decode_rights buffer
    ok (fd, rights_base, rights_inheriting, errno)

  unfoldable pub encode_fd_file_stat_get : List ℕ → Fd → FileStat → Errno → List ℕ
  encode_fd_file_stat_get buffer fd stat errno =
      let buffer = encode_errno buffer errno in
      let buffer = encode_fd buffer fd in encode_file_stat buffer stat

  unfoldable pub decode_fd_file_stat_get : List ℕ → Result CodecError (Fd × FileStat × Errno)
  decode_fd_file_stat_get buffer = do
    (errno, buffer) ← decode_errno buffer
    (fd, buffer) ← decode_fd buffer
    (stat, _) ← decode_file_stat buffer
    ok (fd, stat, errno)

  unfoldable pub encode_fd_file_stat_set_size : List ℕ → Fd → FileSize → Errno → List ℕ
  encode_fd_file_stat_set_size buffer fd size errno =
      let buffer = encode_errno buffer errno in
      let buffer = encode_fd buffer fd in encode_file_size buffer size

  unfoldable pub decode_fd_file_stat_set_size : List ℕ → Result CodecError (Fd × FileSize × Errno)
  decode_fd_file_stat_set_size buffer = do
    (errno, buffer) ← decode_errno buffer
    (fd, buffer) ← decode_fd buffer
    (size, _) ← decode_file_size buffer
    ok (fd, size, errno)

  unfoldable pub encode_fd_file_stat_set_times :
      List ℕ → Fd → Timestamp → Timestamp → FstFlags → Errno → List ℕ
  encode_fd_file_stat_set_times buffer fd access_time modify_time flags errno =
      let buffer = encode_errno buffer errno in
      let buffer = encode_fd buffer fd in
      let buffer = encode_timestamp buffer access_time in
      let buffer = encode_timestamp buffer modify_time in encode_fst_flags buffer flags

  unfoldable pub decode_fd_file_stat_set_times :
      List ℕ → Result CodecError (Fd × Timestamp × Timestamp × FstFlags × Errno)
  decode_fd_file_stat_set_times buffer = do
    (errno, buffer) ← decode_errno buffer
    (fd, buffer) ← decode_fd buffer
    (access_time, buffer) ← decode_timestamp buffer
    (modify_time, buffer) ← decode_timestamp buffer
    (flags, _) ← decode_fst_flags buffer
    ok (fd, access_time, modify_time, flags, errno)

  unfoldable pub encode_fd_pre_stat_get : List ℕ → Fd → PreStat → Errno → List ℕ
  encode_fd_pre_stat_get buffer fd stat errno =
      let buffer = encode_errno buffer errno in
      let buffer = encode_fd buffer fd in encode_pre_stat buffer stat

  unfoldable pub decode_fd_pre_stat_get : List ℕ → Result CodecError (Fd × PreStat × Errno)
  decode_fd_pre_stat_get buffer = do
    (errno, buffer) ← decode_errno buffer
    (fd, buffer) ← decode_fd buffer
    (stat, _) ← decode_pre_stat buffer
    ok (fd, stat, errno)

  unfoldable pub encode_fd_pre_stat_dir_name : List ℕ → Fd → List ℕ → Errno → List ℕ
  encode_fd_pre_stat_dir_name buffer fd name errno =
      let buffer = encode_errno buffer errno in
      let buffer = encode_fd buffer fd in encode_string buffer name

  unfoldable pub decode_fd_pre_stat_dir_name : List ℕ → Result CodecError (Fd × List ℕ × Errno)
  decode_fd_pre_stat_dir_name buffer = do
    (errno, buffer) ← decode_errno buffer
    (fd, buffer) ← decode_fd buffer
    (name, _) ← decode_string buffer
    ok (fd, name, errno)
