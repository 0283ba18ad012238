-- ===== src/Wasicall/Stats.antt =====
-- internal/timemachine/wasicall/codec.go: PreStat, FDStat, FileStat and DirEntry, with the fields
-- that the codec names.
pub mod RoundTrip
use timecraft.Common.{List, ℕ}
use timecraft.Common.Result.{ok, ◌>>=◌}
use timecraft.Wasicall.Lists.{decode_list, encode_list}
use timecraft.Wasicall.Scalars.{
  decode_device, decode_dir_cookie, decode_fd_flags, decode_file_size, decode_file_type,
  decode_inode, decode_link_count, decode_pre_open_type, decode_rights, decode_size,
  decode_timestamp, encode_device, encode_dir_cookie, encode_fd_flags, encode_file_size,
  encode_file_type, encode_inode, encode_link_count, encode_pre_open_type, encode_rights,
  encode_size, encode_timestamp,
}
use timecraft.Wasicall.Wasi.{
  Device, DirCookie, FdFlags, FileSize, FileType, Inode, LinkCount, PreOpenType, Rights, Timestamp,
  Wasi,
}
use timecraft.Wasicall.Words.{Decoded, decode_bytes, encode_bytes}

module _ ⦃w : Wasi⦄ where
  pub record PreStat : Type 0 where
    pub kind : PreOpenType
    pub name_length : ℕ

  pub record FdStat : Type 0 where
    pub file_type : FileType
    pub flags : FdFlags
    pub rights_base : Rights
    pub rights_inheriting : Rights

  pub record FileStat : Type 0 where
    pub device : Device
    pub inode : Inode
    pub file_type : FileType
    pub nlink : LinkCount
    pub size : FileSize
    pub access_time : Timestamp
    pub modify_time : Timestamp
    pub change_time : Timestamp

  pub record DirEntry : Type 0 where
    pub next : DirCookie
    pub inode : Inode
    pub kind : FileType
    pub name : List ℕ

  unfoldable pub encode_pre_stat : List ℕ → PreStat → List ℕ
  encode_pre_stat buffer stat =
      let buffer = encode_pre_open_type buffer stat.kind in encode_size buffer stat.name_length

  unfoldable pub decode_pre_stat : List ℕ → Decoded PreStat
  decode_pre_stat buffer = do
    (kind, buffer) ← decode_pre_open_type buffer
    (name_length, buffer) ← decode_size buffer
    ok (record { kind = kind; name_length = name_length }, buffer)

  unfoldable pub encode_fd_stat : List ℕ → FdStat → List ℕ
  encode_fd_stat buffer stat =
      let buffer = encode_file_type buffer stat.file_type in
      let buffer = encode_fd_flags buffer stat.flags in
      let buffer = encode_rights buffer stat.rights_base in
      encode_rights buffer stat.rights_inheriting

  unfoldable pub decode_fd_stat : List ℕ → Decoded FdStat
  decode_fd_stat buffer = do
    (file_type, buffer) ← decode_file_type buffer
    (flags, buffer) ← decode_fd_flags buffer
    (rights_base, buffer) ← decode_rights buffer
    (rights_inheriting, buffer) ← decode_rights buffer
    ok (
      record {
        file_type = file_type;
        flags = flags;
        rights_base = rights_base;
        rights_inheriting = rights_inheriting;
      },
      buffer,
    )

  unfoldable pub encode_file_stat : List ℕ → FileStat → List ℕ
  encode_file_stat buffer stat =
      let buffer = encode_device buffer stat.device in
      let buffer = encode_inode buffer stat.inode in
      let buffer = encode_file_type buffer stat.file_type in
      let buffer = encode_link_count buffer stat.nlink in
      let buffer = encode_file_size buffer stat.size in
      let buffer = encode_timestamp buffer stat.access_time in
      let buffer = encode_timestamp buffer stat.modify_time in
      encode_timestamp buffer stat.change_time

  unfoldable pub decode_file_stat : List ℕ → Decoded FileStat
  decode_file_stat buffer = do
    (device, buffer) ← decode_device buffer
    (inode, buffer) ← decode_inode buffer
    (file_type, buffer) ← decode_file_type buffer
    (nlink, buffer) ← decode_link_count buffer
    (size, buffer) ← decode_file_size buffer
    (access_time, buffer) ← decode_timestamp buffer
    (modify_time, buffer) ← decode_timestamp buffer
    (change_time, buffer) ← decode_timestamp buffer
    ok (
      record {
        device = device;
        inode = inode;
        file_type = file_type;
        nlink = nlink;
        size = size;
        access_time = access_time;
        modify_time = modify_time;
        change_time = change_time;
      },
      buffer,
    )

  unfoldable pub encode_dir_entry : List ℕ → DirEntry → List ℕ
  encode_dir_entry buffer d =
      let buffer = encode_dir_cookie buffer d.next in
      let buffer = encode_inode buffer d.inode in
      let buffer = encode_file_type buffer d.kind in encode_bytes buffer d.name

  unfoldable pub decode_dir_entry : List ℕ → Decoded DirEntry
  decode_dir_entry buffer = do
    (next, buffer) ← decode_dir_cookie buffer
    (inode, buffer) ← decode_inode buffer
    (kind, buffer) ← decode_file_type buffer
    (name, buffer) ← decode_bytes buffer
    ok (record { next = next; inode = inode; kind = kind; name = name }, buffer)

  abbrev pub encode_dir_entries : List ℕ → List DirEntry → List ℕ
  encode_dir_entries = encode_list encode_dir_entry

  abbrev pub decode_dir_entries : List ℕ → Decoded (List DirEntry)
  decode_dir_entries = decode_list decode_dir_entry
