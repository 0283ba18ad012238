-- ===== src/Wasicall/Stats/RoundTrip.antt =====
-- The structures of `Stats` as codecs.
use timecraft.Common.{List, refl, ℕ, ◌++◌, ◌<◌, ◌^◌, ◌≡◌}
use timecraft.Common.Result.{ok}
use timecraft.Wasicall.Lists.{encode_list-append, list_bytes}
use timecraft.Wasicall.Stats.{
  DirEntry, FdStat, FileStat, PreStat, decode_dir_entry, decode_fd_stat, decode_file_stat,
  decode_pre_stat, encode_dir_entries, encode_dir_entry, encode_fd_stat, encode_file_stat,
  encode_pre_stat,
}
use timecraft.Wasicall.Wasi.{Wasi}
use timecraft.Wasicall.Words.{le_bytes}
use timecraft.Wasicall.Words.RoundTrip.{
  Codec, Fits, appended, bytes_codec, read_then, scalar32, scalar64, sized_bytes, u32_codec,
}

module _ ⦃w : Wasi⦄ where
  pub pre_stat_bytes : PreStat → List ℕ
  pre_stat_bytes stat =
      le_bytes 4 (w.pre_open_type.to_word stat.kind) ++ le_bytes 4 stat.name_length

  pub encode_pre_stat-append :
      (buffer : List ℕ) (stat : PreStat)
      → encode_pre_stat buffer stat ≡ buffer ++ pre_stat_bytes stat
  unfolding encode_pre_stat pre_stat_bytes
  encode_pre_stat-append buffer stat = simp appended

  pub pre_stat_lem :
      (stat : PreStat) (rest : List ℕ)
      → stat.name_length < 2 ^ 32
      → Fits (pre_stat_bytes stat ++ rest)
      → decode_pre_stat (pre_stat_bytes stat ++ rest) ≡ ok (stat, rest)
  unfolding decode_pre_stat pre_stat_bytes
  pre_stat_lem stat rest short fits =
      let fits' = simp appended at fits in
      simp appended (
        read_then (scalar32 w.pre_open_type) stat.kind _ tt fits'
          λ fits. read_then u32_codec stat.name_length _ short fits λ fits. refl)

  abbrev pub pre_stat_codec : Codec PreStat
  pre_stat_codec = record {
    write = pre_stat_bytes;
    read = decode_pre_stat;
    IsValid = λ stat. stat.name_length < 2 ^ 32;
    read-write = pre_stat_lem;
  }

  pub fd_stat_bytes : FdStat → List ℕ
  fd_stat_bytes stat =
      le_bytes 4 (w.file_type.to_word stat.file_type)
      ++ (le_bytes 4 (w.fd_flags.to_word stat.flags)
          ++ (le_bytes 8 (w.rights.to_word stat.rights_base)
              ++ le_bytes 8 (w.rights.to_word stat.rights_inheriting)))

  pub encode_fd_stat-append :
      (buffer : List ℕ) (stat : FdStat) → encode_fd_stat buffer stat ≡ buffer ++ fd_stat_bytes stat
  unfolding encode_fd_stat fd_stat_bytes
  encode_fd_stat-append buffer stat = simp appended

  pub fd_stat_lem :
      (stat : FdStat) (rest : List ℕ)
      → Unit {0}
      → Fits (fd_stat_bytes stat ++ rest)
      → decode_fd_stat (fd_stat_bytes stat ++ rest) ≡ ok (stat, rest)
  unfolding decode_fd_stat fd_stat_bytes
  fd_stat_lem stat rest valid fits =
      let fits' = simp appended at fits in
      simp appended (
        read_then (scalar32 w.file_type) stat.file_type _ tt fits' λ fits.
          read_then (scalar32 w.fd_flags) stat.flags _ tt fits λ fits.
            read_then (scalar64 w.rights) stat.rights_base _ tt fits
              λ fits. read_then (scalar64 w.rights) stat.rights_inheriting _ tt fits λ fits. refl)

  abbrev pub fd_stat_codec : Codec FdStat
  fd_stat_codec = record {
    write = fd_stat_bytes;
    read = decode_fd_stat;
    IsValid = λ stat. Unit;
    read-write = fd_stat_lem;
  }

  pub file_stat_bytes : FileStat → List ℕ
  file_stat_bytes stat =
      le_bytes 8 (w.device.to_word stat.device)
      ++ (le_bytes 8 (w.inode.to_word stat.inode)
          ++ (le_bytes 4 (w.file_type.to_word stat.file_type)
              ++ (le_bytes 8 (w.link_count.to_word stat.nlink)
                  ++ (le_bytes 8 (w.file_size.to_word stat.size)
                      ++ (le_bytes 8 (w.timestamp.to_word stat.access_time)
                          ++ (le_bytes 8 (w.timestamp.to_word stat.modify_time)
                              ++ le_bytes 8 (w.timestamp.to_word stat.change_time)))))))

  pub encode_file_stat-append :
      (buffer : List ℕ) (stat : FileStat)
      → encode_file_stat buffer stat ≡ buffer ++ file_stat_bytes stat
  unfolding encode_file_stat file_stat_bytes
  encode_file_stat-append buffer stat = simp appended

  pub file_stat_lem :
      (stat : FileStat) (rest : List ℕ)
      → Unit {0}
      → Fits (file_stat_bytes stat ++ rest)
      → decode_file_stat (file_stat_bytes stat ++ rest) ≡ ok (stat, rest)
  unfolding decode_file_stat file_stat_bytes
  file_stat_lem stat rest valid fits =
      let fits' = simp appended at fits in
      simp appended (
        read_then (scalar64 w.device) stat.device _ tt fits' λ fits.
          read_then (scalar64 w.inode) stat.inode _ tt fits λ fits.
            read_then (scalar32 w.file_type) stat.file_type _ tt fits λ fits.
              read_then (scalar64 w.link_count) stat.nlink _ tt fits λ fits.
                read_then (scalar64 w.file_size) stat.size _ tt fits λ fits.
                  read_then (scalar64 w.timestamp) stat.access_time _ tt fits λ fits.
                    read_then (scalar64 w.timestamp) stat.modify_time _ tt fits λ fits.
                      read_then (scalar64 w.timestamp) stat.change_time _ tt fits λ fits. refl)

  abbrev pub file_stat_codec : Codec FileStat
  file_stat_codec = record {
    write = file_stat_bytes;
    read = decode_file_stat;
    IsValid = λ stat. Unit;
    read-write = file_stat_lem;
  }

  pub dir_entry_bytes : DirEntry → List ℕ
  dir_entry_bytes d =
      le_bytes 8 (w.dir_cookie.to_word d.next)
      ++ (le_bytes 8 (w.inode.to_word d.inode)
          ++ (le_bytes 4 (w.file_type.to_word d.kind) ++ sized_bytes d.name))

  encode_dir_entry-append :
      (buffer : List ℕ) (d : DirEntry) → encode_dir_entry buffer d ≡ buffer ++ dir_entry_bytes d
  unfolding encode_dir_entry dir_entry_bytes
  encode_dir_entry-append buffer d = simp appended

  pub dir_entry_lem :
      (d : DirEntry) (rest : List ℕ)
      → Unit {0}
      → Fits (dir_entry_bytes d ++ rest)
      → decode_dir_entry (dir_entry_bytes d ++ rest) ≡ ok (d, rest)
  unfolding decode_dir_entry dir_entry_bytes
  dir_entry_lem d rest valid fits =
      let fits' = simp appended at fits in
      simp appended (
        read_then (scalar64 w.dir_cookie) d.next _ tt fits' λ fits.
          read_then (scalar64 w.inode) d.inode _ tt fits λ fits.
            read_then (scalar32 w.file_type) d.kind _ tt fits
              λ fits. read_then bytes_codec d.name _ tt fits λ fits. refl)

  abbrev pub dir_entry_codec : Codec DirEntry
  dir_entry_codec = record {
    write = dir_entry_bytes;
    read = decode_dir_entry;
    IsValid = λ d. Unit;
    read-write = dir_entry_lem;
  }

  pub encode_dir_entries-append :
      (buffer : List ℕ) (entries : List DirEntry)
      → encode_dir_entries buffer entries ≡ buffer ++ list_bytes dir_entry_codec entries
  encode_dir_entries-append =
      encode_list-append dir_entry_codec encode_dir_entry encode_dir_entry-append
