-- ===== src/Wasicall/Scalars.antt =====
-- internal/timemachine/wasicall/codec.go: the encoders and decoders of the integer types of
-- wasi-go. Size is WASI's unsigned 32-bit size, so it is a plain number.
use timecraft.Common.{ℕ, List}
use timecraft.Wasicall.Wasi.{
  Wasi, Errno, Fd, ClockId, FileType, FdFlags, FstFlags, Advice, ExitCode, Signal, PreOpenType,
  EventType, SubscriptionClockFlags, EventFdReadWriteFlags, Whence, LookupFlags, OpenFlags, RiFlags,
  RoFlags, SiFlags, SdFlags, ProtocolFamily, SocketType, Protocol, AddressInfoFlags, Timestamp,
  Rights, FileSize, Device, Inode, LinkCount, UserData, DirCookie, FileDelta, SocketOption,
}
use timecraft.Wasicall.Words.{
  Decoded, encode_u32, decode_u32, encode_scalar32, decode_scalar32, encode_scalar64,
  decode_scalar64,
}

abbrev pub encode_size : List ℕ → ℕ → List ℕ
encode_size = encode_u32

abbrev pub decode_size : List ℕ → Decoded ℕ
decode_size = decode_u32

module _ ⦃w : Wasi⦄ where
  abbrev pub encode_errno : List ℕ → Errno → List ℕ
  encode_errno = encode_scalar32 w.errno

  abbrev pub decode_errno : List ℕ → Decoded Errno
  decode_errno = decode_scalar32 w.errno

  abbrev pub encode_fd : List ℕ → Fd → List ℕ
  encode_fd = encode_scalar32 w.fd

  abbrev pub decode_fd : List ℕ → Decoded Fd
  decode_fd = decode_scalar32 w.fd

  abbrev pub encode_clock_id : List ℕ → ClockId → List ℕ
  encode_clock_id = encode_scalar32 w.clock_id

  abbrev pub decode_clock_id : List ℕ → Decoded ClockId
  decode_clock_id = decode_scalar32 w.clock_id

  abbrev pub encode_file_type : List ℕ → FileType → List ℕ
  encode_file_type = encode_scalar32 w.file_type

  abbrev pub decode_file_type : List ℕ → Decoded FileType
  decode_file_type = decode_scalar32 w.file_type

  abbrev pub encode_fd_flags : List ℕ → FdFlags → List ℕ
  encode_fd_flags = encode_scalar32 w.fd_flags

  abbrev pub decode_fd_flags : List ℕ → Decoded FdFlags
  decode_fd_flags = decode_scalar32 w.fd_flags

  abbrev pub encode_fst_flags : List ℕ → FstFlags → List ℕ
  encode_fst_flags = encode_scalar32 w.fst_flags

  abbrev pub decode_fst_flags : List ℕ → Decoded FstFlags
  decode_fst_flags = decode_scalar32 w.fst_flags

  abbrev pub encode_advice : List ℕ → Advice → List ℕ
  encode_advice = encode_scalar32 w.advice

  abbrev pub decode_advice : List ℕ → Decoded Advice
  decode_advice = decode_scalar32 w.advice

  abbrev pub encode_exit_code : List ℕ → ExitCode → List ℕ
  encode_exit_code = encode_scalar32 w.exit_code

  abbrev pub decode_exit_code : List ℕ → Decoded ExitCode
  decode_exit_code = decode_scalar32 w.exit_code

  abbrev pub encode_signal : List ℕ → Signal → List ℕ
  encode_signal = encode_scalar32 w.signal

  abbrev pub decode_signal : List ℕ → Decoded Signal
  decode_signal = decode_scalar32 w.signal

  abbrev pub encode_pre_open_type : List ℕ → PreOpenType → List ℕ
  encode_pre_open_type = encode_scalar32 w.pre_open_type

  abbrev pub decode_pre_open_type : List ℕ → Decoded PreOpenType
  decode_pre_open_type = decode_scalar32 w.pre_open_type

  abbrev pub encode_event_type : List ℕ → EventType → List ℕ
  encode_event_type = encode_scalar32 w.event_type

  abbrev pub decode_event_type : List ℕ → Decoded EventType
  decode_event_type = decode_scalar32 w.event_type

  abbrev pub encode_subscription_clock_flags : List ℕ → SubscriptionClockFlags → List ℕ
  encode_subscription_clock_flags = encode_scalar32 w.subscription_clock_flags

  abbrev pub decode_subscription_clock_flags : List ℕ → Decoded SubscriptionClockFlags
  decode_subscription_clock_flags = decode_scalar32 w.subscription_clock_flags

  abbrev pub encode_event_fd_read_write_flags : List ℕ → EventFdReadWriteFlags → List ℕ
  encode_event_fd_read_write_flags = encode_scalar32 w.event_fd_read_write_flags

  abbrev pub decode_event_fd_read_write_flags : List ℕ → Decoded EventFdReadWriteFlags
  decode_event_fd_read_write_flags = decode_scalar32 w.event_fd_read_write_flags

  abbrev pub encode_whence : List ℕ → Whence → List ℕ
  encode_whence = encode_scalar32 w.whence

  abbrev pub decode_whence : List ℕ → Decoded Whence
  decode_whence = decode_scalar32 w.whence

  abbrev pub encode_lookup_flags : List ℕ → LookupFlags → List ℕ
  encode_lookup_flags = encode_scalar32 w.lookup_flags

  abbrev pub decode_lookup_flags : List ℕ → Decoded LookupFlags
  decode_lookup_flags = decode_scalar32 w.lookup_flags

  abbrev pub encode_open_flags : List ℕ → OpenFlags → List ℕ
  encode_open_flags = encode_scalar32 w.open_flags

  abbrev pub decode_open_flags : List ℕ → Decoded OpenFlags
  decode_open_flags = decode_scalar32 w.open_flags

  abbrev pub encode_ri_flags : List ℕ → RiFlags → List ℕ
  encode_ri_flags = encode_scalar32 w.ri_flags

  abbrev pub decode_ri_flags : List ℕ → Decoded RiFlags
  decode_ri_flags = decode_scalar32 w.ri_flags

  abbrev pub encode_ro_flags : List ℕ → RoFlags → List ℕ
  encode_ro_flags = encode_scalar32 w.ro_flags

  abbrev pub decode_ro_flags : List ℕ → Decoded RoFlags
  decode_ro_flags = decode_scalar32 w.ro_flags

  abbrev pub encode_si_flags : List ℕ → SiFlags → List ℕ
  encode_si_flags = encode_scalar32 w.si_flags

  abbrev pub decode_si_flags : List ℕ → Decoded SiFlags
  decode_si_flags = decode_scalar32 w.si_flags

  abbrev pub encode_sd_flags : List ℕ → SdFlags → List ℕ
  encode_sd_flags = encode_scalar32 w.sd_flags

  abbrev pub decode_sd_flags : List ℕ → Decoded SdFlags
  decode_sd_flags = decode_scalar32 w.sd_flags

  abbrev pub encode_protocol_family : List ℕ → ProtocolFamily → List ℕ
  encode_protocol_family = encode_scalar32 w.protocol_family

  abbrev pub decode_protocol_family : List ℕ → Decoded ProtocolFamily
  decode_protocol_family = decode_scalar32 w.protocol_family

  abbrev pub encode_socket_type : List ℕ → SocketType → List ℕ
  encode_socket_type = encode_scalar32 w.socket_type

  abbrev pub decode_socket_type : List ℕ → Decoded SocketType
  decode_socket_type = decode_scalar32 w.socket_type

  abbrev pub encode_protocol : List ℕ → Protocol → List ℕ
  encode_protocol = encode_scalar32 w.protocol

  abbrev pub decode_protocol : List ℕ → Decoded Protocol
  decode_protocol = decode_scalar32 w.protocol

  abbrev pub encode_address_info_flags : List ℕ → AddressInfoFlags → List ℕ
  encode_address_info_flags = encode_scalar32 w.address_info_flags

  abbrev pub decode_address_info_flags : List ℕ → Decoded AddressInfoFlags
  decode_address_info_flags = decode_scalar32 w.address_info_flags

  abbrev pub encode_timestamp : List ℕ → Timestamp → List ℕ
  encode_timestamp = encode_scalar64 w.timestamp

  abbrev pub decode_timestamp : List ℕ → Decoded Timestamp
  decode_timestamp = decode_scalar64 w.timestamp

  abbrev pub encode_rights : List ℕ → Rights → List ℕ
  encode_rights = encode_scalar64 w.rights

  abbrev pub decode_rights : List ℕ → Decoded Rights
  decode_rights = decode_scalar64 w.rights

  abbrev pub encode_file_size : List ℕ → FileSize → List ℕ
  encode_file_size = encode_scalar64 w.file_size

  abbrev pub decode_file_size : List ℕ → Decoded FileSize
  decode_file_size = decode_scalar64 w.file_size

  abbrev pub encode_device : List ℕ → Device → List ℕ
  encode_device = encode_scalar64 w.device

  abbrev pub decode_device : List ℕ → Decoded Device
  decode_device = decode_scalar64 w.device

  abbrev pub encode_inode : List ℕ → Inode → List ℕ
  encode_inode = encode_scalar64 w.inode

  abbrev pub decode_inode : List ℕ → Decoded Inode
  decode_inode = decode_scalar64 w.inode

  abbrev pub encode_link_count : List ℕ → LinkCount → List ℕ
  encode_link_count = encode_scalar64 w.link_count

  abbrev pub decode_link_count : List ℕ → Decoded LinkCount
  decode_link_count = decode_scalar64 w.link_count

  abbrev pub encode_user_data : List ℕ → UserData → List ℕ
  encode_user_data = encode_scalar64 w.user_data

  abbrev pub decode_user_data : List ℕ → Decoded UserData
  decode_user_data = decode_scalar64 w.user_data

  abbrev pub encode_dir_cookie : List ℕ → DirCookie → List ℕ
  encode_dir_cookie = encode_scalar64 w.dir_cookie

  abbrev pub decode_dir_cookie : List ℕ → Decoded DirCookie
  decode_dir_cookie = decode_scalar64 w.dir_cookie

  abbrev pub encode_file_delta : List ℕ → FileDelta → List ℕ
  encode_file_delta = encode_scalar64 w.file_delta

  abbrev pub decode_file_delta : List ℕ → Decoded FileDelta
  decode_file_delta = decode_scalar64 w.file_delta

  abbrev pub encode_socket_option : List ℕ → SocketOption → List ℕ
  encode_socket_option = encode_scalar64 w.socket_option

  abbrev pub decode_socket_option : List ℕ → Decoded SocketOption
  decode_socket_option = decode_scalar64 w.socket_option
