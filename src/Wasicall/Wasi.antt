-- ===== src/Wasicall/Wasi.antt =====
-- The types and constants of package wasi-go that the system call codec reads and writes. Their
-- source is not in the repository: an integer type is known by its conversions to and from uint32
-- or uint64, a structure by the fields that the codec names.
use timecraft.Common.{ℕ, ◌^◌, ◌<◌, ◌≡◌, ◌≢◌}

-- An integer type that Go converts to an unsigned word below `bound` and back. The laws say that
-- the word is wide enough for the type, and that zero stays zero.
pub record Scalar (bound : ℕ) : Type 1 where
  pub Carrier : Type 0
  pub to_word : Carrier → ℕ
  pub of_word : ℕ → Carrier
  pub to_word-lt : (x : Carrier) → to_word x < bound
  pub of_word-to_word : (x : Carrier) → of_word (to_word x) ≡ x
  pub to_word-zero : to_word (of_word 0) ≡ 0

abbrev pub Scalar32 : Type 1
Scalar32 = Scalar (2 ^ 32)

abbrev pub Scalar64 : Type 1
Scalar64 = Scalar (2 ^ 64)

pub record Wasi : Type 1 where
  pub errno : Scalar32
  pub fd : Scalar32
  pub clock_id : Scalar32
  pub file_type : Scalar32
  pub fd_flags : Scalar32
  pub fst_flags : Scalar32
  pub advice : Scalar32
  pub exit_code : Scalar32
  pub signal : Scalar32
  pub pre_open_type : Scalar32
  pub event_type : Scalar32
  pub subscription_clock_flags : Scalar32
  pub event_fd_read_write_flags : Scalar32
  pub whence : Scalar32
  pub lookup_flags : Scalar32
  pub open_flags : Scalar32
  pub ri_flags : Scalar32
  pub ro_flags : Scalar32
  pub si_flags : Scalar32
  pub sd_flags : Scalar32
  pub protocol_family : Scalar32
  pub socket_type : Scalar32
  pub protocol : Scalar32
  pub address_info_flags : Scalar32
  pub timestamp : Scalar64
  pub rights : Scalar64
  pub file_size : Scalar64
  pub device : Scalar64
  pub inode : Scalar64
  pub link_count : Scalar64
  pub user_data : Scalar64
  pub dir_cookie : Scalar64
  pub file_delta : Scalar64
  pub socket_option : Scalar64
  pub esuccess : errno.Carrier
  pub enosys : errno.Carrier
  pub clock_event : event_type.Carrier
  pub fd_read_event : event_type.Carrier
  pub fd_write_event : event_type.Carrier
  pub inet_family : protocol_family.Carrier
  pub inet6_family : protocol_family.Carrier
  pub unix_family : protocol_family.Carrier
  pub inet-ne-zero : protocol_family.to_word inet_family ≢ 0
  pub inet6-ne-zero : protocol_family.to_word inet6_family ≢ 0
  pub unix-ne-zero : protocol_family.to_word unix_family ≢ 0
  pub inet-ne-inet6 : protocol_family.to_word inet_family ≢ protocol_family.to_word inet6_family
  pub inet-ne-unix : protocol_family.to_word inet_family ≢ protocol_family.to_word unix_family
  pub inet6-ne-unix : protocol_family.to_word inet6_family ≢ protocol_family.to_word unix_family
  -- The union inside a subscription, behind its getters and setters.
  pub Variant : Type 0
  pub zero_variant : Variant
  pub get_fd_read_write : Variant → fd.Carrier
  pub set_fd_read_write : fd.Carrier → Variant → Variant
  pub get_clock :
      Variant
      → clock_id.Carrier × timestamp.Carrier × timestamp.Carrier × subscription_clock_flags.Carrier
  pub set_clock :
      clock_id.Carrier × timestamp.Carrier × timestamp.Carrier × subscription_clock_flags.Carrier
      → Variant
      → Variant

module _ ⦃w : Wasi⦄ where
  abbrev pub Errno : Type 0
  Errno = w.errno.Carrier

  abbrev pub Fd : Type 0
  Fd = w.fd.Carrier

  abbrev pub ClockId : Type 0
  ClockId = w.clock_id.Carrier

  abbrev pub FileType : Type 0
  FileType = w.file_type.Carrier

  abbrev pub FdFlags : Type 0
  FdFlags = w.fd_flags.Carrier

  abbrev pub FstFlags : Type 0
  FstFlags = w.fst_flags.Carrier

  abbrev pub Advice : Type 0
  Advice = w.advice.Carrier

  abbrev pub ExitCode : Type 0
  ExitCode = w.exit_code.Carrier

  abbrev pub Signal : Type 0
  Signal = w.signal.Carrier

  abbrev pub PreOpenType : Type 0
  PreOpenType = w.pre_open_type.Carrier

  abbrev pub EventType : Type 0
  EventType = w.event_type.Carrier

  abbrev pub SubscriptionClockFlags : Type 0
  SubscriptionClockFlags = w.subscription_clock_flags.Carrier

  abbrev pub EventFdReadWriteFlags : Type 0
  EventFdReadWriteFlags = w.event_fd_read_write_flags.Carrier

  abbrev pub Whence : Type 0
  Whence = w.whence.Carrier

  abbrev pub LookupFlags : Type 0
  LookupFlags = w.lookup_flags.Carrier

  abbrev pub OpenFlags : Type 0
  OpenFlags = w.open_flags.Carrier

  abbrev pub RiFlags : Type 0
  RiFlags = w.ri_flags.Carrier

  abbrev pub RoFlags : Type 0
  RoFlags = w.ro_flags.Carrier

  abbrev pub SiFlags : Type 0
  SiFlags = w.si_flags.Carrier

  abbrev pub SdFlags : Type 0
  SdFlags = w.sd_flags.Carrier

  abbrev pub ProtocolFamily : Type 0
  ProtocolFamily = w.protocol_family.Carrier

  abbrev pub SocketType : Type 0
  SocketType = w.socket_type.Carrier

  abbrev pub Protocol : Type 0
  Protocol = w.protocol.Carrier

  abbrev pub AddressInfoFlags : Type 0
  AddressInfoFlags = w.address_info_flags.Carrier

  abbrev pub Timestamp : Type 0
  Timestamp = w.timestamp.Carrier

  abbrev pub Rights : Type 0
  Rights = w.rights.Carrier

  abbrev pub FileSize : Type 0
  FileSize = w.file_size.Carrier

  abbrev pub Device : Type 0
  Device = w.device.Carrier

  abbrev pub Inode : Type 0
  Inode = w.inode.Carrier

  abbrev pub LinkCount : Type 0
  LinkCount = w.link_count.Carrier

  abbrev pub UserData : Type 0
  UserData = w.user_data.Carrier

  abbrev pub DirCookie : Type 0
  DirCookie = w.dir_cookie.Carrier

  abbrev pub FileDelta : Type 0
  FileDelta = w.file_delta.Carrier

  abbrev pub SocketOption : Type 0
  SocketOption = w.socket_option.Carrier
