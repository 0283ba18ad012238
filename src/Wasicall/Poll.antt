-- ===== src/Wasicall/Poll.antt =====
-- internal/timemachine/wasicall/codec.go: Subscription and Event. The encoders panic on an event
-- type that they do not know: `none`.
pub mod RoundTrip
use timecraft.Common.{
  Bool, List, Option, if◌then◌else◌, length, none, some, ℕ, ◌%◌, ◌==◌, ◌^◌, ◌||◌,
}
use timecraft.Common.Result.{err, ok, ◌>>=◌}
use timecraft.Wasicall.Lists.{decode_list, encode_each}
use timecraft.Wasicall.Scalars.{
  decode_clock_id, decode_errno, decode_event_fd_read_write_flags, decode_event_type, decode_fd,
  decode_file_size, decode_subscription_clock_flags, decode_timestamp, decode_user_data,
  encode_clock_id, encode_errno, encode_event_fd_read_write_flags, encode_event_type, encode_fd,
  encode_file_size, encode_subscription_clock_flags, encode_timestamp, encode_user_data,
}
use timecraft.Wasicall.Wasi.{Errno, EventFdReadWriteFlags, EventType, FileSize, UserData, Wasi}
use timecraft.Wasicall.Words.{Decoded, encode_u32, invalid_event_type}

module _ ⦃w : Wasi⦄ where
  pub record Subscription : Type 0 where
    pub user_data : UserData
    pub event_type : EventType
    pub variant : w.Variant

  pub record EventFdReadWrite : Type 0 where
    pub nbytes : FileSize
    pub flags : EventFdReadWriteFlags

  pub record Event : Type 0 where
    pub user_data : UserData
    pub errno : Errno
    pub event_type : EventType
    pub fd_read_write : EventFdReadWrite

  abbrev same_type : EventType → EventType → Bool
  same_type t u = w.event_type.to_word t == w.event_type.to_word u

  -- case FDReadEvent, FDWriteEvent
  abbrev pub is_fd_event : EventType → Bool
  is_fd_event t = same_type t w.fd_read_event || same_type t w.fd_write_event

  -- case ClockEvent
  abbrev pub is_clock_event : EventType → Bool
  is_clock_event t = same_type t w.clock_event

  unfoldable pub encode_clock : List ℕ → w.Variant → List ℕ
  encode_clock buffer v =
      let c = w.get_clock v in
      let buffer = encode_clock_id buffer c.0 in
      let buffer = encode_timestamp buffer c.1 in
      let buffer = encode_timestamp buffer c.2 in encode_subscription_clock_flags buffer c.3

  unfoldable pub encode_subscription : List ℕ → Subscription → Option (List ℕ)
  encode_subscription buffer s =
      let buffer = encode_user_data buffer s.user_data in
      let buffer = encode_event_type buffer s.event_type in
      if is_fd_event s.event_type
      then some (encode_fd buffer (w.get_fd_read_write s.variant))
      else if is_clock_event s.event_type
      then some (encode_clock buffer s.variant)
      else none

  unfoldable pub decode_fd_variant : List ℕ → Decoded w.Variant
  decode_fd_variant buffer = do
    (fd, buffer) ← decode_fd buffer
    ok (w.set_fd_read_write fd w.zero_variant, buffer)

  unfoldable pub decode_clock_variant : List ℕ → Decoded w.Variant
  decode_clock_variant buffer = do
    (id, buffer) ← decode_clock_id buffer
    (precision, buffer) ← decode_timestamp buffer
    (timeout, buffer) ← decode_timestamp buffer
    (flags, buffer) ← decode_subscription_clock_flags buffer
    ok (w.set_clock (id, precision, timeout, flags) w.zero_variant, buffer)

  unfoldable pub decode_variant : EventType → List ℕ → Decoded w.Variant
  decode_variant t buffer =
      if is_fd_event t
      then decode_fd_variant buffer
      else if is_clock_event t
      then decode_clock_variant buffer
      else err invalid_event_type

  unfoldable pub decode_subscription : List ℕ → Decoded Subscription
  decode_subscription buffer = do
    (user_data, buffer) ← decode_user_data buffer
    (event_type, buffer) ← decode_event_type buffer
    (variant, buffer) ← decode_variant event_type buffer
    ok (record { user_data = user_data; event_type = event_type; variant = variant }, buffer)

  unfoldable pub encode_event : List ℕ → Event → Option (List ℕ)
  encode_event buffer e =
      let buffer = encode_user_data buffer e.user_data in
      let buffer = encode_errno buffer e.errno in
      let buffer = encode_event_type buffer e.event_type in
      if is_fd_event e.event_type
      then some (
          encode_event_fd_read_write_flags (encode_file_size buffer e.fd_read_write.nbytes)
            e.fd_read_write.flags)
      else if is_clock_event e.event_type
      then some buffer
      else none

  unfoldable pub decode_fd_read_write : List ℕ → Decoded EventFdReadWrite
  decode_fd_read_write buffer = do
    (nbytes, buffer) ← decode_file_size buffer
    (flags, buffer) ← decode_event_fd_read_write_flags buffer
    ok (record { nbytes = nbytes; flags = flags }, buffer)

  -- Of a clock event the structure keeps its zero value.
  abbrev pub zero_fd_read_write : EventFdReadWrite
  zero_fd_read_write = record {
    nbytes = w.file_size.of_word 0;
    flags = w.event_fd_read_write_flags.of_word 0;
  }

  unfoldable pub decode_event_body : EventType → List ℕ → Decoded EventFdReadWrite
  decode_event_body t buffer =
      if is_fd_event t
      then decode_fd_read_write buffer
      else if is_clock_event t
      then ok (zero_fd_read_write, buffer)
      else err invalid_event_type

  unfoldable pub decode_event : List ℕ → Decoded Event
  decode_event buffer = do
    (user_data, buffer) ← decode_user_data buffer
    (errno, buffer) ← decode_errno buffer
    (event_type, buffer) ← decode_event_type buffer
    (fd_read_write, buffer) ← decode_event_body event_type buffer
    ok (
      record {
        user_data = user_data;
        errno = errno;
        event_type = event_type;
        fd_read_write = fd_read_write;
      },
      buffer,
    )

  unfoldable pub encode_subscriptions : List ℕ → List Subscription → Option (List ℕ)
  unfolding encode_each
  encode_subscriptions buffer subscriptions =
      encode_each encode_subscription (encode_u32 buffer (length subscriptions % 2 ^ 32))
        subscriptions

  abbrev pub decode_subscriptions : List ℕ → Decoded (List Subscription)
  decode_subscriptions = decode_list decode_subscription

  unfoldable pub encode_events : List ℕ → List Event → Option (List ℕ)
  unfolding encode_each
  encode_events buffer events =
      encode_each encode_event (encode_u32 buffer (length events % 2 ^ 32)) events

  abbrev pub decode_events : List ℕ → Decoded (List Event)
  decode_events = decode_list decode_event
