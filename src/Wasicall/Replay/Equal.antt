-- ===== src/Wasicall/Replay/Equal.antt =====
-- internal/timemachine/wasicall/replay.go: the comparisons of a call's parameters with the recorded
-- ones.
use timecraft.Common.{
  Bool, List, [], false, if◌then◌else◌, leb, length, not, true, ℕ, ◌&&◌, ◌==◌, ◌∷◌,
}
use timecraft.Common.Int.{negsuc, pos, ℤ}
use timecraft.Ipam.Ipv4.{prefix}
use timecraft.Wasicall.Poll.{Subscription, is_clock_event, is_fd_event}
use timecraft.Wasicall.Sockets.{
  AddressInfo, SocketAddress, SocketOptionValue, bytes_value, inet4_address, inet6_address,
  int_value, no_address, no_value, unix_address,
}
use timecraft.Wasicall.System.{same}
use timecraft.Wasicall.Wasi.{Wasi}

-- bytes.Equal, and == on strings.
unfoldable pub same_bytes : List ℕ → List ℕ → Bool
same_bytes [] [] = true
same_bytes [] (b ∷ ys) = false
same_bytes (a ∷ xs) [] = false
same_bytes (a ∷ xs) (b ∷ ys) = (a == b) && same_bytes xs ys

abbrev pub same_int : ℤ → ℤ → Bool
same_int (pos m) (pos n) = m == n
same_int (negsuc m) (negsuc n) = m == n
same_int (pos m) (negsuc n) = false
same_int (negsuc m) (pos n) = false

unfoldable pub equal_iovecs : List (List ℕ) → List (List ℕ) → Bool
unfolding same_bytes
equal_iovecs [] [] = true
equal_iovecs [] (b ∷ ys) = false
equal_iovecs (a ∷ xs) [] = false
equal_iovecs (a ∷ xs) (b ∷ ys) = same_bytes a b && equal_iovecs xs ys

-- Where all but the last buffer of the prefix are compared, both lists go on; `size` is not used.
unfoldable pub equal_iovecs_shape_prefix : List (List ℕ) → List (List ℕ) → ℕ → Bool
equal_iovecs_shape_prefix iovecs [] size = true
equal_iovecs_shape_prefix [] (p ∷ prefix) size = false
equal_iovecs_shape_prefix (v ∷ iovecs) (p ∷ []) size = leb (length p) (length v)
equal_iovecs_shape_prefix (v ∷ iovecs) (p ∷ q ∷ prefix) size =
    (length v == length p) && equal_iovecs_shape_prefix iovecs (q ∷ prefix) size

module _ ⦃w : Wasi⦄ where
  -- == on what GetClock gives.
  abbrev pub same_clock : w.Variant → w.Variant → Bool
  same_clock u v =
      let a = w.get_clock u in
      let b = w.get_clock v in
      same w.clock_id a.0 b.0
      && same w.timestamp a.1 b.1
      && same w.timestamp a.2 b.2
      && same w.subscription_clock_flags a.3 b.3

  unfoldable pub equal_subscription : Subscription → Subscription → Bool
  equal_subscription a b =
      if not (same w.event_type a.event_type b.event_type)
      then false
      else if not (same w.user_data a.user_data b.user_data)
      then false
      else if is_clock_event a.event_type
      then same_clock a.variant b.variant
      else if is_fd_event a.event_type
      then same w.fd (w.get_fd_read_write a.variant) (w.get_fd_read_write b.variant)
      else false

  unfoldable pub equal_subscriptions : List Subscription → List Subscription → Bool
  unfolding equal_subscription
  equal_subscriptions [] [] = true
  equal_subscriptions [] (b ∷ ys) = false
  equal_subscriptions (a ∷ xs) [] = false
  equal_subscriptions (a ∷ xs) (b ∷ ys) = equal_subscription a b && equal_subscriptions xs ys

  unfoldable pub equal_socket_address : SocketAddress → SocketAddress → Bool
  unfolding same_bytes
  equal_socket_address no_address no_address = true
  equal_socket_address (inet4_address port addr) (inet4_address port' addr') =
      same_int port port' && same_bytes addr addr'
  equal_socket_address (inet6_address port addr) (inet6_address port' addr') =
      same_int port port' && same_bytes addr addr'
  equal_socket_address (unix_address name) (unix_address name') = same_bytes name name'
  equal_socket_address _ _ = false

  unfoldable pub equal_socket_option_value : SocketOptionValue → SocketOptionValue → Bool
  unfolding same_bytes
  equal_socket_option_value no_value no_value = true
  equal_socket_option_value (int_value n) (int_value n') = same_int n n'
  equal_socket_option_value (bytes_value b) (bytes_value b') = same_bytes b b'
  equal_socket_option_value _ _ = false

  -- == on two interfaces that hold pointers, one of them to a value that was just decoded.
  abbrev pub same_pointer : SocketAddress → SocketAddress → Bool
  same_pointer no_address no_address = true
  same_pointer _ _ = false

  -- hints != recordHints compares the structures field by field.
  unfoldable pub same_hints : AddressInfo → AddressInfo → Bool
  unfolding same_bytes
  same_hints a b =
      same w.address_info_flags a.flags b.flags
      && same w.protocol_family a.family b.family
      && same w.socket_type a.socket_type b.socket_type
      && same w.protocol a.protocol b.protocol
      && same_pointer a.address b.address
      && same_bytes a.canonical_name b.canonical_name
