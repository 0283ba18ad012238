-- ===== src/Wasicall/Poll/RoundTrip.antt =====
-- The values of `Poll` as codecs.
use timecraft.Common.{
  All, List, [], ap, append-nil, false, if◌then◌else◌, inl, inr, refl, some, sym, true, ℕ, ◌++◌,
  ◌∙◌, ◌≡◌, ◌⊎◌,
}
use timecraft.Common.Result.{ok}
use timecraft.Wasicall.Lists.{encode_each-append, list_bytes}
use timecraft.Wasicall.Poll.{
  Event, EventFdReadWrite, Subscription, decode_clock_variant, decode_event, decode_event_body,
  decode_fd_read_write, decode_fd_variant, decode_subscription, decode_variant, encode_clock,
  encode_event, encode_events, encode_subscription, encode_subscriptions, is_clock_event,
  is_fd_event, zero_fd_read_write,
}
use timecraft.Wasicall.Wasi.{Wasi}
use timecraft.Wasicall.Words.{le_bytes}
use timecraft.Wasicall.Words.RoundTrip.{Codec, Fits, appended, read_then, scalar32, scalar64}

module _ ⦃w : Wasi⦄ where
  -- A subscription to a known event, whose union holds what its setter put there and nothing else.
  abbrev pub IsSubscription : Subscription → Type 0
  IsSubscription s =
      ((is_fd_event s.event_type ≡ true)
        × (w.set_fd_read_write (w.get_fd_read_write s.variant) w.zero_variant ≡ s.variant))
      ⊎ ((is_fd_event s.event_type ≡ false)
          × (is_clock_event s.event_type ≡ true)
          × (w.set_clock (w.get_clock s.variant) w.zero_variant ≡ s.variant))

  clock_bytes : w.Variant → List ℕ
  clock_bytes v =
      let c = w.get_clock v in
      le_bytes 4 (w.clock_id.to_word c.0)
      ++ (le_bytes 8 (w.timestamp.to_word c.1)
          ++ (le_bytes 8 (w.timestamp.to_word c.2)
              ++ le_bytes 4 (w.subscription_clock_flags.to_word c.3)))

  encode_clock-append :
      (buffer : List ℕ) (v : w.Variant) → encode_clock buffer v ≡ buffer ++ clock_bytes v
  unfolding encode_clock clock_bytes
  encode_clock-append buffer v = simp appended

  clock_lem :
      (v : w.Variant) (rest : List ℕ)
      → w.set_clock (w.get_clock v) w.zero_variant ≡ v
      → Fits (clock_bytes v ++ rest)
      → decode_clock_variant (clock_bytes v ++ rest) ≡ ok (v, rest)
  unfolding decode_clock_variant clock_bytes
  clock_lem v rest canonical fits =
      let fits' = simp appended at fits in
      simp appended (
        read_then (scalar32 w.clock_id) (w.get_clock v).0 _ tt fits' λ fits.
          read_then (scalar64 w.timestamp) (w.get_clock v).1 _ tt fits λ fits.
            read_then (scalar64 w.timestamp) (w.get_clock v).2 _ tt fits λ fits.
              read_then (scalar32 w.subscription_clock_flags) (w.get_clock v).3 _ tt fits
                λ fits. ap (λ (u : w.Variant). ok (u, rest)) canonical)

  variant_bytes : Subscription → List ℕ
  variant_bytes s =
      if is_fd_event s.event_type
      then le_bytes 4 (w.fd.to_word (w.get_fd_read_write s.variant))
      else clock_bytes s.variant

  pub subscription_bytes : Subscription → List ℕ
  subscription_bytes s =
      le_bytes 8 (w.user_data.to_word s.user_data)
      ++ (le_bytes 4 (w.event_type.to_word s.event_type) ++ variant_bytes s)

  encode_subscription-append :
      (buffer : List ℕ) (s : Subscription)
      → IsSubscription s
      → encode_subscription buffer s ≡ some (buffer ++ subscription_bytes s)
  unfolding encode_subscription subscription_bytes variant_bytes
  encode_subscription-append buffer s (inl (fd, canonical)) = rw fd (simp appended)
  encode_subscription-append buffer s (inr (other, clock, canonical)) =
      rw (other, clock) (simp (appended, encode_clock-append))

  variant_lem :
      (s : Subscription) (rest : List ℕ)
      → IsSubscription s
      → Fits (variant_bytes s ++ rest)
      → decode_variant s.event_type (variant_bytes s ++ rest) ≡ ok (s.variant, rest)
  unfolding decode_variant decode_fd_variant variant_bytes
  variant_lem s rest (inl (fd, canonical)) fits =
      let fits' = rw fd at fits in
      rw fd (
        read_then (scalar32 w.fd) (w.get_fd_read_write s.variant) _ tt fits'
          λ fits. ap (λ (u : w.Variant). ok (u, rest)) canonical)
  variant_lem s rest (inr (other, clock, canonical)) fits =
      let fits' = rw other at fits in rw (other, clock) (clock_lem s.variant rest canonical fits')

  pub subscription_lem :
      (s : Subscription) (rest : List ℕ)
      → IsSubscription s
      → Fits (subscription_bytes s ++ rest)
      → decode_subscription (subscription_bytes s ++ rest) ≡ ok (s, rest)
  unfolding decode_subscription subscription_bytes
  subscription_lem s rest valid fits =
      let fits' = simp appended at fits in
      simp appended (
        read_then (scalar64 w.user_data) s.user_data _ tt fits' λ fits.
          read_then (scalar32 w.event_type) s.event_type _ tt fits
            λ fits. rw (variant_lem s rest valid fits))

  abbrev pub subscription_codec : Codec Subscription
  subscription_codec = record {
    write = subscription_bytes;
    read = decode_subscription;
    IsValid = IsSubscription;
    read-write = subscription_lem;
  }

  -- An event of a known type; a clock event carries no transfer.
  abbrev pub IsEvent : Event → Type 0
  IsEvent e =
      (is_fd_event e.event_type ≡ true)
      ⊎ ((is_fd_event e.event_type ≡ false)
          × (is_clock_event e.event_type ≡ true)
          × (e.fd_read_write ≡ zero_fd_read_write))

  body_bytes : Event → List ℕ
  body_bytes e =
      if is_fd_event e.event_type
      then le_bytes 8 (w.file_size.to_word e.fd_read_write.nbytes)
        ++ le_bytes 4 (w.event_fd_read_write_flags.to_word e.fd_read_write.flags)
      else []

  pub event_bytes : Event → List ℕ
  event_bytes e =
      le_bytes 8 (w.user_data.to_word e.user_data)
      ++ (le_bytes 4 (w.errno.to_word e.errno)
          ++ (le_bytes 4 (w.event_type.to_word e.event_type) ++ body_bytes e))

  encode_event-append :
      (buffer : List ℕ) (e : Event)
      → IsEvent e
      → encode_event buffer e ≡ some (buffer ++ event_bytes e)
  unfolding encode_event event_bytes body_bytes
  encode_event-append buffer e (inl fd) = rw fd (simp appended)
  encode_event-append buffer e (inr (other, clock, empty)) =
      rw (other, clock) (simp (appended, append-nil))

  body_lem :
      (e : Event) (rest : List ℕ)
      → IsEvent e
      → Fits (body_bytes e ++ rest)
      → decode_event_body e.event_type (body_bytes e ++ rest) ≡ ok (e.fd_read_write, rest)
  unfolding decode_event_body decode_fd_read_write body_bytes
  body_lem e rest (inl fd) fits =
      let fits' = simp (fd, appended) at fits in
      simp (fd, appended)
        (read_then (scalar64 w.file_size) e.fd_read_write.nbytes _ tt fits' λ fits.
          read_then (scalar32 w.event_fd_read_write_flags) e.fd_read_write.flags _ tt fits
            λ fits. refl)
  body_lem e rest (inr (other, clock, empty)) fits =
      rw (other, clock) (ap (λ (x : EventFdReadWrite). ok (x, rest)) (sym empty))

  pub event_lem :
      (e : Event) (rest : List ℕ)
      → IsEvent e
      → Fits (event_bytes e ++ rest)
      → decode_event (event_bytes e ++ rest) ≡ ok (e, rest)
  unfolding decode_event event_bytes
  event_lem e rest valid fits =
      let fits' = simp appended at fits in
      simp appended (
        read_then (scalar64 w.user_data) e.user_data _ tt fits' λ fits.
          read_then (scalar32 w.errno) e.errno _ tt fits λ fits.
            read_then (scalar32 w.event_type) e.event_type _ tt fits
              λ fits. rw (body_lem e rest valid fits))

  abbrev pub event_codec : Codec Event
  event_codec = record {
    write = event_bytes;
    read = decode_event;
    IsValid = IsEvent;
    read-write = event_lem;
  }

module _ ⦃w : Wasi⦄ where
  pub encode_subscriptions-append :
      (buffer : List ℕ) (xs : List Subscription)
      → All IsSubscription xs
      → encode_subscriptions buffer xs ≡ some (buffer ++ list_bytes subscription_codec xs)
  unfolding encode_subscriptions list_bytes
  encode_subscriptions-append buffer xs valid =
      encode_each-append subscription_codec encode_subscription encode_subscription-append _ xs
        valid
      ∙ ap some (simp appended)

  pub encode_events-append :
      (buffer : List ℕ) (xs : List Event)
      → All IsEvent xs
      → encode_events buffer xs ≡ some (buffer ++ list_bytes event_codec xs)
  unfolding encode_events list_bytes
  encode_events-append buffer xs valid =
      encode_each-append event_codec encode_event encode_event-append _ xs valid
      ∙ ap some (simp appended)
