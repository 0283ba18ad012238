-- ===== src/Wasicall/Recorder/Encodable.antt =====
-- Which calls the codec encodes without a panic.
use timecraft.Common.{
  All, Bool-cases, List, Option, [], ap, arith, false, inl, inr, length, refl, some, true, ℕ, ◌%◌,
  ◌^◌, ◌∷◌, ◌≡◌, ◌⊎◌,
}
use timecraft.Wasicall.Calls.Process.{encode_poll_one_off}
use timecraft.Wasicall.Lists.{encode_each}
use timecraft.Wasicall.Poll.{
  Event, Subscription, encode_event, encode_events, encode_subscription, encode_subscriptions,
  is_clock_event, is_fd_event,
}
use timecraft.Wasicall.Scalars.{encode_errno}
use timecraft.Wasicall.Syscall.Recorder.{encode_call}
use timecraft.Wasicall.System.{cut}
use timecraft.Wasicall.System.Exchange.{made}
use timecraft.Wasicall.System.Request.{Request, Response}
use timecraft.Wasicall.Wasi.{Errno, EventType, Wasi}
use timecraft.Wasicall.Words.{encode_u32}

module _ ⦃w : Wasi⦄ where
  -- The types that the encoders of subscriptions and events know.
  abbrev pub IsKnown : EventType → Type 0
  IsKnown t = (t ≡ w.fd_read_event) ⊎ (t ≡ w.fd_write_event) ⊎ (t ≡ w.clock_event)

  -- The subscriptions of PollOneOff, and the events that it gives back, are of known types.
  abbrev pub IsEncodable : (q : Request) → Response q → Type 0
  IsEncodable (Request.poll_one_off subscriptions _) (events_after, n, _) =
      All (λ s. IsKnown s.event_type) subscriptions
      × All (λ e. IsKnown e.event_type) (cut n events_after)
  IsEncodable _ _ = Unit

  known_type :
      (t : EventType)
      → IsKnown t
      → (is_fd_event t ≡ true) ⊎ ((is_fd_event t ≡ false) × (is_clock_event t ≡ true))
  known_type t known = elim (Bool-cases (is_fd_event t)) [
    | inl fd ↦ inl fd
    | inr other ↦ elim known [
      | inl e ↦ absurd (ground (arith, other, ap w.event_type.to_word e))
      | inr (inl e) ↦ absurd (ground (arith, other, ap w.event_type.to_word e))
      | inr (inr e) ↦ inr (other, ground (arith, ap w.event_type.to_word e))
    ]
  ]

  abbrev Writes : {A : Type 0} → (List ℕ → A → Option (List ℕ)) → A → Type 0
  Writes encode x = (buffer : List ℕ) → (bytes : List ℕ) × (encode buffer x ≡ some bytes)

  encode_subscription-Writes :
      (s : Subscription) → IsKnown s.event_type → Writes encode_subscription s
  unfolding encode_subscription
  encode_subscription-Writes s known buffer = elim (known_type s.event_type known) [
    | inl fd ↦ rw fd (_, refl)
    | inr (other, clock) ↦ rw (other, clock) (_, refl)
  ]

  encode_event-Writes : (e : Event) → IsKnown e.event_type → Writes encode_event e
  unfolding encode_event
  encode_event-Writes e known buffer = elim (known_type e.event_type known) [
    | inl fd ↦ rw fd (_, refl)
    | inr (other, clock) ↦ rw (other, clock) (_, refl)
  ]

  encode_each-Writes :
      {A : Type 0} (encode : List ℕ → A → Option (List ℕ)) (IsGood : A → Type 0)
      → ((x : A) → IsGood x → Writes encode x)
      → (xs : List A) → All IsGood xs
      → Writes (encode_each encode) xs
  unfolding encode_each
  encode_each-Writes encode IsGood writes [] good buffer = (buffer, refl)
  encode_each-Writes encode IsGood writes (x ∷ xs) (first, later) buffer =
      let (bytes, e) = writes x first buffer in
      let (all_bytes, rest) = encode_each-Writes encode IsGood writes xs later bytes in
      (all_bytes, rw e rest)

  encode_poll_one_off-returns :
      (subscriptions : List Subscription) (events : List Event) (errno : Errno)
      → All (λ s. IsKnown s.event_type) subscriptions
      → All (λ e. IsKnown e.event_type) events
      → (bytes : List ℕ) × (encode_poll_one_off [] subscriptions events errno ≡ some bytes)
  unfolding encode_poll_one_off encode_subscriptions encode_events
  encode_poll_one_off-returns subscriptions events errno known_subscriptions known_events =
      let (before, e) =
        encode_each-Writes encode_subscription _ encode_subscription-Writes subscriptions
          known_subscriptions
          (encode_u32 (encode_errno [] errno) (length subscriptions % 2 ^ 32)) in
      let (bytes, e') =
        encode_each-Writes encode_event _ encode_event-Writes events known_events
          (encode_u32 before (length events % 2 ^ 32)) in
      (bytes, rw e e')

  pub encode_call-made :
      (q : Request) (response : Response q)
      → IsEncodable q response
      → (bytes : List ℕ) × (encode_call (made q response) ≡ some bytes)
  unfolding encode_call made
  encode_call-made (Request.poll_one_off subscriptions _) (events_after, n, errno) (known, known') =
      encode_poll_one_off-returns subscriptions (cut n events_after) errno known known'
  encode_call-made _ response known = (_, refl)
