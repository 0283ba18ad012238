-- ===== src/Wasicall/Replay/Recorded.antt =====
-- A call that the log holds next: what its replay starts from and what it gives.
use Prim.Native.String.{String}
pub mod Env
pub mod File
pub mod Io
pub mod Paths
pub mod Process
pub mod Sock
pub mod SockInfo
use timecraft.Common.{
  All, Bool, List, [], ap, arith, false, if◌then◌else◌, inl, inr, refl, some, true, ℕ, ◌∙◌, ◌∷◌,
  ◌≡◌,
}
use timecraft.Common.Int.{negsuc, pos, ℤ}
use timecraft.Common.Result.{Result, ok}
use timecraft.Wasicall.Lists.{list_codec}
use timecraft.Wasicall.Poll.{Subscription}
use timecraft.Wasicall.Poll.RoundTrip.{IsSubscription, subscription_codec}
use timecraft.Wasicall.Replay.Buffers.{==-self}
use timecraft.Wasicall.Replay.Equal.{
  equal_iovecs, equal_socket_address, equal_socket_option_value, equal_subscription,
  equal_subscriptions, same_bytes, same_int,
}
use timecraft.Wasicall.Replay.State.{
  Replay, advance, answering, checked, mismatches, read_record, replaying, with_decoded,
}
use timecraft.Wasicall.Sockets.{
  SocketAddress, SocketOptionValue, bytes_value, inet4_address, inet6_address, int_value,
  no_address, no_value, unix_address,
}
use timecraft.Wasicall.Syscall.Ids.{SyscallId, id_number}
use timecraft.Wasicall.Syscall.Log.{Record}
use timecraft.Wasicall.System.Request.{Outcome}
use timecraft.Wasicall.Wasi.{Wasi}
use timecraft.Wasicall.Words.{CodecError}

pub same_bytes_self : (xs : List ℕ) → same_bytes xs xs ≡ true
unfolding same_bytes
same_bytes_self [] = refl
same_bytes_self (x ∷ xs) = rw (==-self x, same_bytes_self xs) refl

pub same_int_self : (n : ℤ) → same_int n n ≡ true
same_int_self (pos n) = ==-self n
same_int_self (negsuc n) = ==-self n

pub equal_iovecs_self : (xs : List (List ℕ)) → equal_iovecs xs xs ≡ true
unfolding equal_iovecs
equal_iovecs_self [] = refl
equal_iovecs_self (x ∷ xs) = rw (same_bytes_self x, equal_iovecs_self xs) refl

module _ ⦃w : Wasi⦄ where
  pub equal_socket_address_self : (a : SocketAddress) → equal_socket_address a a ≡ true
  unfolding equal_socket_address
  equal_socket_address_self no_address = refl
  equal_socket_address_self (inet4_address port addr) =
      rw (same_int_self port, same_bytes_self addr) refl
  equal_socket_address_self (inet6_address port addr) =
      rw (same_int_self port, same_bytes_self addr) refl
  equal_socket_address_self (unix_address name) = same_bytes_self name

  pub equal_socket_option_value_self :
      (v : SocketOptionValue) → equal_socket_option_value v v ≡ true
  unfolding equal_socket_option_value
  equal_socket_option_value_self no_value = refl
  equal_socket_option_value_self (int_value n) = same_int_self n
  equal_socket_option_value_self (bytes_value b) = same_bytes_self b

  equal_subscription_self : (s : Subscription) → IsSubscription s → equal_subscription s s ≡ true
  unfolding equal_subscription
  equal_subscription_self s (inl (fd, canonical)) = ground arith
  equal_subscription_self s (inr (other, clock, canonical)) = ground arith

  equal_subscriptions_each :
      (xs : List Subscription) → All IsSubscription xs → equal_subscriptions xs xs ≡ true
  unfolding equal_subscriptions
  equal_subscriptions_each [] valid = refl
  equal_subscriptions_each (x ∷ xs) (first, valid) =
      rw (equal_subscription_self x first, equal_subscriptions_each xs valid) refl

  pub equal_subscriptions_self :
      (xs : List Subscription)
      → (list_codec subscription_codec).IsValid xs
      → equal_subscriptions xs xs ≡ true
  equal_subscriptions_self xs valid = equal_subscriptions_each xs valid.1

  pub ruleset selves = (
    ==-self, same_bytes_self, same_int_self, equal_iovecs_self, equal_socket_address_self,
    equal_socket_option_value_self,
  )

either_way {ℓ} : {A : Type ℓ} (b : Bool) (x : A) → (if b then x else x) ≡ x
either_way true x = refl
either_way false x = refl

module _ ⦃w : Wasi⦄ {Time Fault W : Type 0} where
  -- The log goes on with a call of that identifier and those bytes.
  pub record Holds (r : Replay Time Fault W) (id : SyscallId) (bytes : List ℕ)
      (rest : List (Record Time)) : Type 0 where
    pub time : Time
    pub items :
        r.records.items
        ≡ record { time = time; function_id = id_number id; function_call = bytes } ∷ rest

  -- The call gives that response and leaves the rest of the log.
  pub record Answers {B : Type 0} (outcome : Outcome Fault B (Replay Time Fault W)) (response : B)
      (r : Replay Time Fault W) (rest : List (Record Time)) : Type 0 where
    pub returned : outcome.0 ≡ ok response
    pub left : outcome.1.records ≡ record { items = rest; fault = r.records.fault }

  read_record-Holds :
      {r : Replay Time Fault W} {id : SyscallId} {bytes : List ℕ} {rest : List (Record Time)}
      → Holds r id bytes rest
      → read_record id r ≡ (ok (some bytes), advance rest r)
  unfolding read_record
  read_record-Holds {id = id} h = rw (h.items, ==-self (id_number id)) refl

  pub replaying-Holds :
      {A B : Type 0} {id : SyscallId} (default : B) (decode : List ℕ → Result CodecError A)
      {r : Replay Time Fault W}
      (continue : A → Replay Time Fault W → Outcome Fault B (Replay Time Fault W)) {bytes : List ℕ}
      {rest : List (Record Time)} {a : A}
      → Holds r id bytes rest
      → decode bytes ≡ ok a
      → replaying id default decode r continue ≡ continue a (advance rest r)
  unfolding replaying answering
  replaying-Holds default decode {r = r} continue {rest = rest} holds gives =
      ap (answering default decode continue) (read_record-Holds holds)
      ∙ ap (with_decoded continue (advance rest r)) gives

  pub answers :
      {A B : Type 0} {id : SyscallId} (default : B) (decode : List ℕ → Result CodecError A)
      {r : Replay Time Fault W}
      (continue : A → Replay Time Fault W → Outcome Fault B (Replay Time Fault W)) {bytes : List ℕ}
      {rest : List (Record Time)} {a : A} {response : B}
      → Holds r id bytes rest
      → decode bytes ≡ ok a
      → Answers (continue a (advance rest r)) response r rest
      → Answers (replaying id default decode r continue) response r rest
  answers default decode continue holds gives after =
      rw (replaying-Holds default decode continue holds gives) after

  pub checked-passes :
      {B : Type 0} (params : List (SyscallId × String × Bool)) (r : Replay Time Fault W)
      (result : Outcome Fault B (Replay Time Fault W))
      → mismatches params ≡ []
      → checked params r result ≡ result
  unfolding checked
  checked-passes params r result none_missed = rw none_missed (either_way r.strict result)

  pub passes :
      {B : Type 0} (params : List (SyscallId × String × Bool)) (r : Replay Time Fault W)
      {result : Outcome Fault B (Replay Time Fault W)} {response : B} {r0 : Replay Time Fault W}
      {rest : List (Record Time)}
      → mismatches params ≡ []
      → Answers result response r0 rest
      → Answers (checked params r result) response r0 rest
  passes params r {result} none_missed after = rw (checked-passes params r result none_missed) after
