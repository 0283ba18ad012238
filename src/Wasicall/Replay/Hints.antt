-- ===== src/Wasicall/Replay/Hints.antt =====
-- internal/timemachine/wasicall/replay.go, SockAddressInfo: its test of the hints.
use timecraft.Common.{Bool, List, arith, refl, true, ℕ, ◌∷◌, ◌≡◌, ◌≢◌}
use timecraft.Common.Result.{ok}
use timecraft.Wasicall.Replay.Agrees.{Agrees}
use timecraft.Wasicall.Replay.Dispatch.{replay}
use timecraft.Wasicall.Replay.Equal.{same_hints, same_pointer}
use timecraft.Wasicall.Replay.State.{Replay}
use timecraft.Wasicall.Replay.Strict.{replay-Agrees}
use timecraft.Wasicall.Sockets.{AddressInfo, SocketAddress, no_address}
use timecraft.Wasicall.Syscall.Call.{Syscall}
use timecraft.Wasicall.Syscall.Log.{Record}
use timecraft.Wasicall.System.Request.{Request, Response}
use timecraft.Wasicall.Wasi.{Wasi}

module _ ⦃w : Wasi⦄ where
  same_pointer-none : (a b : SocketAddress) → same_pointer a b ≡ true → a ≡ no_address
  same_pointer-none no_address no_address h = refl
  same_pointer-none _ _ h = absurd (cc h)

  same_hints-no_address : (a b : AddressInfo) → same_hints a b ≡ true → a.address ≡ no_address
  unfolding same_hints
  same_hints-no_address a b h = same_pointer-none a.address b.address (ground arith)

  Agrees-no_address :
      (name service : List ℕ) (hints : AddressInfo) (buffer : List AddressInfo) (c : Syscall)
      → Agrees (Request.sock_address_info name service hints buffer) c
      → hints.address ≡ no_address
  Agrees-no_address name service hints buffer
        (Syscall.sock_address_info record_name record_service record_hints results errno)
        (same_name, same_service, hinted, room) =
      same_hints-no_address hints record_hints hinted
  Agrees-no_address name service hints buffer _ h = absurd h

module _ ⦃w : Wasi⦄ {Time Fault W : Type 0} (write : W → List ℕ → W × Bool) where
  -- While its log holds a record, a strict replay answers no SockAddressInfo call whose hints carry an
  -- address, be it the recorded call: the hints are compared as structures that hold a pointer.
  pub replay_sock_address_info-hints :
      (name service : List ℕ) (hints : AddressInfo) (buffer : List AddressInfo)
      (r : Replay Time Fault W) (item : Record Time) (rest : List (Record Time))
      → r.strict ≡ true
      → r.records.items ≡ item ∷ rest
      → hints.address ≢ no_address
      → (response : Response (Request.sock_address_info name service hints buffer))
      → (replay write (Request.sock_address_info name service hints buffer) r).0 ≢ ok response
  replay_sock_address_info-hints name service hints buffer r item rest strict next address response
        answered =
      let (same_id, c, gives, agrees) =
        replay-Agrees write (Request.sock_address_info name service hints buffer) r response item
          rest strict answered next in
      address (Agrees-no_address name service hints buffer c agrees)
