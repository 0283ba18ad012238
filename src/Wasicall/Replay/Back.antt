-- ===== src/Wasicall/Replay/Back.antt =====
-- From the answer of a replay back to the tests that the call passed.
use Prim.Native.String.{String}
use timecraft.Common.{
  ==_iff, Bool, List, [], ap, false, if◌then◌else◌, refl, some, sym, true, ℕ, ◌&&◌, ◌==◌, ◌∙◌, ◌∷◌,
  ◌≡◌, ◌≢◌,
}
use timecraft.Common.Int.{negsuc, pos, ℤ}
use timecraft.Common.Result.{Result, err, ok, ◌>>=◌}
use timecraft.Wasicall.Replay.Equal.{
  equal_iovecs, equal_socket_address, equal_socket_option_value, same_bytes, same_int,
}
use timecraft.Wasicall.Replay.State.{
  Replay, advance, answering, checked, mismatches, read_record, rejecting, replaying, take_record,
  with_decoded,
}
use timecraft.Wasicall.Sockets.{
  SocketAddress, SocketOptionValue, bytes_value, inet4_address, inet6_address, int_value,
  no_address, no_value, unix_address,
}
use timecraft.Wasicall.Syscall.Call.{Syscall}
use timecraft.Wasicall.Syscall.Ids.{SyscallId, id_number}
use timecraft.Wasicall.Syscall.Log.{Record}
use timecraft.Wasicall.Syscall.Reader.{decode_call, wrap}
use timecraft.Wasicall.Syscall.Recordable.{recorded}
use timecraft.Wasicall.System.{same}
use timecraft.Wasicall.System.Request.{Outcome, unexpected_syscall}
use timecraft.Wasicall.Wasi.{Scalar, Wasi}
use timecraft.Wasicall.Words.{CodecError}

module _ ⦃w : Wasi⦄ where
  pub same-path : {bound : ℕ} (s : Scalar bound) (x y : s.Carrier) → same s x y ≡ true → x ≡ y
  same-path s x y h =
      sym (s.of_word-to_word x) ∙ ap s.of_word ((==_iff _ _).0 h) ∙ s.of_word-to_word y

&&-both : (a b : Bool) → (a && b) ≡ true → (a ≡ true) × (b ≡ true)
&&-both true b h = (refl, h)
&&-both false b h = absurd (cc h)

pub same_bytes-path : (xs ys : List ℕ) → same_bytes xs ys ≡ true → xs ≡ ys
unfolding same_bytes
same_bytes-path [] [] h = refl
same_bytes-path [] (y ∷ ys) h = absurd (cc h)
same_bytes-path (x ∷ xs) [] h = absurd (cc h)
same_bytes-path (x ∷ xs) (y ∷ ys) h =
    let (first, later) = &&-both _ _ h in
    λ i. (==_iff x y).0 first i ∷ same_bytes-path xs ys later i

pub same_int-path : (m n : ℤ) → same_int m n ≡ true → m ≡ n
same_int-path (pos m) (pos n) h = ap pos ((==_iff m n).0 h)
same_int-path (negsuc m) (negsuc n) h = ap negsuc ((==_iff m n).0 h)
same_int-path (pos m) (negsuc n) h = absurd (cc h)
same_int-path (negsuc m) (pos n) h = absurd (cc h)

pub equal_iovecs-path : (xs ys : List (List ℕ)) → equal_iovecs xs ys ≡ true → xs ≡ ys
unfolding equal_iovecs
equal_iovecs-path [] [] h = refl
equal_iovecs-path [] (y ∷ ys) h = absurd (cc h)
equal_iovecs-path (x ∷ xs) [] h = absurd (cc h)
equal_iovecs-path (x ∷ xs) (y ∷ ys) h =
    let (first, later) = &&-both _ _ h in
    λ i. same_bytes-path x y first i ∷ equal_iovecs-path xs ys later i

module _ ⦃w : Wasi⦄ where
  pub equal_socket_address-path : (a b : SocketAddress) → equal_socket_address a b ≡ true → a ≡ b
  unfolding equal_socket_address
  equal_socket_address-path no_address no_address h = refl
  equal_socket_address-path (inet4_address port addr) (inet4_address port' addr') h =
      let (ports, addrs) = &&-both _ _ h in
      λ i. inet4_address (same_int-path port port' ports i) (same_bytes-path addr addr' addrs i)
  equal_socket_address-path (inet6_address port addr) (inet6_address port' addr') h =
      let (ports, addrs) = &&-both _ _ h in
      λ i. inet6_address (same_int-path port port' ports i) (same_bytes-path addr addr' addrs i)
  equal_socket_address-path (unix_address name) (unix_address name') h =
      ap unix_address (same_bytes-path name name' h)
  equal_socket_address-path _ _ h = absurd (cc h)

  pub equal_socket_option_value-path :
      (a b : SocketOptionValue) → equal_socket_option_value a b ≡ true → a ≡ b
  unfolding equal_socket_option_value
  equal_socket_option_value-path no_value no_value h = refl
  equal_socket_option_value-path (int_value n) (int_value n') h =
      ap int_value (same_int-path n n' h)
  equal_socket_option_value-path (bytes_value b) (bytes_value b') h =
      ap bytes_value (same_bytes-path b b' h)
  equal_socket_option_value-path _ _ h = absurd (cc h)

abbrev pub AllPassed : List (SyscallId × String × Bool) → Type 0
AllPassed [] = Unit
AllPassed ((id, name, passed) ∷ params) = (passed ≡ true) × AllPassed params

pub mismatches-AllPassed :
    (params : List (SyscallId × String × Bool)) → mismatches params ≡ [] → AllPassed params
unfolding mismatches
mismatches-AllPassed [] h = tt
mismatches-AllPassed ((id, name, true) ∷ params) h = (refl, mismatches-AllPassed params h)
mismatches-AllPassed ((id, name, false) ∷ params) h = absurd (cc h)

ok-ne-err : {E A : Type 0} (a : A) (e : E) → ok a ≢ err e
ok-ne-err a e h = cc h

module _ ⦃w : Wasi⦄ {Time Fault W : Type 0} where
  none_rejected :
      {B : Type 0} (missed : List (SyscallId × String)) (r : Replay Time Fault W)
      (result : Outcome Fault B (Replay Time Fault W)) {b : B}
      → (rejecting missed r result).0 ≡ ok b
      → missed ≡ []
  none_rejected [] r result h = refl
  none_rejected (m ∷ ms) r result h = absurd (ok-ne-err _ _ (sym h))

  pub checked_back :
      {B : Type 0} (params : List (SyscallId × String × Bool)) (r : Replay Time Fault W)
      (result : Outcome Fault B (Replay Time Fault W)) {b : B}
      → r.strict ≡ true
      → (checked params r result).0 ≡ ok b
      → mismatches params ≡ []
  unfolding checked
  checked_back params r result strict h = none_rejected (mismatches params) r result (
      ap (λ x. (if◌then◌else◌ x (rejecting (mismatches params) r result) result).0) (sym strict)
      ∙ h)

  with_decoded_back :
      {A B : Type 0} (continue : A → Replay Time Fault W → Outcome Fault B (Replay Time Fault W))
      (r : Replay Time Fault W) (decoded : Result CodecError A) {b : B}
      → (with_decoded continue r decoded).0 ≡ ok b
      → (a : A) × (decoded ≡ ok a) × ((continue a r).0 ≡ ok b)
  with_decoded_back continue r (ok a) h = (a, refl, h)
  with_decoded_back continue r (err e) h = absurd (ok-ne-err _ _ (sym h))

  take_record_back :
      {A B : Type 0} (id : SyscallId) (default : B) (decode : List ℕ → Result CodecError A)
      (r : Replay Time Fault W)
      (continue : A → Replay Time Fault W → Outcome Fault B (Replay Time Fault W)) {b : B}
      (item : Record Time) (rest : List (Record Time)) (known : Bool)
      → (item.function_id == id_number id) ≡ known
      → (answering default decode continue (
          if◌then◌else◌ known
            (ok (some item.function_call), advance rest r)
            (err (unexpected_syscall item.function_id id), advance rest r))).0
        ≡ ok b
      → (item.function_id ≡ id_number id)
        × (a : A) × (decode item.function_call ≡ ok a)
        × ((continue a (advance rest r)).0 ≡ ok b)
  unfolding answering
  take_record_back id default decode r continue item rest true e h =
      let (a, gives, went_on) =
        with_decoded_back continue (advance rest r) (decode item.function_call) h in
      ((==_iff _ _).0 e, a, gives, went_on)
  take_record_back id default decode r continue item rest false e h = absurd (ok-ne-err _ _ (sym h))

  pub replaying_back :
      {A B : Type 0} (id : SyscallId) (default : B) (decode : List ℕ → Result CodecError A)
      (r : Replay Time Fault W)
      (continue : A → Replay Time Fault W → Outcome Fault B (Replay Time Fault W)) {b : B}
      {item : Record Time} {rest : List (Record Time)}
      → (replaying id default decode r continue).0 ≡ ok b
      → r.records.items ≡ item ∷ rest
      → (item.function_id ≡ id_number id)
        × (a : A) × (decode item.function_call ≡ ok a)
        × ((continue a (advance rest r)).0 ≡ ok b)
  unfolding replaying read_record
  replaying_back id default decode r continue {item = item} {rest = rest} h next =
      take_record_back id default decode r continue item rest _ refl (
        ap (λ items. (answering default decode continue (take_record id r items)).0) (sym next) ∙ h)

module _ ⦃w : Wasi⦄ {Time Fault W : Type 0} where
  -- A call that is answered from a record is the call of this record, which the reader decodes.
  pub unchecked :
      {A B : Type 0} (id : SyscallId) (default : B) (decode : List ℕ → Result CodecError A)
      (r : Replay Time Fault W)
      (continue : A → Replay Time Fault W → Outcome Fault B (Replay Time Fault W))
      (recorded : A → Syscall) {b : B} {item : Record Time} {rest : List (Record Time)}
      → decode_call id item.function_call
        ≡ (wrap (decode item.function_call) >>= λ a. ok (recorded a))
      → (replaying id default decode r continue).0 ≡ ok b
      → r.records.items ≡ item ∷ rest
      → (item.function_id ≡ id_number id)
        × (a : A) × (decode_call id item.function_call ≡ ok (recorded a))
  unchecked id default decode r continue recorded reads answered next =
      let (same_id, a, gives, went_on) = replaying_back _ _ _ _ _ answered next in
      (same_id, a, reads ∙ ap (λ x. wrap x >>= λ a. ok (recorded a)) gives)

  -- In a strict replay each parameter of the call has also passed its test.
  pub agreeing :
      {A B : Type 0} (id : SyscallId) (default : B) (decode : List ℕ → Result CodecError A)
      (r : Replay Time Fault W) (params : A → List (SyscallId × String × Bool))
      (result : A → Replay Time Fault W → Outcome Fault B (Replay Time Fault W))
      (recorded : A → Syscall) {b : B} {item : Record Time} {rest : List (Record Time)}
      → decode_call id item.function_call
        ≡ (wrap (decode item.function_call) >>= λ a. ok (recorded a))
      → r.strict ≡ true
      → (replaying id default decode r λ a s. checked (params a) s (result a s)).0 ≡ ok b
      → r.records.items ≡ item ∷ rest
      → (item.function_id ≡ id_number id)
        × (a : A) × (decode_call id item.function_call ≡ ok (recorded a))
        × AllPassed (params a)
  agreeing id default decode r params result recorded reads strict answered next =
      let (same_id, a, gives, went_on) = replaying_back _ _ _ _ _ answered next in
      (
        same_id,
        a,
        reads ∙ ap (λ x. wrap x >>= λ a. ok (recorded a)) gives,
        mismatches-AllPassed (params a) (checked_back _ _ _ strict went_on),
      )
