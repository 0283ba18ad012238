-- ===== src/Wasicall/Replay/Buffers.antt =====
-- What a replay copies into the buffers of a call is what the call had put there.
use timecraft.Common.{
  Bool, Bool-cases, List, [], ap, arith, drop, false, if◌then◌else◌, inl, inr, leb, leb→le, length,
  refl, some, suc, sym, take, tests, true, zero, ℕ, ◌-◌, ◌==◌, ◌^◌, ◌||◌, ◌∷◌, ◌≡◌, ◌≤◌,
}
use timecraft.Common.Int.{negsuc, pos, ℤ}
use timecraft.Wasicall.Iovecs.Prefix.{recorded_iovecs, trim}
use timecraft.Wasicall.Replay.Equal.{equal_iovecs_shape_prefix}
use timecraft.Wasicall.Replay.State.{Replay, closing, copy_each, echo, renumbering}
use timecraft.Wasicall.Syscall.Log.{Records}
use timecraft.Wasicall.System.{copy, cut}
use timecraft.Wasicall.System.Exchange.{Counted, Fills, positive_count}
use timecraft.Wasicall.Wasi.{Fd, Wasi}

pub ==-self : (n : ℕ) → (n == n) ≡ true
==-self n = ground arith

module _ {A : Type 0} where
  pub copy_all : (before after : List A) → length after ≡ length before → copy before after ≡ after
  copy_all [] [] same_length = refl
  copy_all (x ∷ before) [] same_length = absurd (omega (arith, same_length))
  copy_all [] (y ∷ after) same_length = absurd (omega (arith, same_length))
  copy_all (x ∷ before) (y ∷ after) same_length =
      ap (λ (ys : List A). y ∷ ys) (copy_all before after (omega arith))

  pub copy_front :
      (n : ℕ) (before after : List A)
      → length after ≡ length before
      → drop n after ≡ drop n before
      → copy before (take n after) ≡ after
  copy_front zero before after same_length kept = sym kept
  copy_front (suc n) [] [] same_length kept = refl
  copy_front (suc n) (x ∷ before) [] same_length kept = absurd (omega (arith, same_length))
  copy_front (suc n) [] (y ∷ after) same_length kept = absurd (omega (arith, same_length))
  copy_front (suc n) (x ∷ before) (y ∷ after) same_length kept =
      ap (λ (ys : List A). y ∷ ys) (copy_front n before after (omega arith) kept)

  pub length-take : (n : ℕ) (xs : List A) → n ≤ length xs → length (take n xs) ≡ n
  length-take zero xs le = refl
  length-take (suc n) [] le = absurd (omega (arith, le))
  length-take (suc n) (x ∷ xs) le = ap suc (length-take n xs (omega arith))

  cut_all : (n : ℕ) (xs : List A) → n ≤ length xs → cut (pos n) xs ≡ take n xs
  unfolding cut
  cut_all n xs le = ground arith

  pub room-Counted :
      (n : ℤ) (before after : List A)
      → Counted n before after
      → leb (length (cut n after)) (length before) ≡ true
  room-Counted (pos n) before after (le, same_length, kept) =
      rw (cut_all n after le) (ground (arith, length-take n after le))
  room-Counted (negsuc n) before after h = absurd h

  pub copy-Counted :
      (n : ℤ) (before after : List A) → Counted n before after → copy before (cut n after) ≡ after
  copy-Counted (pos n) before after (le, same_length, kept) =
      rw (cut_all n after le) (copy_front n before after same_length kept)
  copy-Counted (negsuc n) before after h = absurd h

  pub count-Counted :
      (n : ℤ) (before after : List A) → Counted n before after → pos (length (cut n after)) ≡ n
  count-Counted (pos n) before after (le, same_length, kept) =
      rw (cut_all n after le) (ap pos (length-take n after le))
  count-Counted (negsuc n) before after h = absurd h

Fills-none : (before after : List (List ℕ)) → Fills before after 0 → after ≡ before
Fills-none [] [] h = refl
Fills-none [] (y ∷ after) h = absurd h
Fills-none (x ∷ before) [] h = absurd h
Fills-none (x ∷ before) (y ∷ after) (same_length, kept, later) =
    let none_left : 0 - length x ≡ 0 = omega arith in
    λ i. kept i ∷ Fills-none before after (rw none_left at later) i

trim-cons :
    (x : List ℕ) (xs : List (List ℕ)) (size : ℕ)
    → (y : List ℕ) × (ys : List (List ℕ)) × (trim (x ∷ xs) size ≡ y ∷ ys)
unfolding trim
trim-cons x xs size = elim (Bool-cases (leb size (length x))) [
  | inl fits ↦ (take size x, [], rw fits refl)
  | inr longer ↦ (x, trim xs (size - length x), rw longer refl)
]

copy_each-trim :
    (before after : List (List ℕ)) (size : ℕ)
    → Fills before after size
    → copy_each before (trim after size) ≡ some after
unfolding copy_each trim
copy_each-trim [] [] size h = refl
copy_each-trim [] (y ∷ after) size h = absurd h
copy_each-trim (x ∷ before) [] size h = absurd h
copy_each-trim (x ∷ before) (y ∷ after) size (same_length, kept, later) =
    elim (Bool-cases (leb size (length y))) [
      | inl fits ↦
          let none_left : size - length x ≡ 0 = omega (tests, fits) in
          let later = rw none_left at later in
          rw (fits, copy_front size x y same_length kept, Fills-none before after later) refl
      | inr longer ↦
          let later = rw (sym same_length) at later in
          rw (longer, copy_each-trim before after (size - length y) later, copy_all x y same_length)
            refl
    ]

shape-trim :
    (before after : List (List ℕ)) (size count : ℕ)
    → Fills before after size
    → equal_iovecs_shape_prefix before (trim after size) count ≡ true
unfolding equal_iovecs_shape_prefix trim
shape-trim [] [] size count h = refl
shape-trim [] (y ∷ after) size count h = absurd h
shape-trim (x ∷ before) [] size count h = absurd h
shape-trim (x ∷ before) (y ∷ []) size count (same_length, kept, later) =
    elim (Bool-cases (leb size (length y))) [
      | inl fits ↦ rw fits (ground (arith, length-take size y (leb→le _ _ fits), same_length, fits))
      | inr longer ↦ rw longer (ground (arith, same_length))
    ]
shape-trim (x ∷ before) (y ∷ z ∷ after) size count (same_length, kept, later) =
    elim (Bool-cases (leb size (length y))) [
      | inl fits ↦ rw fits (ground (arith, length-take size y (leb→le _ _ fits), same_length, fits))
      | inr longer ↦
          let later = rw (sym same_length) at later in
          let shape = shape-trim before (z ∷ after) (size - length y) count later in
          let (p, prefix, parts) = trim-cons z after (size - length y) in
          rw (longer, parts, same_length, ==-self (length x)) (rw parts at shape)
    ]

pub copy_each-Fills :
    (before after : List (List ℕ)) (size : ℕ)
    → Fills before after (positive_count size)
    → copy_each before (recorded_iovecs after size) ≡ some after
unfolding recorded_iovecs copy_each
copy_each-Fills before after size h = elim (Bool-cases (size == 0 || leb (2 ^ 31) size)) [
  | inl none_read ↦
      let nothing : positive_count size ≡ 0 = ground (arith, none_read) in
      rw (none_read, Fills-none before after (rw nothing at h)) refl
  | inr read ↦
      let all_read : positive_count size ≡ size = ground (arith, read) in
      rw (read, copy_each-trim before after size (rw all_read at h)) refl
]

pub shape-Fills :
    (before after : List (List ℕ)) (size : ℕ)
    → Fills before after (positive_count size)
    → equal_iovecs_shape_prefix before (recorded_iovecs after size) size ≡ true
unfolding recorded_iovecs equal_iovecs_shape_prefix
shape-Fills before after size h = elim (Bool-cases (size == 0 || leb (2 ^ 31) size)) [
  | inl none_read ↦ rw none_read refl
  | inr read ↦
      let all_read : positive_count size ≡ size = ground (arith, read) in
      rw (read, shape-trim before after size size (rw all_read at h)) refl
]

module _ ⦃w : Wasi⦄ {Time Fault W : Type 0} where
  pub if-records :
      {r0 : Records Time Fault} (b : Bool) (x y : Replay Time Fault W)
      → x.records ≡ r0
      → y.records ≡ r0
      → (if b then x else y).records ≡ r0
  if-records true x y hx hy = hx
  if-records false x y hx hy = hy

  pub closing-records : (fd : Fd) (r : Replay Time Fault W) → (closing fd r).records ≡ r.records
  unfolding closing
  closing-records fd r = ground arith

  pub renumbering-records :
      (from to : Fd) (r : Replay Time Fault W) → (renumbering from to r).records ≡ r.records
  unfolding renumbering
  renumbering-records from to r = ground arith

  pub echo-records :
      (write : W → List ℕ → W × Bool) (fd : Fd) (iovecs : List (List ℕ)) (r : Replay Time Fault W)
      → (echo write fd iovecs r).records ≡ r.records
  unfolding echo
  echo-records write fd iovecs r = ground arith
