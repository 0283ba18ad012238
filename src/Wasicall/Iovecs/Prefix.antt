-- ===== src/Wasicall/Iovecs/Prefix.antt =====
-- What `encode_iovecs_prefix` records, as a list of buffers.
use mathlib.Core.List.{flatten}
use timecraft.Common.{
  Bool-cases, List, [], append-nil, arith, false, if◌then◌else◌, inl, inr, leb, length, ltb, refl,
  suc, sym, take, take-append_long, take-append_short, true, zero, ℕ, ◌%◌, ◌++◌, ◌+◌, ◌-◌, ◌<◌,
  ◌==◌, ◌^◌, ◌||◌, ◌∙◌, ◌∷◌, ◌≡◌, ◌≤◌,
}
use timecraft.Common.Result.{ok}
use timecraft.Wasicall.Iovecs.{encode_iovecs_prefix, encode_prefix, prefix_count}
use timecraft.Wasicall.Lists.{
  bytes_list, decode_iovecs, encode_all, encode_iovecs, encode_iovecs-append, encode_list,
}
use timecraft.Wasicall.Words.{encode_bytes}
use timecraft.Wasicall.Words.RoundTrip.{Fits}

-- The buffers cut after `size` bytes in all.
unfoldable pub trim : List (List ℕ) → ℕ → List (List ℕ)
trim [] size = []
trim (iovec ∷ iovecs) size =
    if leb size (length iovec)
    then take size iovec ∷ []
    else iovec ∷ trim iovecs (size - length iovec)

-- What a read of `size` bytes into the buffers leaves in the record.
unfoldable pub recorded_iovecs : List (List ℕ) → ℕ → List (List ℕ)
unfolding trim
recorded_iovecs iovecs size = if size == 0 || leb (2 ^ 31) size then [] else trim iovecs size

abbrev pub total : List (List ℕ) → ℕ
total [] = 0
total (iovec ∷ iovecs) = length iovec + total iovecs

prefix_count-trim :
    (iovecs : List (List ℕ)) (filled size : ℕ)
    → filled < size
    → filled + total iovecs < 2 ^ 32
    → prefix_count iovecs filled size ≡ length (trim iovecs (size - filled))
unfolding prefix_count trim
prefix_count-trim [] filled size lt short = refl
prefix_count-trim (iovec ∷ iovecs) filled size lt short =
    let regroup : size - (filled + length iovec) ≡ size - filled - length iovec = omega arith in
    ground (arith, regroup, prefix_count-trim iovecs (filled + length iovec) size)

encode_prefix-trim :
    (buffer : List ℕ) (iovecs : List (List ℕ)) (size : ℕ)
    → total iovecs < 2 ^ 32
    → encode_prefix buffer iovecs size ≡ encode_all encode_bytes buffer (trim iovecs size)
unfolding encode_prefix trim encode_all
encode_prefix-trim buffer [] size short = refl
encode_prefix-trim buffer (iovec ∷ iovecs) size short =
    let whole : length iovec % 2 ^ 32 ≡ length iovec = omega arith in
    ground (
      arith,
      whole,
      encode_prefix-trim (encode_bytes buffer iovec) iovecs (size - length iovec) (omega arith),
    )

-- If the buffers hold less than 2 ^ 32 bytes in all, encoding the prefix of `size` bytes is
-- encoding the list of the recorded buffers.
pub encode_iovecs_prefix-recorded :
    (buffer : List ℕ) (iovecs : List (List ℕ)) (size : ℕ)
    → total iovecs < 2 ^ 32
    → encode_iovecs_prefix buffer iovecs size ≡ encode_iovecs buffer (recorded_iovecs iovecs size)
unfolding encode_iovecs_prefix recorded_iovecs encode_list
encode_iovecs_prefix-recorded buffer iovecs size short =
    elim (Bool-cases (size == 0 || leb (2 ^ 31) size)) [
      | inl skip ↦ rw skip
      | inr keep ↦
          let from_start : size - 0 ≡ size = omega arith in
          rw (keep, prefix_count-trim iovecs 0 size (ground arith) (omega arith), from_start)
            (encode_prefix-trim _ iovecs size short)
    ]

length-trim : (iovecs : List (List ℕ)) (size : ℕ) → length (trim iovecs size) ≤ length iovecs
unfolding trim
length-trim [] size = omega arith
length-trim (iovec ∷ iovecs) size = ground (arith, length-trim iovecs (size - length iovec))

pub length-recorded_iovecs :
    (iovecs : List (List ℕ)) (size : ℕ) → length (recorded_iovecs iovecs size) ≤ length iovecs
unfolding recorded_iovecs
length-recorded_iovecs iovecs size = ground (arith, length-trim iovecs size)

flatten-trim :
    (iovecs : List (List ℕ)) (size : ℕ) → flatten (trim iovecs size) ≡ take size (flatten iovecs)
unfolding trim flatten
flatten-trim [] zero = refl
flatten-trim [] (suc size) = refl
flatten-trim (iovec ∷ iovecs) size = elim (Bool-cases (leb size (length iovec))) [
  | inl last ↦
      rw last (rw (append-nil, take-append_short size iovec (flatten iovecs) (ground arith)))
  | inr more ↦ rw more (
      rw (flatten-trim iovecs (size - length iovec))
        (sym (take-append_long size iovec (flatten iovecs) (ground arith))))
]

flatten-recorded_iovecs :
    (iovecs : List (List ℕ)) (size : ℕ)
    → size < 2 ^ 31
    → flatten (recorded_iovecs iovecs size) ≡ take size (flatten iovecs)
unfolding recorded_iovecs flatten
flatten-recorded_iovecs iovecs zero small = refl
flatten-recorded_iovecs iovecs (suc size) small =
    let keep : (suc size == 0 || leb (2 ^ 31) (suc size)) ≡ false = ground arith in
    rw keep (flatten-trim iovecs (suc size))

flatten-kept :
    (iovecs : List (List ℕ)) (size : ℕ)
    → flatten (recorded_iovecs iovecs size)
      ≡ (if ltb size (2 ^ 31) then take size (flatten iovecs) else [])
flatten-kept iovecs size = elim (Bool-cases (ltb size (2 ^ 31))) [
  | inl small ↦ rw small (flatten-recorded_iovecs iovecs size (ground arith))
  | inr large ↦
      let none_kept : (size == 0 || leb (2 ^ 31) size) ≡ true = ground arith in
      rw large (unfold recorded_iovecs flatten in rw none_kept)
]

-- If the buffers are less than 2 ^ 32 in number and in bytes, decoding what was encoded of a read
-- of `size` bytes gives buffers that hold, one after the other, the first `size` bytes of those
-- that the read was handed; none where the size is not positive as an int32. What follows is left.
pub decode_iovecs-encode_iovecs_prefix :
    (iovecs : List (List ℕ)) (size : ℕ) (rest : List ℕ)
    → length iovecs < 2 ^ 32
    → total iovecs < 2 ^ 32
    → Fits (encode_iovecs_prefix [] iovecs size ++ rest)
    → (kept : List (List ℕ)) × (decode_iovecs (encode_iovecs_prefix [] iovecs size ++ rest)
        ≡ ok (kept, rest))
      × (flatten kept ≡ (if ltb size (2 ^ 31) then take size (flatten iovecs) else []))
decode_iovecs-encode_iovecs_prefix iovecs size rest short total_short fits =
    let written =
      encode_iovecs_prefix-recorded [] iovecs size total_short
      ∙ encode_iovecs-append [] (recorded_iovecs iovecs size) in
    (
      recorded_iovecs iovecs size,
      rw written (
          bytes_list.read-write (recorded_iovecs iovecs size) rest
            (omega (arith, length-recorded_iovecs iovecs size)) (rw written at fits)),
      flatten-kept iovecs size,
    )
