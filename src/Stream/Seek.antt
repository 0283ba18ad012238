-- ===== src/Stream/Seek.antt =====
-- internal/stream/stream.go: Seek. An int64 is the word below 2 ^ 64 of its two's complement.
use timecraft.Common.{
  Bool, Option, arith, if◌then◌else◌, length, ltb, none, refl, some, suc, ℕ, ◌%◌, ◌+◌, ◌-◌, ◌<◌,
  ◌^◌, ◌≡◌,
}
use timecraft.Common.Int.{negsuc, pos, ℤ}
use timecraft.Common.Result.{Result, err, ok}
use timecraft.Wasicall.Words.{uint64}
use timecraft.Wasicall.Words.RoundTrip.{IsInt64}

pub data Whence : Type 0 where
  seek_start seek_current seek_end : Whence
  other_whence : ℕ → Whence

pub data SeekError : Type 0 where
  invalid_whence offset_out_of_range : SeekError

-- The comparison < of two int64.
abbrev pub less : ℕ → ℕ → Bool
less a b = ltb ((a + 2 ^ 63) % 2 ^ 64) ((b + 2 ^ 63) % 2 ^ 64)

-- What the switch makes of the offset.
abbrev pub seek_target : ℕ → ℕ → ℕ → Whence → Option ℕ
seek_target offset length seek seek_start = some seek
seek_target offset length seek seek_current = some ((offset + seek) % 2 ^ 64)
seek_target offset length seek seek_end = some ((length + 2 ^ 64 - seek) % 2 ^ 64)
seek_target offset length seek (other_whence n) = none

-- The tests after it.
abbrev pub clamp : ℕ → Option ℕ → Result SeekError ℕ
clamp length none = err invalid_whence
clamp length (some offset) =
    if less offset 0
    then err offset_out_of_range
    else if less length offset
    then ok length
    else ok offset

unfoldable pub seek : ℕ → ℕ → ℕ → Whence → Result SeekError ℕ
seek offset length distance whence = clamp length (seek_target offset length distance whence)

-- A position in a sequence of so many values: what lies behind its end is its end, and what an int64
-- cannot hold is out of range.
abbrev pub position : ℕ → ℕ → Result SeekError ℕ
position length n =
    if ltb n (2 ^ 63) then (if ltb length n then ok length else ok n) else err offset_out_of_range

-- So many values before a position.
abbrev pub before : ℕ → ℕ → ℕ → Result SeekError ℕ
before length n distance =
    if ltb n distance then err offset_out_of_range else position length (n - distance)

-- Where Seek leads, with numbers that do not wrap around. From the end it goes backwards.
abbrev pub sought : ℕ → ℕ → ℤ → Whence → Result SeekError ℕ
sought offset length (pos n) seek_start = position length n
sought offset length (negsuc n) seek_start = err offset_out_of_range
sought offset length (pos n) seek_current = position length (offset + n)
sought offset length (negsuc n) seek_current = before length offset (suc n)
sought offset length (pos n) seek_end = before length length n
sought offset length (negsuc n) seek_end = position length (length + suc n)
sought offset length distance (other_whence n) = err invalid_whence

-- For an offset and a length that are not negative and any distance, all of them int64, Seek leads to
-- the position that numbers without wrap-around give: the distance from the start, from the offset,
-- or back from the end; cut to the length; an error where the position is negative or too large for
-- an int64, and another one for an unknown whence.
pub seek_lem :
    (offset length : ℕ) (distance : ℤ) (whence : Whence)
    → offset < 2 ^ 63
    → length < 2 ^ 63
    → IsInt64 distance
    → seek offset length (uint64 distance) whence ≡ sought offset length distance whence
unfolding seek
seek_lem offset length (pos n) seek_start small short fits = ground arith
seek_lem offset length (negsuc n) seek_start small short fits = ground arith
seek_lem offset length (pos n) seek_current small short fits = ground arith
seek_lem offset length (negsuc n) seek_current small short fits = ground arith
seek_lem offset length (pos n) seek_end small short fits = ground arith
seek_lem offset length (negsuc n) seek_end small short fits = ground arith
seek_lem offset length distance (other_whence n) small short fits = refl
