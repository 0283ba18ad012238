-- ===== src/Wasicall/Words.antt =====
-- internal/timemachine/wasicall/codec.go, encodeU32 to decodeString: words, byte strings and the
-- errors of the decoders. A []byte is a list of numbers, and a string is its bytes.
use mathlib.Core.List.{append_assoc}
pub mod RoundTrip
use timecraft.Common.{
  ℕ, zero, suc, ◌+◌, ◌-◌, ◌*◌, ◌/◌, ◌%◌, ◌^◌, ◌<◌, ◌≡◌, List, [], ◌∷◌, ◌++◌, length, take, drop,
  ltb, ◌==◌, if◌then◌else◌,
}
use timecraft.Common.Int.{ℤ, pos, negsuc}
use timecraft.Common.Result.{Result, ok, err, ◌>>=◌}
use timecraft.Wasicall.Wasi.{Scalar32, Scalar64}

-- The errors that the decoders return, without the values in their messages.
pub data CodecError : Type 0 where
  short_buffer invalid_event_type invalid_ipv4_length invalid_ipv6_length : CodecError
  invalid_protocol_family invalid_option_value_type : CodecError

-- What a decoder returns: the value and the bytes behind it, or an error.
abbrev pub Decoded {ℓ} : Type ℓ → Type ℓ
Decoded A = Result CodecError (A × List ℕ)

-- The least significant byte of `v` first, as in encoding/binary's LittleEndian.
unfoldable pub le_bytes : ℕ → ℕ → List ℕ
le_bytes zero v = []
le_bytes (suc n) v = (v % 256) ∷ le_bytes n (v / 256)

unfoldable pub le_value : List ℕ → ℕ
le_value [] = 0
le_value (b ∷ bs) = b + 256 * le_value bs

unfoldable pub encode_u32 : List ℕ → ℕ → List ℕ
encode_u32 b v = b ++ le_bytes 4 v

unfoldable pub decode_u32 : List ℕ → Decoded ℕ
unfolding le_value
decode_u32 b = if ltb (length b) 4 then err short_buffer else ok (le_value (take 4 b), drop 4 b)

unfoldable pub encode_u64 : List ℕ → ℕ → List ℕ
encode_u64 b v = b ++ le_bytes 8 v

unfoldable pub decode_u64 : List ℕ → Decoded ℕ
unfolding le_value
decode_u64 b = if ltb (length b) 8 then err short_buffer else ok (le_value (take 8 b), drop 8 b)

-- The conversions between int and uint64, both of 64 bits.
abbrev pub uint64 : ℤ → ℕ
uint64 (pos n) = n % 2 ^ 64
uint64 (negsuc n) = 2 ^ 64 - 1 - n % 2 ^ 64

abbrev pub int64 : ℕ → ℤ
int64 v = if ltb v (2 ^ 63) then pos v else negsuc (2 ^ 64 - 1 - v)

unfoldable pub encode_int : List ℕ → ℤ → List ℕ
encode_int b v = encode_u64 b (uint64 v)

unfoldable pub decode_int : List ℕ → Decoded ℤ
decode_int b = do (v, b) ← decode_u64 b; ok (int64 v, b)

unfoldable pub encode_bytes : List ℕ → List ℕ → List ℕ
encode_bytes buffer b = encode_u32 buffer (length b % 2 ^ 32) ++ b

unfoldable pub decode_bytes : List ℕ → Decoded (List ℕ)
decode_bytes buffer = do
  (len, buffer) ← decode_u32 buffer
  if ltb (length buffer % 2 ^ 32) len
      then err short_buffer
      else ok (take len buffer, drop len buffer)

unfoldable pub encode_string : List ℕ → List ℕ → List ℕ
encode_string buffer s = encode_bytes buffer s

unfoldable pub decode_string : List ℕ → Decoded (List ℕ)
decode_string buffer = do
  (result, buffer) ← decode_bytes buffer
  if length result == 0 then ok ([], buffer) else ok (result, buffer)

-- encodeErrno and the other encoders of integer types of up to 32 bits have this one body, with
-- the type's own conversions; so do the decoders, and those of 64 bits.
unfoldable pub encode_scalar32 : (s : Scalar32) → List ℕ → s.Carrier → List ℕ
encode_scalar32 s buffer x = encode_u32 buffer (s.to_word x)

unfoldable pub decode_scalar32 : (s : Scalar32) → List ℕ → Decoded s.Carrier
decode_scalar32 s buffer = do (x, buffer) ← decode_u32 buffer; ok (s.of_word x, buffer)

unfoldable pub encode_scalar64 : (s : Scalar64) → List ℕ → s.Carrier → List ℕ
encode_scalar64 s buffer x = encode_u64 buffer (s.to_word x)

unfoldable pub decode_scalar64 : (s : Scalar64) → List ℕ → Decoded s.Carrier
decode_scalar64 s buffer = do (x, buffer) ← decode_u64 buffer; ok (s.of_word x, buffer)
