-- ===== src/Wasicall/Words/RoundTrip.antt =====
-- Words and byte strings as codecs, and what a codec is.
use timecraft.Common.{
  List, [], ap, append_assoc, arith, drop, length, length-append, refl, suc, take, zero, ℕ, ◌%◌,
  ◌++◌, ◌+◌, ◌/◌, ◌<◌, ◌^◌, ◌∷◌, ◌≡◌,
}
use timecraft.Common.Int.{negsuc, pos, ℤ}
use timecraft.Common.Result.{Result, ok, ◌>>=◌}
use timecraft.Wasicall.Wasi.{Scalar32, Scalar64}
use timecraft.Wasicall.Words.{
  CodecError, Decoded, decode_bytes, decode_int, decode_scalar32, decode_scalar64, decode_string,
  decode_u32, decode_u64, encode_bytes, encode_int, encode_scalar32, encode_scalar64, encode_string,
  encode_u32, encode_u64, int64, le_bytes, le_value, uint64,
}

le_value-le_bytes : (n v : ℕ) → v < 256 ^ n → le_value (le_bytes n v) ≡ v
unfolding le_value le_bytes
le_value-le_bytes zero v h = omega arith
le_value-le_bytes (suc n) v h = omega (arith, le_value-le_bytes n (v / 256) (omega arith))

pub decode_u32_lem :
    (v : ℕ) (rest : List ℕ) → v < 2 ^ 32 → decode_u32 (le_bytes 4 v ++ rest) ≡ ok (v, rest)
unfolding decode_u32 le_bytes
decode_u32_lem v rest h = ground (arith, le_value-le_bytes 4 v h)

pub decode_u64_lem :
    (v : ℕ) (rest : List ℕ) → v < 2 ^ 64 → decode_u64 (le_bytes 8 v ++ rest) ≡ ok (v, rest)
unfolding decode_u64 le_bytes
decode_u64_lem v rest h = ground (arith, le_value-le_bytes 8 v h)

-- A buffer that the check of `decode_bytes` measures correctly: its length does not wrap.
abbrev pub Fits : List ℕ → Type 0
Fits buffer = length buffer < 2 ^ 32

abbrev pub IsInt64 : ℤ → Type 0
IsInt64 (pos n) = n < 2 ^ 63
IsInt64 (negsuc n) = n < 2 ^ 63

-- An encoder as the bytes that it appends, and a decoder that reads them back.
pub record Codec {ℓ} (A : Type ℓ) : Type (ℓ ⊔ 1) where
  pub write : A → List ℕ
  pub read : List ℕ → Decoded A
  pub IsValid : A → Type 0
  pub read-write :
      (a : A) (rest : List ℕ)
      → IsValid a
      → Fits (write a ++ rest)
      → read (write a ++ rest) ≡ ok (a, rest)

Fits-suffix : (xs rest : List ℕ) → Fits (xs ++ rest) → Fits rest
Fits-suffix xs rest h = omega (arith, length-append xs rest)

-- One statement of a decoder: the field is read, and the rest of the decoder goes on behind it.
pub read_then {ℓ κ} :
    {A : Type ℓ} {B : Type κ} (c : Codec A) (a : A) (f : A × List ℕ → Result CodecError B)
    {rest : List ℕ} {r : Result CodecError B}
    → c.IsValid a
    → Fits (c.write a ++ rest)
    → (Fits rest → f (a, rest) ≡ r)
    → (c.read (c.write a ++ rest) >>= f) ≡ r
read_then c a f {rest} valid fits k =
    rw (c.read-write a rest valid fits) (k (Fits-suffix (c.write a) rest fits))

int64-uint64 : (v : ℤ) → IsInt64 v → int64 (uint64 v) ≡ v
int64-uint64 v h = ground arith

pub take-length {ℓ} : {A : Type ℓ} (xs ys : List A) → take (length xs) (xs ++ ys) ≡ xs
take-length [] ys = refl
take-length (x ∷ xs) ys = ap (λ t. x ∷ t) (take-length xs ys)

pub drop-length {ℓ} : {A : Type ℓ} (xs ys : List A) → drop (length xs) (xs ++ ys) ≡ ys
drop-length [] ys = refl
drop-length (x ∷ xs) ys = drop-length xs ys

-- What encodeBytes appends.
pub sized_bytes : List ℕ → List ℕ
sized_bytes b = le_bytes 4 (length b % 2 ^ 32) ++ b

payload-Fits : (b rest : List ℕ) → Fits (sized_bytes b ++ rest) → length b + length rest < 2 ^ 32
unfolding sized_bytes
payload-Fits b rest h =
    omega
      (arith, length-append (sized_bytes b) rest, length-append (le_bytes 4 (length b % 2 ^ 32)) b)

pub decode_bytes_lem :
    (b rest : List ℕ)
    → Fits (sized_bytes b ++ rest)
    → decode_bytes (sized_bytes b ++ rest) ≡ ok (b, rest)
unfolding decode_bytes sized_bytes
decode_bytes_lem b rest h =
    let short : length b + length rest < 2 ^ 32 = payload-Fits b rest h in
    let whole : length b % 2 ^ 32 ≡ length b = omega arith in
    rw (append_assoc, whole, decode_u32_lem (length b) (b ++ rest) (omega arith))
      (rw (length-append, take-length, drop-length) (ground arith))

abbrev pub u32_codec : Codec ℕ
u32_codec = record {
  write = le_bytes 4;
  read = decode_u32;
  IsValid = λ v. v < 2 ^ 32;
  read-write = λ v rest valid fits. decode_u32_lem v rest valid;
}

module _ (s : Scalar32) where
  pub scalar32_lem :
      (x : s.Carrier) (rest : List ℕ)
      → decode_scalar32 s (le_bytes 4 (s.to_word x) ++ rest) ≡ ok (x, rest)
  unfolding decode_scalar32
  scalar32_lem x rest = rw (decode_u32_lem (s.to_word x) rest (s.to_word-lt x), s.of_word-to_word)

  abbrev pub scalar32 : Codec s.Carrier
  scalar32 = record {
    write = λ x. le_bytes 4 (s.to_word x);
    read = decode_scalar32 s;
    IsValid = λ x. Unit;
    read-write = λ x rest valid fits. scalar32_lem x rest;
  }

module _ (s : Scalar64) where
  pub scalar64_lem :
      (x : s.Carrier) (rest : List ℕ)
      → decode_scalar64 s (le_bytes 8 (s.to_word x) ++ rest) ≡ ok (x, rest)
  unfolding decode_scalar64
  scalar64_lem x rest = rw (decode_u64_lem (s.to_word x) rest (s.to_word-lt x), s.of_word-to_word)

  abbrev pub scalar64 : Codec s.Carrier
  scalar64 = record {
    write = λ x. le_bytes 8 (s.to_word x);
    read = decode_scalar64 s;
    IsValid = λ x. Unit;
    read-write = λ x rest valid fits. scalar64_lem x rest;
  }

pub decode_int_lem :
    (v : ℤ) (rest : List ℕ) → IsInt64 v → decode_int (le_bytes 8 (uint64 v) ++ rest) ≡ ok (v, rest)
unfolding decode_int
decode_int_lem v rest h = rw (decode_u64_lem (uint64 v) rest (ground arith), int64-uint64 v h)

abbrev pub int_codec : Codec ℤ
int_codec = record {
  write = λ v. le_bytes 8 (uint64 v);
  read = decode_int;
  IsValid = IsInt64;
  read-write = λ v rest valid fits. decode_int_lem v rest valid;
}

abbrev pub bytes_codec : Codec (List ℕ)
bytes_codec = record {
  write = sized_bytes;
  read = decode_bytes;
  IsValid = λ b. Unit;
  read-write = λ b rest valid fits. decode_bytes_lem b rest fits;
}

pub decode_string_lem :
    (b rest : List ℕ)
    → Fits (sized_bytes b ++ rest)
    → decode_string (sized_bytes b ++ rest) ≡ ok (b, rest)
unfolding decode_string
decode_string_lem [] rest h = rw (decode_bytes_lem [] rest h)
decode_string_lem (x ∷ b) rest h = rw (decode_bytes_lem (x ∷ b) rest h) (ground arith)

pub encode_bytes-append : (buffer b : List ℕ) → encode_bytes buffer b ≡ buffer ++ sized_bytes b
unfolding encode_bytes encode_u32 sized_bytes
encode_bytes-append buffer b = append_assoc buffer _ b

pub encode_string-append : (buffer b : List ℕ) → encode_string buffer b ≡ buffer ++ sized_bytes b
unfolding encode_string
encode_string-append = encode_bytes-append

pub encode_int-append :
    (buffer : List ℕ) (v : ℤ) → encode_int buffer v ≡ buffer ++ le_bytes 8 (uint64 v)
unfolding encode_int encode_u64
encode_int-append buffer v = refl

pub encode_u32-append : (buffer : List ℕ) (v : ℕ) → encode_u32 buffer v ≡ buffer ++ le_bytes 4 v
unfolding encode_u32
encode_u32-append buffer v = refl

pub encode_scalar32-append :
    (s : Scalar32) (buffer : List ℕ) (x : s.Carrier)
    → encode_scalar32 s buffer x ≡ buffer ++ le_bytes 4 (s.to_word x)
unfolding encode_scalar32 encode_u32
encode_scalar32-append s buffer x = refl

pub encode_scalar64-append :
    (s : Scalar64) (buffer : List ℕ) (x : s.Carrier)
    → encode_scalar64 s buffer x ≡ buffer ++ le_bytes 8 (s.to_word x)
unfolding encode_scalar64 encode_u64
encode_scalar64-append s buffer x = refl

-- Every encoder appends to its buffer; brought to the right, the bytes stand in decoding order.
pub ruleset appended = (
  append_assoc, encode_u32-append, encode_int-append, encode_bytes-append, encode_string-append,
  encode_scalar32-append, encode_scalar64-append,
)

abbrev pub string_codec : Codec (List ℕ)
string_codec = record {
  write = sized_bytes;
  read = decode_string;
  IsValid = λ b. Unit;
  read-write = λ b rest valid fits. decode_string_lem b rest fits;
}
