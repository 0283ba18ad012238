-- ===== src/Wasicall/Lists.antt =====
-- internal/timemachine/wasicall/codec.go: the shape that encodeStrings, encodeIOVecs,
-- encodeDirEntries and encodeAddressInfos share, a count and then the elements, and the
-- loops that decode them. The slice that a decoder is handed only saves an allocation.
use mathlib.Core.Option
use timecraft.Common.{
  All, List, Option, [], ap, append-nil, append_assoc, arith, length, refl, some, suc, sym, zero, ℕ,
  ◌%◌, ◌++◌, ◌<◌, ◌^◌, ◌∙◌, ◌∷◌, ◌≡◌,
}
use timecraft.Common.Result.{ok, ◌>>=◌}
use timecraft.Wasicall.Words.{
  Decoded, decode_bytes, decode_string, decode_u32, encode_bytes, encode_string, encode_u32,
  le_bytes,
}
use timecraft.Wasicall.Words.RoundTrip.{
  Codec, Fits, bytes_codec, encode_bytes-append, encode_string-append, encode_u32-append, read_then,
  string_codec, u32_codec,
}

module _ {ℓ} {A : Type ℓ} where
  -- for _, x := range xs { buffer = encode(buffer, x) }
  unfoldable pub encode_all : (List ℕ → A → List ℕ) → List ℕ → List A → List ℕ
  encode_all enc buffer [] = buffer
  encode_all enc buffer (x ∷ xs) = encode_all enc (enc buffer x) xs

  -- for i := 0; i < count; i++ { xs[i], buffer, err = decode(buffer); … }
  unfoldable pub decode_all : (List ℕ → Decoded A) → ℕ → List ℕ → Decoded (List A)
  decode_all dec zero buffer = ok ([], buffer)
  decode_all dec (suc n) buffer = do
    (x, buffer) ← dec buffer
    (xs, buffer) ← decode_all dec n buffer
    ok (x ∷ xs, buffer)

  -- for i := range xs { buffer = encode(buffer, xs[i]) }, where encode may panic: `none`.
  unfoldable pub encode_each : (List ℕ → A → Option (List ℕ)) → List ℕ → List A → Option (List ℕ)
  unfolding Option.bind
  encode_each enc buffer [] = some buffer
  encode_each enc buffer (x ∷ xs) = Option.bind (enc buffer x) (λ buffer. encode_each enc buffer xs)

  unfoldable pub encode_list : (List ℕ → A → List ℕ) → List ℕ → List A → List ℕ
  unfolding encode_all
  encode_list enc buffer xs = encode_all enc (encode_u32 buffer (length xs % 2 ^ 32)) xs

  unfoldable pub decode_list : (List ℕ → Decoded A) → List ℕ → Decoded (List A)
  decode_list dec buffer = do (count, buffer) ← decode_u32 buffer; decode_all dec count buffer

  module _ (c : Codec A) where
    unfoldable pub all_bytes : List A → List ℕ
    all_bytes [] = []
    all_bytes (x ∷ xs) = c.write x ++ all_bytes xs

    -- What an encoder of a list appends.
    unfoldable pub list_bytes : List A → List ℕ
    list_bytes xs = le_bytes 4 (length xs % 2 ^ 32) ++ all_bytes xs

    encode_all-append :
        (enc : List ℕ → A → List ℕ)
        → ((buffer : List ℕ) (x : A) → enc buffer x ≡ buffer ++ c.write x)
        → (buffer : List ℕ) (xs : List A) → encode_all enc buffer xs ≡ buffer ++ all_bytes xs
    unfolding encode_all all_bytes
    encode_all-append enc appends buffer [] = sym (append-nil buffer)
    encode_all-append enc appends buffer (x ∷ xs) =
        encode_all-append enc appends (enc buffer x) xs
        ∙ ap (λ b. b ++ all_bytes xs) (appends buffer x)
        ∙ append_assoc buffer (c.write x) (all_bytes xs)

    pub encode_each-append :
        (enc : List ℕ → A → Option (List ℕ))
        → ((buffer : List ℕ) (x : A) → c.IsValid x → enc buffer x ≡ some (buffer ++ c.write x))
        → (buffer : List ℕ) (xs : List A) → All c.IsValid xs
        → encode_each enc buffer xs ≡ some (buffer ++ all_bytes xs)
    unfolding encode_each all_bytes
    encode_each-append enc appends buffer [] valid = ap some (sym (append-nil buffer))
    encode_each-append enc appends buffer (x ∷ xs) (v, vs) = rw (appends buffer x v) (
        encode_each-append enc appends (buffer ++ c.write x) xs vs
        ∙ ap some (append_assoc buffer (c.write x) (all_bytes xs)))

    pub encode_list-append :
        (enc : List ℕ → A → List ℕ)
        → ((buffer : List ℕ) (x : A) → enc buffer x ≡ buffer ++ c.write x)
        → (buffer : List ℕ) (xs : List A) → encode_list enc buffer xs ≡ buffer ++ list_bytes xs
    unfolding encode_list list_bytes
    encode_list-append enc appends buffer xs =
        encode_all-append enc appends (encode_u32 buffer (length xs % 2 ^ 32)) xs
        ∙ ap (λ b. b ++ all_bytes xs) (encode_u32-append buffer (length xs % 2 ^ 32))
        ∙ append_assoc buffer _ (all_bytes xs)

    decode_all_lem :
        (xs : List A) (rest : List ℕ)
        → All c.IsValid xs
        → Fits (all_bytes xs ++ rest)
        → decode_all c.read (length xs) (all_bytes xs ++ rest) ≡ ok (xs, rest)
    unfolding decode_all all_bytes
    decode_all_lem [] rest valid fits = refl
    decode_all_lem (x ∷ xs) rest (v, vs) fits =
        let fits' = rw append_assoc at fits in
        rw append_assoc (read_then c x _ v fits' λ fits. rw (decode_all_lem xs rest vs fits))

    -- A list is read back if its length fits the count and each element is read back.
    pub decode_list_lem :
        (xs : List A) (rest : List ℕ)
        → (length xs < 2 ^ 32) × All c.IsValid xs
        → Fits (list_bytes xs ++ rest)
        → decode_list c.read (list_bytes xs ++ rest) ≡ ok (xs, rest)
    unfolding decode_list list_bytes
    decode_list_lem xs rest (short, valid) fits =
        let whole : length xs % 2 ^ 32 ≡ length xs = omega arith in
        let fits' = rw (append_assoc, whole) at fits in
        rw (append_assoc, whole)
          (read_then u32_codec (length xs) _ short fits' λ fits. decode_all_lem xs rest valid fits)

    abbrev pub list_codec : Codec (List A)
    list_codec = record {
      write = list_bytes;
      read = decode_list c.read;
      IsValid = λ xs. (length xs < 2 ^ 32) × All c.IsValid xs;
      read-write = decode_list_lem;
    }

abbrev pub encode_strings : List ℕ → List (List ℕ) → List ℕ
encode_strings = encode_list encode_string

abbrev pub decode_strings : List ℕ → Decoded (List (List ℕ))
decode_strings = decode_list decode_string

abbrev pub encode_iovecs : List ℕ → List (List ℕ) → List ℕ
encode_iovecs = encode_list encode_bytes

abbrev pub decode_iovecs : List ℕ → Decoded (List (List ℕ))
decode_iovecs = decode_list decode_bytes

pub encode_strings-append :
    (buffer : List ℕ) (args : List (List ℕ))
    → encode_strings buffer args ≡ buffer ++ list_bytes string_codec args
encode_strings-append = encode_list-append string_codec encode_string encode_string-append

pub encode_iovecs-append :
    (buffer : List ℕ) (iovecs : List (List ℕ))
    → encode_iovecs buffer iovecs ≡ buffer ++ list_bytes bytes_codec iovecs
encode_iovecs-append = encode_list-append bytes_codec encode_bytes encode_bytes-append

-- Lists of byte strings: only the count is bounded.
module _ (c : Codec (List ℕ)) (any : (b : List ℕ) → c.IsValid b) where
  All-valid : (xs : List (List ℕ)) → All c.IsValid xs
  All-valid [] = tt
  All-valid (x ∷ xs) = (any x, All-valid xs)

  pub short_list_lem :
      (xs : List (List ℕ)) (rest : List ℕ)
      → length xs < 2 ^ 32
      → Fits (list_bytes c xs ++ rest)
      → decode_list c.read (list_bytes c xs ++ rest) ≡ ok (xs, rest)
  short_list_lem xs rest short = decode_list_lem c xs rest (short, All-valid xs)

  abbrev pub short_list_codec : Codec (List (List ℕ))
  short_list_codec = record {
    write = list_bytes c;
    read = decode_list c.read;
    IsValid = λ xs. length xs < 2 ^ 32;
    read-write = short_list_lem;
  }

abbrev pub string_list : Codec (List (List ℕ))
string_list = short_list_codec string_codec (λ b. tt)

abbrev pub bytes_list : Codec (List (List ℕ))
bytes_list = short_list_codec bytes_codec (λ b. tt)
