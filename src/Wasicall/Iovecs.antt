-- ===== src/Wasicall/Iovecs.antt =====
-- internal/timemachine/wasicall/codec.go, encodeIOVecsPrefix: of the buffers that a read was
-- handed, only the bytes that it filled are recorded.
pub mod Prefix
use timecraft.Common.{
  List, [], if◌then◌else◌, leb, length, suc, take, ℕ, ◌%◌, ◌+◌, ◌-◌, ◌==◌, ◌^◌, ◌||◌, ◌∷◌,
}
use timecraft.Wasicall.Words.{encode_bytes, encode_u32}

-- The first loop: how many buffers the first `size` bytes reach. `filled` is prefixSize.
unfoldable pub prefix_count : List (List ℕ) → ℕ → ℕ → ℕ
prefix_count [] filled size = 0
prefix_count (iovec ∷ iovecs) filled size =
    let filled = filled + length iovec in
    suc (if leb size (filled % 2 ^ 32) then 0 else prefix_count iovecs filled size)

-- The second loop: whole buffers, and the front of the last one.
unfoldable pub encode_prefix : List ℕ → List (List ℕ) → ℕ → List ℕ
encode_prefix buffer [] remaining = buffer
encode_prefix buffer (iovec ∷ iovecs) remaining =
    let rest =
      encode_prefix (encode_bytes buffer iovec) iovecs (remaining - length iovec % 2 ^ 32) in
    if leb remaining (length iovec % 2 ^ 32)
    then encode_bytes buffer (take remaining iovec)
    else rest

-- `int32(size) <= 0` holds of zero and of the sizes whose top bit is set.
unfoldable pub encode_iovecs_prefix : List ℕ → List (List ℕ) → ℕ → List ℕ
unfolding prefix_count encode_prefix
encode_iovecs_prefix buffer iovecs size =
    if size == 0 || leb (2 ^ 31) size
    then encode_u32 buffer 0
    else encode_prefix (encode_u32 buffer (prefix_count iovecs 0 size % 2 ^ 32)) iovecs size
