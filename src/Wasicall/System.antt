-- ===== src/Wasicall/System.antt =====
-- What the systems of internal/timemachine/wasicall share: Go's comparisons, its zero values, and
-- the slice that a call filled.
pub mod Request
pub mod Exchange
pub mod Guest
use timecraft.Common.{Bool, List, [], if◌then◌else◌, leb, length, take, ℕ, ◌-◌, ◌==◌, ◌^◌, ◌∷◌}
use timecraft.Common.Int.{negsuc, pos, ℤ}
use timecraft.Wasicall.Stats.{FdStat, FileStat, PreStat}
use timecraft.Wasicall.Wasi.{Fd, Scalar, Wasi}

-- Go's == on two values of an integer type.
abbrev pub same : {bound : ℕ} (s : Scalar bound) → s.Carrier → s.Carrier → Bool
same s x y = s.to_word x == s.to_word y

abbrev pub zero_of : {bound : ℕ} (s : Scalar bound) → s.Carrier
zero_of s = s.of_word 0

module _ ⦃w : Wasi⦄ where
  -- The FD -1.
  abbrev pub none_fd : Fd
  none_fd = w.fd.of_word (2 ^ 32 - 1)

  abbrev pub zero_pre_stat : PreStat
  zero_pre_stat = record { kind = zero_of w.pre_open_type; name_length = 0 }

  abbrev pub zero_fd_stat : FdStat
  zero_fd_stat = record {
    file_type = zero_of w.file_type;
    flags = zero_of w.fd_flags;
    rights_base = zero_of w.rights;
    rights_inheriting = zero_of w.rights;
  }

  abbrev pub zero_file_stat : FileStat
  zero_file_stat = record {
    device = zero_of w.device;
    inode = zero_of w.inode;
    file_type = zero_of w.file_type;
    nlink = zero_of w.link_count;
    size = zero_of w.file_size;
    access_time = zero_of w.timestamp;
    modify_time = zero_of w.timestamp;
    change_time = zero_of w.timestamp;
  }

-- The slice up to the count that a call returned, or no element if there are not so many.
unfoldable pub cut {ℓ} : {A : Type ℓ} → ℤ → List A → List A
cut (pos n) xs = if leb n (length xs) then take n xs else []
cut (negsuc n) xs = []

-- Go's copy of a slice over another: the front of `target` is overwritten.
abbrev pub copy {ℓ} : {A : Type ℓ} → List A → List A → List A
copy target [] = target
copy [] (x ∷ source) = []
copy (y ∷ target) (x ∷ source) = x ∷ copy target source
