-- ===== src/Wasicall/Syscall/Unknown.antt =====
-- The default case of Decoder.Decode.
use native.Mathlib.Decide.{dec_lt}
use timecraft.Common.{List, arith, get_elem?-none, get_elem?-some, refl, ℕ, ◌↔◌, ◌≡◌, ◌≢◌, ◌≤◌}
use timecraft.Common.Result.{Result, err, ok, ◌>>=◌}
use timecraft.Wasicall.Syscall.Call.{Syscall}
use timecraft.Wasicall.Syscall.Ids.{SyscallId, from_number, syscall_ids}
use timecraft.Wasicall.Syscall.Reader.{
  DecodeError, decode_call, decode_record, unknown_syscall, wrap,
}
use timecraft.Wasicall.Wasi.{Wasi}
use timecraft.Wasicall.Words.{CodecError}

module _ ⦃w : Wasi⦄ where
  known_call :
      {A : Type 0} (r : Result CodecError A) (build : A → Result DecodeError Syscall) (n : ℕ)
      → ((a : A) → (c : Syscall) × (build a ≡ ok c))
      → (wrap r >>= build) ≢ err (unknown_syscall n)
  known_call (ok a) build n builds = λ e. let (c, built) = builds a in cc
  known_call (err x) build n builds = λ e. cc

  decode_call-known :
      (id : SyscallId) (buffer : List ℕ) (n : ℕ) → decode_call id buffer ≢ err (unknown_syscall n)
  unfolding decode_call
  decode_call-known SyscallId.args_sizes_get buffer n = known_call _ _ n (λ a. (_, refl))
  decode_call-known _ buffer n = known_call _ _ n (λ a. (_, refl))

  -- The reader answers that a system call is unknown exactly where the record's number is not that
  -- of one of the 57 identifiers, whatever the record's bytes.
  pub decode_record-unknown :
      (n : ℕ) (buffer : List ℕ) → (decode_record n buffer ≡ err (unknown_syscall n)) ↔ (57 ≤ n)
  unfolding decode_record from_number
  decode_record-unknown n buffer = (
    λ unknown. elim (dec_lt n 57) [
      | yes below ↦
          let (id, found) = get_elem?-some syscall_ids n below in
          absurd (decode_call-known id buffer n (rw (found, decode_record) at unknown))
      | no above ↦ omega arith
    ],
    λ above. rw (get_elem?-none syscall_ids n above, decode_record),
  )
