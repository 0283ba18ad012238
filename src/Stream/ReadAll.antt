-- ===== src/Stream/ReadAll.antt =====
-- internal/stream/stream.go: ReadAll, over any reader. Where the slice is full, append takes a new
-- array for it, whose capacity the run-time chooses: the parameter `grow`, of the length before.
pub mod Contents
use timecraft.Common.{
  List, Option, [], if◌then◌else◌, length, none, some, suc, zero, ℕ, ◌++◌, ◌-◌, ◌==◌,
}
use timecraft.Ipam.Bitset.{grow}
use timecraft.Ipam.Bitset.Laws.{used}
use timecraft.Stream.{Reader, StreamError, eof}

-- The return after a Read that gave an error.
abbrev pub all_read :
    {A S : Type 0}
    → List A
    → Option StreamError
    → S
    → Option ((List A × Option StreamError) × S)
    → Option ((List A × Option StreamError) × S)
all_read values none s rest = rest
all_read values (some eof) s rest = some ((values, none), s)
all_read values (some error) s rest = some ((values, some error), s)

-- The capacity at the Read.
abbrev pub next_capacity : (ℕ → ℕ) → ℕ → ℕ → ℕ
next_capacity grow used capacity = if used == capacity then grow used else capacity

-- The loop, with fuel; `none` if it does not suffice.
unfoldable pub read_all_loop :
    {A S : Type 0}
    → (ℕ → ℕ)
    → ℕ
    → Reader A S
    → ℕ
    → List A
    → S
    → Option ((List A × Option StreamError) × S)
read_all_loop grow zero reader capacity values s = none
read_all_loop grow (suc fuel) reader capacity values s =
    let next = next_capacity grow (length values) capacity in
    let ((more, error), after) = reader s (next - length values) in
    let rest = read_all_loop grow fuel reader next (values ++ more) after in
    all_read (values ++ more) error after rest

unfoldable pub read_all :
    {A S : Type 0} → (ℕ → ℕ) → ℕ → Reader A S → S → Option ((List A × Option StreamError) × S)
unfolding read_all_loop
read_all grow fuel reader s = read_all_loop grow fuel reader 1 [] s
