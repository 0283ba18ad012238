-- ===== src/Stream/AtLeast.antt =====
-- internal/stream/stream.go: ReadAtLeast and ReadFull, over any reader.
pub mod Ends
use timecraft.Common.{
  List, Option, [], if◌then◌else◌, leb, length, ltb, none, some, suc, zero, ℕ, ◌++◌, ◌-◌,
}
use timecraft.Stream.{Reader, StreamError, eof, short_buffer, unexpected_eof}

-- The loop, with fuel; `none` if it does not suffice. `got` is what stands in the buffer.
unfoldable pub at_least_loop :
    {A S : Type 0}
    → ℕ
    → Reader A S
    → ℕ
    → ℕ
    → List A
    → Option StreamError
    → S
    → Option ((List A × Option StreamError) × S)
at_least_loop zero reader space min got error s = none
at_least_loop (suc fuel) reader space min got (some error) s = some ((got, some error), s)
at_least_loop (suc fuel) reader space min got none s =
    let ((values, error), after) = reader s (space - length got) in
    let rest = at_least_loop fuel reader space min (got ++ values) error after in
    if ltb (length got) min then rest else some ((got, none), s)

-- The end of the file after some values is not the expected one.
abbrev pub unexpected : Option StreamError → Option StreamError
unexpected none = none
unexpected (some eof) = some unexpected_eof
unexpected (some other) = some other

-- The error after the loop.
abbrev pub settle : {A : Type 0} → ℕ → List A → Option StreamError → Option StreamError
settle min got error =
    if leb min (length got) then none else if ltb 0 (length got) then unexpected error else error

abbrev pub end_loop :
    {A S : Type 0}
    → ℕ
    → Option ((List A × Option StreamError) × S)
    → Option ((List A × Option StreamError) × S)
end_loop min none = none
end_loop min (some ((got, error), s)) = some ((got, settle min got error), s)

-- ReadAtLeast into a buffer of `space` elements.
unfoldable pub read_at_least :
    {A S : Type 0} → ℕ → Reader A S → S → ℕ → ℕ → Option ((List A × Option StreamError) × S)
unfolding at_least_loop
read_at_least fuel reader s space min =
    let result = end_loop min (at_least_loop fuel reader space min [] none s) in
    if ltb space min then some (([], some short_buffer), s) else result

unfoldable pub read_full :
    {A S : Type 0} → ℕ → Reader A S → S → ℕ → Option ((List A × Option StreamError) × S)
unfolding read_at_least
read_full fuel reader s space = read_at_least fuel reader s space space
