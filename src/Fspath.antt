-- ===== src/Fspath.antt =====
-- internal/sandbox/fspath/fspath.go: paths as lists of bytes. An index of -1 is none, and none is
-- also what a loop gives that runs out of fuel.
pub mod Words
pub mod Names
mod Rendered
pub mod Clean
pub mod Join
pub mod Depth
pub mod Root
pub mod Walk
pub mod Trailing
mod Tests
use mathlib.Core.Option
use timecraft.Common.{
  Bool, List, Option, [], drop, false, get_elem?, if◌then◌else◌, length, ltb, map, none, some, suc,
  take, true, zero, ℕ, ◌&&◌, ◌++◌, ◌+◌, ◌-◌, ◌==◌, ◌∷◌,
}
use timecraft.Ipam.Ipv4.{prefix}

unfoldable pub is_slash : ℕ → Bool
is_slash c = c == b'/'

abbrev pub is_dot : List ℕ → Bool
is_dot (c ∷ []) = c == b'.'
is_dot _ = false

abbrev pub is_dot_dot : List ℕ → Bool
is_dot_dot (c ∷ d ∷ []) = c == b'.' && d == b'.'
is_dot_dot _ = false

unfoldable pub is_abs : List ℕ → Bool
is_abs [] = false
is_abs (c ∷ path) = is_slash c

unfoldable pub has_trailing_slash : List ℕ → Bool
has_trailing_slash [] = false
has_trailing_slash (c ∷ []) = is_slash c
has_trailing_slash (c ∷ d ∷ s) = has_trailing_slash (d ∷ s)

unfoldable pub trim_leading_slash : List ℕ → List ℕ
trim_leading_slash [] = []
trim_leading_slash (c ∷ s) = if is_slash c then trim_leading_slash s else c ∷ s

-- The loop of TrimTrailingSlash, from the index i down; an index is never out of range.
unfoldable pub trailing_start : List ℕ → ℕ → ℕ
trailing_start s zero = 0
trailing_start s (suc i) = elim (get_elem? s i) [
  | none ↦ suc i
  | some c ↦ if is_slash c then trailing_start s i else suc i
]

unfoldable pub trim_trailing_slash : List ℕ → List ℕ
unfolding trailing_start is_slash
trim_trailing_slash s = take (trailing_start s (length s)) s

unfoldable pub index_slash : List ℕ → Option ℕ
index_slash [] = none
index_slash (c ∷ path) = if is_slash c then some 0 else Option.map suc (index_slash path)

-- The next element and the rest, by the index of the first slash; an index of 0 is made 1.
abbrev pub split_at : List ℕ → Option ℕ → List ℕ × List ℕ
split_at path none = (path, [])
split_at path (some zero) = (take 1 path, trim_leading_slash (drop 1 path))
split_at path (some (suc i)) = (take (suc i) path, trim_leading_slash (drop (suc i) path))

unfoldable pub walk : List ℕ → List ℕ × List ℕ
unfolding is_slash index_slash trim_leading_slash
walk path = split_at path (index_slash path)

-- The switch on an element.
unfoldable pub depth_step : ℕ → List ℕ → ℕ
depth_step depth elem =
    if is_dot elem
    then depth
    else if is_dot_dot elem
    then (if ltb 0 depth then depth - 1 else depth)
    else depth + 1

abbrev pub slash_or_end : List ℕ → ℕ
slash_or_end path = elim (index_slash path) [ none ↦ length path | some i ↦ i ]

unfoldable pub depth_from : ℕ → List ℕ → ℕ → Option ℕ
depth_from zero path depth = none
depth_from (suc fuel) path depth = elim (trim_leading_slash path) [
  | [] ↦ some depth
  | c ∷ s ↦
      let i = slash_or_end (c ∷ s) in
      depth_from fuel (drop i (c ∷ s)) (depth_step depth (take i (c ∷ s)))
]

unfoldable pub depth : List ℕ → Option ℕ
unfolding is_slash depth_from depth_step index_slash trim_leading_slash
depth path = depth_from (suc (length path)) path 0

-- The inner loop that looks for the end of an element.
unfoldable pub elem_length : List ℕ → ℕ
elem_length [] = 0
elem_length (c ∷ path) = if is_slash c then 0 else suc (elem_length path)

-- The loop that collects the elements, with the bytes of a region for its bounds.
unfoldable pub clean_elems : ℕ → List ℕ → Option (List (List ℕ))
clean_elems zero path = none
clean_elems (suc fuel) path = elim (trim_leading_slash path) [
  | [] ↦ some []
  | c ∷ s ↦
      let j = elem_length (c ∷ s) in
      let elem = take j (c ∷ s) in
      Option.map (λ elems. if is_dot elem then elems else elem ∷ elems)
        (clean_elems fuel (drop j (c ∷ s)))
]

unfoldable pub join_elems : List (List ℕ) → List ℕ
join_elems [] = []
join_elems (elem ∷ []) = elem
join_elems (elem ∷ next ∷ elems) = elem ++ (b'/' ∷ join_elems (next ∷ elems))

-- The end of AppendClean; the root's region is empty.
unfoldable pub render : List (List ℕ) → Bool → List ℕ
unfolding join_elems
render [] trailing = b'.' ∷ []
render ([] ∷ []) trailing = b'/' ∷ []
render (elem ∷ elems) trailing = join_elems (elem ∷ elems) ++ (if trailing then b'/' ∷ [] else [])

unfoldable pub append_clean : List ℕ → List ℕ → Option (List ℕ)
unfolding is_slash clean_elems elem_length trim_leading_slash is_abs has_trailing_slash render
append_clean buf [] = some buf
append_clean buf (c ∷ s) =
    Option.map
      (λ elems.
        buf ++ render (if is_abs (c ∷ s) then [] ∷ elems else elems) (has_trailing_slash (c ∷ s)))
      (clean_elems (suc (length (c ∷ s))) (c ∷ s))

unfoldable pub clean : List ℕ → Option (List ℕ)
unfolding append_clean
clean path = append_clean [] path

unfoldable pub join : List ℕ → List ℕ → Option (List ℕ)
unfolding is_slash append_clean has_trailing_slash trim_leading_slash
join dir name = elim (append_clean [] dir) [
  | none ↦ none
  | some buf ↦ elim (trim_leading_slash name) [
    | [] ↦ some buf
    | c ∷ s ↦ append_clean (if has_trailing_slash buf then buf else buf ++ (b'/' ∷ [])) (c ∷ s)
  ]
]

-- strings.HasPrefix, on the two prefixes that IsRoot asks for.
abbrev pub has_prefix : List ℕ → List ℕ → Bool
has_prefix [] s = true
has_prefix (p ∷ prefix) [] = false
has_prefix (p ∷ prefix) (c ∷ s) = c == p && has_prefix prefix s

-- The switch in the loop of IsRoot: how many bytes to drop.
unfoldable pub root_skip : List ℕ → Option ℕ
root_skip path =
    if has_prefix (b'.' ∷ b'/' ∷ []) path
    then some 2
    else if has_prefix (b'.' ∷ b'.' ∷ b'/' ∷ []) path
    then some 3
    else if is_dot path
    then some 1
    else if is_dot_dot path
    then some 2
    else none

unfoldable pub is_root_from : ℕ → List ℕ → Option Bool
is_root_from zero path = none
is_root_from (suc fuel) path = elim (trim_leading_slash path) [
  | [] ↦ some true
  | c ∷ s ↦ elim (root_skip (c ∷ s)) [
    | none ↦ some false
    | some skip ↦ is_root_from fuel (drop skip (c ∷ s))
  ]
]

unfoldable pub is_root : List ℕ → Option Bool
unfolding is_slash is_root_from root_skip trim_leading_slash is_abs
is_root path = if is_abs path then is_root_from (suc (length path)) path else some false
