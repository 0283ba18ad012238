-- ===== src/Fspath/Root.antt =====
-- fspath.IsRoot against the elements of the path.
use timecraft.Common.{
  Bool, Bool-cases, List, Option-cases, [], ap, arith, drop, false, inl, inr, length, none, refl,
  some, suc, take, true, zero, ℕ, ◌&&◌, ◌<◌, ◌||◌, ◌∷◌, ◌≡◌, ◌≤◌,
}
use timecraft.Fspath.{
  elem_length, is_abs, is_dot, is_dot_dot, is_root, is_root_from, is_slash, root_skip,
}
use timecraft.Fspath.Words.{
  length-trim_leading_slash, trim_leading_slash-cases, words, words-elem_length,
  words-trim_leading_slash, words_from,
}

abbrev pub is_dots : List ℕ → Bool
is_dots elem = is_dot elem || is_dot_dot elem

abbrev pub all_dots : List (List ℕ) → Bool
all_dots [] = true
all_dots (elem ∷ elems) = is_dots elem && all_dots elems

root_skip-none :
    (c : ℕ) (s : List ℕ)
    → is_slash c ≡ false
    → root_skip (c ∷ s) ≡ none
    → is_dots (take (elem_length (c ∷ s)) (c ∷ s)) ≡ false
unfolding root_skip elem_length is_slash
root_skip-none c [] other stop = ground arith
root_skip-none c (d ∷ []) other stop = ground arith
root_skip-none c (d ∷ e ∷ []) other stop = ground arith
root_skip-none c (d ∷ e ∷ f ∷ s) other stop = ground arith

-- What the switch drops is an element of dots, with the slash after it.
root_skip-some :
    (c : ℕ) (s : List ℕ) (skip : ℕ)
    → is_slash c ≡ false
    → root_skip (c ∷ s) ≡ some skip
    → (is_dots (take (elem_length (c ∷ s)) (c ∷ s)) ≡ true)
      × (words (drop skip (c ∷ s)) ≡ words (drop (elem_length (c ∷ s)) (c ∷ s)))
      × (length (drop skip (c ∷ s)) ≤ length s)
unfolding root_skip elem_length words_from is_slash
root_skip-some c [] skip other found = ground arith
root_skip-some c (d ∷ []) skip other found = ground arith
root_skip-some c (d ∷ e ∷ s) skip other found = ground arith

is_root_from-words :
    (fuel : ℕ) (path : List ℕ)
    → length path < fuel
    → is_root_from fuel path ≡ some (all_dots (words path))
unfolding is_root_from words_from
is_root_from-words zero path enough = absurd (omega arith)
is_root_from-words (suc fuel) path enough = elim (trim_leading_slash-cases path) [
  | inl end ↦ rw (← words-trim_leading_slash path) (rw (end, is_root_from) refl)
  | inr (c, s, start, other) ↦
      let shorter = length-trim_leading_slash path in
      rw (← words-trim_leading_slash path) (
        rw (start, is_root_from, words-elem_length c s other)
          (elim (Option-cases (root_skip (c ∷ s))) [
            | inl stop ↦ rw (stop, root_skip-none c s other stop) refl
            | inr (skip, found) ↦
                let dropped = root_skip-some c s skip other found in
                rw (found, dropped.0, ← dropped.1)
                  (is_root_from-words fuel (drop skip (c ∷ s))
                    (omega (arith, ap length start, dropped.2)))
          ]))
]

-- The loop of IsRoot ends on every path, with true exactly where the path is absolute and each of
-- its elements is one dot or two.
pub is_root-words : (path : List ℕ) → is_root path ≡ some (is_abs path && all_dots (words path))
unfolding is_root
is_root-words path = elim (Bool-cases (is_abs path)) [
  | inl yes_abs ↦ rw yes_abs (is_root_from-words (suc (length path)) path (omega arith))
  | inr relative ↦ rw relative refl
]
