-- ===== src/Fspath/Depth.antt =====
-- fspath.Depth against the elements of the path.
use mathlib.Core.Path.{subst}
use timecraft.Common.{
  ==_iff, Bool-cases, List, [], ap, arith, drop, if◌then◌else◌, inl, inr, length, ltb, refl, some,
  suc, sym, take, true, zero, ℕ, ◌+◌, ◌-◌, ◌<◌, ◌∙◌, ◌∷◌, ◌≡◌, ◌≢◌,
}
use timecraft.Fspath.{depth, depth_from, depth_step, elem_length, is_dot, is_dot_dot}
use timecraft.Fspath.Words.{
  length-drop_elem, length-trim_leading_slash, slash_or_end-elem_length, trim_leading_slash-cases,
  words, words-elem_length, words-trim_leading_slash, words_from,
}

abbrev pub depth_of : ℕ → List (List ℕ) → ℕ
depth_of level [] = level
depth_of level (elem ∷ elems) = depth_of (depth_step level elem) elems

-- With more fuel than the path has bytes the loop ends, after a step for each element.
depth_from-words :
    (fuel : ℕ) (path : List ℕ) (level : ℕ)
    → length path < fuel
    → depth_from fuel path level ≡ some (depth_of level (words path))
unfolding depth_from words_from
depth_from-words zero path level enough = absurd (omega arith)
depth_from-words (suc fuel) path level enough = elim (trim_leading_slash-cases path) [
  | inl end ↦ rw (← words-trim_leading_slash path) (rw (end, depth_from) refl)
  | inr (c, s, start, other) ↦
      let shorter = length-trim_leading_slash path in
      rw (← words-trim_leading_slash path) (
        rw (start, depth_from, slash_or_end-elem_length (c ∷ s), words-elem_length c s other)
          (depth_from-words fuel (drop (elem_length (c ∷ s)) (c ∷ s))
            (depth_step level (take (elem_length (c ∷ s)) (c ∷ s)))
            (omega (arith, ap length start, length-drop_elem c s other))))
]

-- The loop of Depth ends on every path.
pub depth-words : (path : List ℕ) → depth path ≡ some (depth_of 0 (words path))
unfolding depth
depth-words path = depth_from-words (suc (length path)) path 0 (omega arith)

-- The directories that one is in below the root, the last one first, before and after the elements
-- of a path that has no symbolic links.
pub data Entered : List (List ℕ) → List (List ℕ) → List (List ℕ) → Type 0 where
  arrive : {dirs : List (List ℕ)} → Entered dirs [] dirs
  stay :
      {dirs elems end : List (List ℕ)}
      → Entered dirs elems end
      → Entered dirs ((b'.' ∷ []) ∷ elems) end
  stay_at_root :
      {elems end : List (List ℕ)}
      → Entered [] elems end
      → Entered [] ((b'.' ∷ b'.' ∷ []) ∷ elems) end
  leave :
      {dir : List ℕ} {dirs elems end : List (List ℕ)}
      → Entered dirs elems end
      → Entered (dir ∷ dirs) ((b'.' ∷ b'.' ∷ []) ∷ elems) end
  enter :
      {elem : List ℕ} {dirs elems end : List (List ℕ)}
      → elem ≢ b'.' ∷ []
      → elem ≢ b'.' ∷ b'.' ∷ []
      → Entered (elem ∷ dirs) elems end
      → Entered dirs (elem ∷ elems) end

is_dot-path : (elem : List ℕ) → is_dot elem ≡ true → elem ≡ b'.' ∷ []
is_dot-path [] e = absurd (cc e)
is_dot-path (c ∷ []) e = ap (λ x. x ∷ []) ((==_iff c b'.').0 e)
is_dot-path (c ∷ d ∷ s) e = absurd (cc e)

is_dot_dot-path : (elem : List ℕ) → is_dot_dot elem ≡ true → elem ≡ b'.' ∷ b'.' ∷ []
is_dot_dot-path [] e = absurd (cc e)
is_dot_dot-path (c ∷ []) e = absurd (cc e)
is_dot_dot-path (c ∷ d ∷ []) e =
    let c_dot : c ≡ b'.' = ground (arith, e) in
    let d_dot : d ≡ b'.' = ground (arith, e) in λ i. c_dot i ∷ d_dot i ∷ []
is_dot_dot-path (c ∷ d ∷ x ∷ s) e = absurd (cc e)

-- Where one is after the elements, and how deep.
abbrev Reaches : List (List ℕ) → List (List ℕ) → Type 0
Reaches dirs elems =
    (end : List (List ℕ)) × Entered dirs elems end × (depth_of (length dirs) elems ≡ length end)

Reaches-dots :
    (dirs elems : List (List ℕ))
    → ((dirs' : List (List ℕ)) → Reaches dirs' elems)
    → Reaches dirs ((b'.' ∷ b'.' ∷ []) ∷ elems)
unfolding depth_step
Reaches-dots [] elems later =
    let (end, entered, same) = later [] in (end, stay_at_root entered, same)
Reaches-dots (dir ∷ dirs) elems later =
    let (end, entered, same) = later dirs in
    let up : (if ltb 0 (suc (length dirs)) then suc (length dirs) - 1 else suc (length dirs))
        ≡ length dirs =
      ground arith in
    (end, leave entered, ap (λ n. depth_of n elems) up ∙ same)

Reaches-cons :
    (dirs : List (List ℕ)) (elem : List ℕ) (elems : List (List ℕ))
    → ((dirs' : List (List ℕ)) → Reaches dirs' elems)
    → Reaches dirs (elem ∷ elems)
unfolding depth_step
Reaches-cons dirs elem elems later = elim (Bool-cases (is_dot elem)) [
  | inl e ↦
      let (end, entered, same) = later dirs in
      (
        end,
        subst (λ x. Entered dirs (x ∷ elems) end) (sym (is_dot-path elem e)) (stay entered),
        rw e same,
      )
  | inr other ↦ elim (Bool-cases (is_dot_dot elem)) [
    | inl e ↦
        subst (λ x. Reaches dirs (x ∷ elems)) (sym (is_dot_dot-path elem e))
          (Reaches-dots dirs elems later)
    | inr name ↦
        let (end, entered, same) = later (elem ∷ dirs) in
        let down : length dirs + 1 ≡ suc (length dirs) = omega arith in
        (
          end,
          enter (λ p. cc (sym other ∙ ap is_dot p)) (λ p. cc (sym name ∙ ap is_dot_dot p)) entered,
          rw (other, name) (ap (λ n. depth_of n elems) down ∙ same),
        )
  ]
]

depth_of-Entered : (dirs elems : List (List ℕ)) → Reaches dirs elems
depth_of-Entered dirs [] = (dirs, arrive, refl)
depth_of-Entered dirs (elem ∷ elems) =
    Reaches-cons dirs elem elems λ dirs'. depth_of-Entered dirs' elems

-- Depth ends on every path, with the number of directories that one is in after the elements of the
-- path: one less for two dots unless one is at the root, one more for any other element but a dot.
pub depth-Entered :
    (path : List ℕ)
    → (end : List (List ℕ)) × Entered [] (words path) end × (depth path ≡ some (length end))
depth-Entered path =
    let (end, entered, same) = depth_of-Entered [] (words path) in
    (end, entered, depth-words path ∙ ap some same)
