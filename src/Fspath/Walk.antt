-- ===== src/Fspath/Walk.antt =====
-- fspath.Walk.
use timecraft.Common.{
  ==_iff, Bool-cases, List, Option, Option-cases, [], ap, arith, drop, false, inl, inr, length,
  length-drop, none, refl, some, suc, sym, take, true, zero, ℕ, ◌<◌, ◌∙◌, ◌∷◌, ◌≡◌, ◌≢◌, ◌⊎◌,
}
use timecraft.Fspath.{
  elem_length, index_slash, is_abs, is_slash, slash_or_end, split_at, trim_leading_slash, walk,
}
use timecraft.Fspath.Names.{SlashFree, words_from-SlashFree}
use timecraft.Fspath.Words.{
  length-trim_leading_slash, slash_or_end-elem_length, trim_leading_slash-cases, words,
  words-elem_length, words-trim_leading_slash, words_from,
}

SlashFree-take : (path : List ℕ) → SlashFree (take (elem_length path) path)
unfolding elem_length
SlashFree-take [] = tt
SlashFree-take (c ∷ path) = elim (Bool-cases (is_slash c)) [
  | inl slash ↦ rw slash tt
  | inr other ↦ rw other (other, SlashFree-take path)
]

index_slash-SlashFree : (path : List ℕ) → index_slash path ≡ none → SlashFree path
unfolding index_slash
index_slash-SlashFree [] absent = tt
index_slash-SlashFree (c ∷ path) absent = elim (Bool-cases (is_slash c)) [
  | inl slash ↦ absurd (ground (arith, slash))
  | inr other ↦ elim (Option-cases (index_slash path)) [
    | inl none_after ↦ (other, index_slash-SlashFree path none_after)
    | inr (i, found) ↦ absurd (ground (arith, other, found))
  ]
]

is_abs-trim_leading_slash : (path : List ℕ) → is_abs (trim_leading_slash path) ≡ false
unfolding is_abs
is_abs-trim_leading_slash path = elim (trim_leading_slash-cases path) [
  | inl end ↦ rw end refl
  | inr (c, s, start, other) ↦ rw start other
]

leading_slash : (c : ℕ) (path : List ℕ) → index_slash (c ∷ path) ≡ some 0 → is_slash c ≡ true
unfolding index_slash
leading_slash c path found = elim (Bool-cases (is_slash c)) [
  | inl slash ↦ slash
  | inr other ↦ elim (Option-cases (index_slash path)) [
    | inl absent ↦ absurd (ground (arith, other, absent))
    | inr (i, later) ↦ absurd (ground (arith, other, later))
  ]
]

inner_slash :
    (c : ℕ) (path : List ℕ) (i : ℕ) → index_slash (c ∷ path) ≡ some (suc i) → is_slash c ≡ false
unfolding index_slash
inner_slash c path i found = elim (Bool-cases (is_slash c)) [
  | inl slash ↦ absurd (ground (arith, slash, found))
  | inr other ↦ other
]

-- The part is the root, or the first element; the name is relative, shorter, and holds the elements
-- that are left.
abbrev IsSplit : List ℕ → List ℕ × List ℕ → Type 0
IsSplit path (elem, name) =
    (((is_abs path ≡ true) × (elem ≡ b'/' ∷ []) × (words name ≡ words path))
      ⊎ ((is_abs path ≡ false) × SlashFree elem × (words path ≡ elem ∷ words name)))
    × (is_abs name ≡ false)
    × (length name < length path)

rest-split :
    (c : ℕ) (path : List ℕ) (i : ℕ)
    → (is_abs (trim_leading_slash (drop i path)) ≡ false)
      × (length (trim_leading_slash (drop i path)) < length (c ∷ path))
rest-split c path i = (
  is_abs-trim_leading_slash (drop i path),
  omega (arith, length-trim_leading_slash (drop i path), length-drop i path),
)

IsSplit-split_at :
    (c : ℕ) (path : List ℕ) (found : Option ℕ)
    → index_slash (c ∷ path) ≡ found
    → IsSplit (c ∷ path) (split_at (c ∷ path) found)
unfolding is_abs words_from is_slash
IsSplit-split_at c path none found =
    let free = index_slash-SlashFree (c ∷ path) found in
    (inr (free.0, free, words_from-SlashFree [] (c ∷ path) free), refl, omega arith)
IsSplit-split_at c path (some zero) found =
    let slash = leading_slash c path found in
    (
      inl (
        slash,
        ap (λ x. x ∷ []) ((==_iff c b'/').0 slash),
        words-trim_leading_slash path ∙ rw slash refl,
      ),
      (rest-split c path 0).0,
      (rest-split c path 0).1,
    )
IsSplit-split_at c path (some (suc i)) found =
    let other = inner_slash c path i found in
    let place : elem_length (c ∷ path) ≡ suc i =
      sym (slash_or_end-elem_length (c ∷ path)) ∙ rw (found, slash_or_end) refl in
    (
      inr (
        other,
        rw place at (SlashFree-take (c ∷ path)),
        rw place at (words-elem_length c path other)
            ∙ ap (λ ws. take (suc i) (c ∷ path) ∷ ws)
                (sym (words-trim_leading_slash (drop i path))),
      ),
      (rest-split c path i).0,
      (rest-split c path i).1,
    )

-- Of a path that is not empty, Walk gives either the root, where the path is absolute, and a name with
-- all elements of the path, or, where it is not, the first of its elements and a name with the
-- others. The name is relative and shorter than the path.
pub walk_lem :
    (path : List ℕ)
    → path ≢ []
    → (((is_abs path ≡ true) × ((walk path).0 ≡ b'/' ∷ []) × (words (walk path).1 ≡ words path))
        ⊎ ((is_abs path ≡ false)
            × SlashFree (walk path).0
            × (words path ≡ (walk path).0 ∷ words (walk path).1)))
      × (is_abs (walk path).1 ≡ false)
      × (length (walk path).1 < length path)
unfolding walk
walk_lem [] nonempty = absurd (nonempty refl)
walk_lem (c ∷ path) nonempty = IsSplit-split_at c path (index_slash (c ∷ path)) refl
