-- ===== src/Fspath/Join.antt =====
-- fspath.Join.
use timecraft.Common.{
  All, Bool, Bool-cases, List, [], ap, append-nil, append_assoc, if◌then◌else◌, inl, inr, refl,
  some, sym, true, ℕ, ◌++◌, ◌∙◌, ◌∷◌, ◌≡◌, ◌≢◌,
}
use timecraft.Fspath.{has_trailing_slash, is_abs, is_slash, join, render, trim_leading_slash}
use timecraft.Fspath.Clean.{append_clean-names}
use timecraft.Fspath.Names.{IsName, names, names-IsName, without_dots, without_dots-append}
use timecraft.Fspath.Rendered.{is_abs-render, names-render, render-cons, with_root}
use timecraft.Fspath.Words.{
  flush, trim_leading_slash-cases, words, words-append, words-trim_leading_slash, words_from,
}

words_from-append_trailing :
    (word path rest : List ℕ)
    → has_trailing_slash path ≡ true
    → words_from word (path ++ rest) ≡ words_from word path ++ words rest
unfolding words_from has_trailing_slash
words_from-append_trailing word [] rest h = cc
words_from-append_trailing word (c ∷ []) rest h = rw h (rw (append-nil (flush word)) refl)
words_from-append_trailing word (c ∷ d ∷ path) rest h =
    rw (words_from-append_trailing (if is_slash c then [] else word ++ (c ∷ [])) (d ∷ path) rest h)
      (sym (append_assoc (if is_slash c then flush word else []) _ (words rest)))

-- The directory as Join leaves it before the name.
abbrev pub with_slash : List ℕ → List ℕ
with_slash buf = if has_trailing_slash buf then buf else buf ++ (b'/' ∷ [])

words-with_slash : (buf rest : List ℕ) → words (with_slash buf ++ rest) ≡ words buf ++ words rest
words-with_slash buf rest = elim (Bool-cases (has_trailing_slash buf)) [
  | inl trailing ↦ rw trailing (words_from-append_trailing [] buf rest trailing)
  | inr other ↦ rw other (rw (append_assoc buf (b'/' ∷ []) rest) (words-append buf rest))
]

is_abs-with_slash : (c : ℕ) (s rest : List ℕ) → is_abs (with_slash (c ∷ s) ++ rest) ≡ is_abs (c ∷ s)
unfolding is_abs
is_abs-with_slash c s rest = elim (Bool-cases (has_trailing_slash (c ∷ s))) [
  | inl trailing ↦ rw trailing refl
  | inr other ↦ rw other refl
]

names-trim_leading_slash : (path : List ℕ) → names (trim_leading_slash path) ≡ names path
names-trim_leading_slash path = ap without_dots (words-trim_leading_slash path)

names-with_slash :
    (buf : List ℕ) (root trailing : Bool) (elems : List (List ℕ))
    → All IsName elems
    → names (with_slash buf ++ render (with_root root elems) trailing) ≡ names buf ++ elems
names-with_slash buf root trailing elems h =
    ap without_dots (words-with_slash buf (render (with_root root elems) trailing))
    ∙ without_dots-append (words buf) (words (render (with_root root elems) trailing))
    ∙ ap (λ ns. names buf ++ ns) (names-render root elems trailing h)

-- Joining a name to a directory that is not empty returns, for any name, a path that has the
-- directory's elements and then the name's, but for single dots, and that is absolute if and only
-- if the directory is.
pub join_lem :
    (dir name : List ℕ)
    → dir ≢ []
    → (joined : List ℕ) × (join dir name ≡ some joined)
      × (names joined ≡ names dir ++ names name)
      × (is_abs joined ≡ is_abs dir)
unfolding join words_from
join_lem dir name nonempty =
    let ns = names-IsName dir in
    let buf = render (with_root (is_abs dir) (names dir)) (has_trailing_slash dir) in
    let cleaned = append_clean-names [] dir nonempty in
    let same = names-render (is_abs dir) (names dir) (has_trailing_slash dir) ns in
    let root = is_abs-render (is_abs dir) (names dir) (has_trailing_slash dir) ns in
    let (c, s, start) = render-cons (is_abs dir) (names dir) (has_trailing_slash dir) ns in
    elim (trim_leading_slash-cases name) [
      | inl end ↦ (
        buf,
        rw (cleaned, join) (rw (end, join) refl),
        same
            ∙ sym (append-nil (names dir))
            ∙ ap (λ ms. names dir ++ ms) (ap names (sym end) ∙ names-trim_leading_slash name),
        root,
      )
      | inr (d, t, rest, other) ↦
          let tail : List ℕ = d ∷ t in
          let added = render (with_root (is_abs tail) (names tail)) (has_trailing_slash tail) in
          (
            with_slash buf ++ added,
            rw (cleaned, join)
                (rw (rest, join) (append_clean-names (with_slash buf) tail (λ e. cc e))),
            names-with_slash buf (is_abs tail) (has_trailing_slash tail) (names tail)
                  (names-IsName tail)
                ∙ ap (λ ms. ms ++ names tail) same
                ∙ ap (λ ms. names dir ++ ms) (ap names (sym rest) ∙ names-trim_leading_slash name),
            ap (λ (b : List ℕ). is_abs (with_slash b ++ added)) start
                ∙ is_abs-with_slash c s added
                ∙ ap is_abs (sym start)
                ∙ root,
          )
    ]
