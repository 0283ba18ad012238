-- ===== src/Fspath/Names.antt =====
-- The elements of a path but for those that are a single dot, and what a path that is written
-- from such elements consists of.
use timecraft.Common.{
  All, Bool-cases, List, [], ap, append-nil, append_assoc, false, if◌then◌else◌, inl, inr, refl,
  sym, ℕ, ◌++◌, ◌∷◌, ◌≡◌,
}
use timecraft.Fspath.{is_dot, is_slash, join_elems}
use timecraft.Fspath.Words.{flush, words, words-append, words_from}

abbrev pub without_dots : List (List ℕ) → List (List ℕ)
without_dots [] = []
without_dots (elem ∷ elems) = (if is_dot elem then [] else elem ∷ []) ++ without_dots elems

abbrev pub names : List ℕ → List (List ℕ)
names path = without_dots (words path)

abbrev pub SlashFree : List ℕ → Type 0
SlashFree word = All (λ c. is_slash c ≡ false) word

abbrev pub IsName : List ℕ → Type 0
IsName [] = ⊥
IsName (c ∷ word) = SlashFree (c ∷ word) × (is_dot (c ∷ word) ≡ false)

pub without_dots-append :
    (xs ys : List (List ℕ)) → without_dots (xs ++ ys) ≡ without_dots xs ++ without_dots ys
without_dots-append [] ys = refl
without_dots-append (x ∷ xs) ys =
    rw (without_dots-append xs ys)
      (sym (append_assoc (if is_dot x then [] else x ∷ []) (without_dots xs) (without_dots ys)))

SlashFree-append_one :
    (word : List ℕ) (c : ℕ) → SlashFree word → is_slash c ≡ false → SlashFree (word ++ (c ∷ []))
SlashFree-append_one [] c free other = (other, tt)
SlashFree-append_one (d ∷ word) c free other = (free.0, SlashFree-append_one word c free.1 other)

IsName-flush : (word : List ℕ) → SlashFree word → All IsName (without_dots (flush word))
IsName-flush [] free = tt
IsName-flush (c ∷ word) free = elim (Bool-cases (is_dot (c ∷ word))) [
  | inl dot ↦ rw dot tt
  | inr other ↦ rw other ((free, other), tt)
]

All-append : (xs ys : List (List ℕ)) → All IsName xs → All IsName ys → All IsName (xs ++ ys)
All-append [] ys hx hy = hy
All-append (x ∷ xs) ys hx hy = (hx.0, All-append xs ys hx.1 hy)

names_from-IsName :
    (word path : List ℕ) → SlashFree word → All IsName (without_dots (words_from word path))
unfolding words_from
names_from-IsName word [] free = IsName-flush word free
names_from-IsName word (c ∷ path) free = elim (Bool-cases (is_slash c)) [
  | inl slash ↦ rw slash (
      rw (without_dots-append (flush word) (words path)) (
        All-append (without_dots (flush word)) (names path) (IsName-flush word free)
          (names_from-IsName [] path tt)))
  | inr other ↦
      rw other (names_from-IsName (word ++ (c ∷ [])) path (SlashFree-append_one word c free other))
]

pub names-IsName : (path : List ℕ) → All IsName (names path)
names-IsName path = names_from-IsName [] path tt

pub words_from-SlashFree :
    (before word : List ℕ) → SlashFree word → words_from before word ≡ flush (before ++ word)
unfolding words_from
words_from-SlashFree before [] free = rw append-nil refl
words_from-SlashFree before (c ∷ word) free =
    rw (free.0) (rw (words_from-SlashFree (before ++ (c ∷ [])) word free.1, append_assoc) refl)

pub words-IsName : (word : List ℕ) → IsName word → words word ≡ word ∷ []
words-IsName [] h = absurd h
words-IsName (c ∷ word) h = words_from-SlashFree [] (c ∷ word) h.0

pub words-join_elems : (elems : List (List ℕ)) → All IsName elems → words (join_elems elems) ≡ elems
unfolding join_elems words_from
words-join_elems [] h = refl
words-join_elems (elem ∷ []) h = words-IsName elem h.0
words-join_elems (elem ∷ next ∷ elems) h =
    rw (words-append elem (join_elems (next ∷ elems)), words-IsName elem h.0)
      (ap (λ ws. elem ∷ ws) (words-join_elems (next ∷ elems) h.1))

pub without_dots-IsName : (elems : List (List ℕ)) → All IsName elems → without_dots elems ≡ elems
without_dots-IsName [] h = refl
without_dots-IsName ([] ∷ elems) h = absurd h.0
without_dots-IsName ((c ∷ word) ∷ elems) h =
    rw (h.0.1) (ap (λ ws. (c ∷ word) ∷ ws) (without_dots-IsName elems h.1))

pub names-join_elems : (elems : List (List ℕ)) → All IsName elems → names (join_elems elems) ≡ elems
names-join_elems elems h = rw (words-join_elems elems h) (without_dots-IsName elems h)
