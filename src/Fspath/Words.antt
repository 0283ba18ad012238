-- ===== src/Fspath/Words.antt =====
-- The elements of a path, described without its loops.
use timecraft.Common.{
  Bool-cases, List, [], append-nil, append_assoc, arith, drop, false, if◌then◌else◌, inl, inr,
  length, length-drop, refl, sym, take, ℕ, ◌++◌, ◌<◌, ◌∙◌, ◌∷◌, ◌≡◌, ◌≤◌, ◌⊎◌,
}
use timecraft.Fspath.{elem_length, index_slash, is_slash, slash_or_end, trim_leading_slash}

-- The bytes between slashes; `word` holds those since the last one.
abbrev pub flush : List ℕ → List (List ℕ)
flush [] = []
flush (c ∷ word) = (c ∷ word) ∷ []

unfoldable pub words_from : List ℕ → List ℕ → List (List ℕ)
words_from word [] = flush word
words_from word (c ∷ path) =
    (if is_slash c then flush word else [])
    ++ words_from (if is_slash c then [] else word ++ (c ∷ [])) path

abbrev pub words : List ℕ → List (List ℕ)
words path = words_from [] path

pub words-trim_leading_slash : (path : List ℕ) → words (trim_leading_slash path) ≡ words path
unfolding words_from trim_leading_slash
words-trim_leading_slash [] = refl
words-trim_leading_slash (c ∷ path) = ground (arith, words-trim_leading_slash path)

-- What is left of the slashes is nothing, or starts with another byte.
pub trim_leading_slash-cases :
    (path : List ℕ)
    → (trim_leading_slash path ≡ [])
      ⊎ ((c : ℕ) × (s : List ℕ) × (trim_leading_slash path ≡ c ∷ s) × (is_slash c ≡ false))
unfolding trim_leading_slash
trim_leading_slash-cases [] = inl refl
trim_leading_slash-cases (c ∷ path) = elim (Bool-cases (is_slash c)) [
  | inl slash ↦ rw slash (trim_leading_slash-cases path)
  | inr other ↦ rw other (inr (c, path, refl, other))
]

pub length-trim_leading_slash : (path : List ℕ) → length (trim_leading_slash path) ≤ length path
unfolding trim_leading_slash
length-trim_leading_slash [] = omega arith
length-trim_leading_slash (c ∷ path) = ground (arith, length-trim_leading_slash path)

pub words_from-elem_length :
    (word path : List ℕ)
    → words_from word path
      ≡ flush (word ++ take (elem_length path) path) ++ words (drop (elem_length path) path)
unfolding words_from elem_length
words_from-elem_length word [] = rw (append-nil word) (sym (append-nil (flush word)))
words_from-elem_length word (c ∷ path) = elim (Bool-cases (is_slash c)) [
  | inl slash ↦ rw slash (rw (append-nil word) (rw slash refl))
  | inr other ↦ rw other (rw (words_from-elem_length (word ++ (c ∷ [])) path, append_assoc) refl)
]

-- The first element of a path that does not start with a slash.
pub words-elem_length :
    (c : ℕ) (s : List ℕ)
    → is_slash c ≡ false
    → words (c ∷ s)
      ≡ take (elem_length (c ∷ s)) (c ∷ s) ∷ words (drop (elem_length (c ∷ s)) (c ∷ s))
words-elem_length c s other =
    words_from-elem_length [] (c ∷ s) ∙ (unfold elem_length in rw other refl)

pub length-drop_elem :
    (c : ℕ) (s : List ℕ)
    → is_slash c ≡ false
    → length (drop (elem_length (c ∷ s)) (c ∷ s)) < length (c ∷ s)
unfolding elem_length
length-drop_elem c s other = rw other (omega (arith, length-drop (elem_length s) s))

pub slash_or_end-elem_length : (path : List ℕ) → slash_or_end path ≡ elem_length path
unfolding index_slash elem_length
slash_or_end-elem_length [] = refl
slash_or_end-elem_length (c ∷ path) = ground (arith, slash_or_end-elem_length path)

pub words_from-append :
    (word path rest : List ℕ)
    → words_from word (path ++ (b'/' ∷ rest)) ≡ words_from word path ++ words rest
unfolding words_from is_slash
words_from-append word [] rest = refl
words_from-append word (c ∷ path) rest =
    rw (words_from-append (if is_slash c then [] else word ++ (c ∷ [])) path rest)
      (sym (append_assoc (if is_slash c then flush word else []) _ (words rest)))

-- A slash separates: the elements of the two sides follow one another.
pub words-append : (path rest : List ℕ) → words (path ++ (b'/' ∷ rest)) ≡ words path ++ words rest
words-append path rest = words_from-append [] path rest
