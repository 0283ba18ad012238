-- ===== src/Fspath/Rendered.antt =====
-- What the end of AppendClean writes, for elements that are names.
use mathlib.Core.Path.{subst}
use timecraft.Common.{
  All, Bool, List, [], append-nil, append_assoc, false, if◌then◌else◌, inl, inr, refl, sym, true, ℕ,
  ◌&&◌, ◌++◌, ◌∙◌, ◌∷◌, ◌≡◌, ◌⊎◌,
}
use timecraft.Fspath.{has_trailing_slash, is_abs, is_slash, join_elems, render}
use timecraft.Fspath.Names.{IsName, SlashFree, names, names-join_elems, words-join_elems}
use timecraft.Fspath.Words.{words, words-append, words_from}

abbrev pub with_root : Bool → List (List ℕ) → List (List ℕ)
with_root true elems = [] ∷ elems
with_root false elems = elems

abbrev pub slash_if : Bool → List ℕ
slash_if trailing = if trailing then b'/' ∷ [] else []

pub has_trailing_slash-append :
    (xs : List ℕ) (y : ℕ) (ys : List ℕ)
    → has_trailing_slash (xs ++ (y ∷ ys)) ≡ has_trailing_slash (y ∷ ys)
unfolding has_trailing_slash
has_trailing_slash-append [] y ys = refl
has_trailing_slash-append (x ∷ []) y ys = refl
has_trailing_slash-append (x ∷ z ∷ xs) y ys = has_trailing_slash-append (z ∷ xs) y ys

has_trailing_slash-SlashFree : (word : List ℕ) → SlashFree word → has_trailing_slash word ≡ false
unfolding has_trailing_slash
has_trailing_slash-SlashFree [] free = refl
has_trailing_slash-SlashFree (c ∷ []) free = free.0
has_trailing_slash-SlashFree (c ∷ d ∷ word) free = has_trailing_slash-SlashFree (d ∷ word) free.1

has_trailing_slash-IsName : (word : List ℕ) → IsName word → has_trailing_slash word ≡ false
has_trailing_slash-IsName [] h = absurd h
has_trailing_slash-IsName (c ∷ word) h = has_trailing_slash-SlashFree (c ∷ word) h.0

join_elems-cons :
    (elem : List ℕ) (elems : List (List ℕ))
    → All IsName (elem ∷ elems)
    → (c : ℕ) × (s : List ℕ) × (join_elems (elem ∷ elems) ≡ c ∷ s) × (is_slash c ≡ false)
unfolding join_elems
join_elems-cons [] elems h = absurd h.0
join_elems-cons (c ∷ word) [] h = (c, word, refl, h.0.0.0)
join_elems-cons (c ∷ word) (next ∷ elems) h =
    (c, word ++ (b'/' ∷ join_elems (next ∷ elems)), refl, h.0.0.0)

has_trailing_slash-join_elems :
    (elem : List ℕ) (elems : List (List ℕ))
    → All IsName (elem ∷ elems)
    → has_trailing_slash (join_elems (elem ∷ elems)) ≡ false
unfolding join_elems has_trailing_slash
has_trailing_slash-join_elems elem [] h = has_trailing_slash-IsName elem h.0
has_trailing_slash-join_elems elem (next ∷ elems) h =
    let (c, s, start, _) = join_elems-cons next elems h.1 in
    has_trailing_slash-append elem b'/' (join_elems (next ∷ elems))
    ∙ (rw start (rw start at (has_trailing_slash-join_elems next elems h.1)))

words-slash_if : (path : List ℕ) (trailing : Bool) → words (path ++ slash_if trailing) ≡ words path
unfolding words_from
words-slash_if path true = words-append path [] ∙ append-nil (words path)
words-slash_if path false = rw append-nil refl

-- Every rendered path holds the names it was rendered from, and keeps whether it is absolute.
pub names-render :
    (root : Bool) (elems : List (List ℕ)) (trailing : Bool)
    → All IsName elems
    → names (render (with_root root elems) trailing) ≡ elems
unfolding render join_elems words_from is_slash
names-render false [] trailing h = refl
names-render true [] trailing h = refl
names-render false ([] ∷ elems) trailing h = absurd h.0
names-render false ((c ∷ word) ∷ elems) trailing h =
    rw (words-slash_if (join_elems ((c ∷ word) ∷ elems)) trailing)
      (names-join_elems ((c ∷ word) ∷ elems) h)
names-render true (elem ∷ elems) trailing h =
    rw (words-slash_if (join_elems (elem ∷ elems)) trailing) (names-join_elems (elem ∷ elems) h)

pub is_abs-render :
    (root : Bool) (elems : List (List ℕ)) (trailing : Bool)
    → All IsName elems
    → is_abs (render (with_root root elems) trailing) ≡ root
unfolding render join_elems is_abs is_slash
is_abs-render false [] trailing h = refl
is_abs-render true [] trailing h = refl
is_abs-render false ([] ∷ elems) trailing h = absurd h.0
is_abs-render false ((c ∷ word) ∷ []) trailing h = h.0.0.0
is_abs-render false ((c ∷ word) ∷ next ∷ elems) trailing h = h.0.0.0
is_abs-render true (elem ∷ elems) trailing h = refl

pub has_trailing_slash-render :
    (root : Bool) (elem : List ℕ) (elems : List (List ℕ)) (trailing : Bool)
    → All IsName (elem ∷ elems)
    → has_trailing_slash (render (with_root root (elem ∷ elems)) trailing) ≡ trailing
unfolding render join_elems has_trailing_slash is_slash
has_trailing_slash-render root [] elems trailing h = absurd h.0
has_trailing_slash-render false (c ∷ word) elems true h =
    has_trailing_slash-append (join_elems ((c ∷ word) ∷ elems)) b'/' []
has_trailing_slash-render false (c ∷ word) elems false h =
    rw (append-nil (join_elems ((c ∷ word) ∷ elems)))
      (has_trailing_slash-join_elems (c ∷ word) elems h)
has_trailing_slash-render true (c ∷ word) elems true h =
    has_trailing_slash-append (b'/' ∷ join_elems ((c ∷ word) ∷ elems)) b'/' []
has_trailing_slash-render true (c ∷ word) elems false h =
    let (d, s, start, _) = join_elems-cons (c ∷ word) elems h in
    rw (append-nil (join_elems ((c ∷ word) ∷ elems)))
      (rw start (rw start at (has_trailing_slash-join_elems (c ∷ word) elems h)))

pub render-cons :
    (root : Bool) (elems : List (List ℕ)) (trailing : Bool)
    → All IsName elems
    → (c : ℕ) × (s : List ℕ) × (render (with_root root elems) trailing ≡ c ∷ s)
unfolding render join_elems
render-cons false [] trailing h = (b'.', [], refl)
render-cons true [] trailing h = (b'/', [], refl)
render-cons false ([] ∷ elems) trailing h = absurd h.0
render-cons false ((c ∷ word) ∷ []) trailing h = (c, word ++ slash_if trailing, refl)
render-cons false ((c ∷ word) ∷ next ∷ elems) trailing h =
    (c, (word ++ (b'/' ∷ join_elems (next ∷ elems))) ++ slash_if trailing, refl)
render-cons true (elem ∷ elems) trailing h =
    (b'/', join_elems (elem ∷ elems) ++ slash_if trailing, refl)

-- No slash stands next to another.
abbrev pub SingleSlashes : List ℕ → Type 0
SingleSlashes [] = Unit
SingleSlashes (c ∷ path) = ((is_slash c && is_abs path) ≡ false) × SingleSlashes path

SingleSlashes-append :
    (word path : List ℕ) → SlashFree word → SingleSlashes path → SingleSlashes (word ++ path)
SingleSlashes-append [] path free single = single
SingleSlashes-append (c ∷ word) path free single =
    (rw (free.0) refl, SingleSlashes-append word path free.1 single)

SlashFree-IsName : (word : List ℕ) → IsName word → SlashFree word
SlashFree-IsName [] h = absurd h
SlashFree-IsName (c ∷ word) h = h.0

SingleSlashes-join_elems :
    (elem : List ℕ) (elems : List (List ℕ)) (rest : List ℕ)
    → All IsName (elem ∷ elems)
    → SingleSlashes rest
    → SingleSlashes (join_elems (elem ∷ elems) ++ rest)
      × SingleSlashes (b'/' ∷ (join_elems (elem ∷ elems) ++ rest))
unfolding join_elems is_abs is_slash
SingleSlashes-join_elems [] elems rest h single = absurd h.0
SingleSlashes-join_elems (c ∷ word) [] rest h single =
    let all = SingleSlashes-append (c ∷ word) rest h.0.0 single in (all, (h.0.0.0, all))
SingleSlashes-join_elems (c ∷ word) (next ∷ elems) rest h single =
    let (later, joined) = SingleSlashes-join_elems next elems rest h.1 single in
    let all : SingleSlashes (((c ∷ word) ++ (b'/' ∷ join_elems (next ∷ elems))) ++ rest) =
      subst SingleSlashes (sym (append_assoc (c ∷ word) (b'/' ∷ join_elems (next ∷ elems)) rest))
        (SingleSlashes-append (c ∷ word) _ h.0.0 joined) in
    (all, (h.0.0.0, all))

SingleSlashes-slash_if : (trailing : Bool) → SingleSlashes (slash_if trailing)
unfolding is_abs is_slash
SingleSlashes-slash_if true = (refl, tt)
SingleSlashes-slash_if false = tt

pub SingleSlashes-render :
    (root : Bool) (elems : List (List ℕ)) (trailing : Bool)
    → All IsName elems
    → SingleSlashes (render (with_root root elems) trailing)
unfolding render join_elems is_abs is_slash
SingleSlashes-render false [] trailing h = (refl, tt)
SingleSlashes-render true [] trailing h = (refl, tt)
SingleSlashes-render false ([] ∷ elems) trailing h = absurd h.0
SingleSlashes-render false ((c ∷ word) ∷ elems) trailing h =
    (SingleSlashes-join_elems (c ∷ word) elems (slash_if trailing) h
      (SingleSlashes-slash_if trailing)).0
SingleSlashes-render true (elem ∷ elems) trailing h =
    (SingleSlashes-join_elems elem elems (slash_if trailing) h (SingleSlashes-slash_if trailing)).1

-- The elements of a rendered path are the names, unless it stands for no names at all.
pub words-render :
    (root : Bool) (elems : List (List ℕ)) (trailing : Bool)
    → All IsName elems
    → (words (render (with_root root elems) trailing) ≡ elems)
      ⊎ (render (with_root root elems) trailing ≡ b'.' ∷ [])
unfolding render join_elems words_from is_slash
words-render false [] trailing h = inr refl
words-render true [] trailing h = inl refl
words-render false ([] ∷ elems) trailing h = absurd h.0
words-render false ((c ∷ word) ∷ elems) trailing h = inl (
    words-slash_if (join_elems ((c ∷ word) ∷ elems)) trailing
    ∙ words-join_elems ((c ∷ word) ∷ elems) h)
words-render true (elem ∷ elems) trailing h =
    inl (words-slash_if (join_elems (elem ∷ elems)) trailing ∙ words-join_elems (elem ∷ elems) h)

pub trailing-render :
    (root : Bool) (elems : List (List ℕ)) (trailing : Bool)
    → All IsName elems
    → (elems ≡ []) ⊎ (has_trailing_slash (render (with_root root elems) trailing) ≡ trailing)
trailing-render root [] trailing h = inl refl
trailing-render root (elem ∷ elems) trailing h =
    inr (has_trailing_slash-render root elem elems trailing h)
