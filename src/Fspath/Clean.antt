-- ===== src/Fspath/Clean.antt =====
-- fspath.AppendClean and Clean.
use timecraft.Common.{
  All, Bool, Bool-cases, List, [], ap, arith, drop, false, inl, inr, length, refl, some, suc, sym,
  take, true, zero, ℕ, ◌++◌, ◌<◌, ◌∙◌, ◌∷◌, ◌≡◌, ◌≢◌, ◌⊎◌,
}
use timecraft.Fspath.{
  append_clean, clean, clean_elems, depth, depth_step, elem_length, has_trailing_slash, is_abs,
  is_dot, render,
}
use timecraft.Fspath.Depth.{depth-words, depth_of}
use timecraft.Fspath.Names.{IsName, names, names-IsName, without_dots}
use timecraft.Fspath.Rendered.{
  SingleSlashes, SingleSlashes-render, has_trailing_slash-render, is_abs-render, names-render,
  render-cons, trailing-render, with_root, words-render,
}
use timecraft.Fspath.Words.{
  length-drop_elem, length-trim_leading_slash, trim_leading_slash-cases, words, words-elem_length,
  words-trim_leading_slash, words_from,
}

clean_elems-names :
    (fuel : ℕ) (path : List ℕ) → length path < fuel → clean_elems fuel path ≡ some (names path)
unfolding clean_elems words_from
clean_elems-names zero path enough = absurd (omega arith)
clean_elems-names (suc fuel) path enough = elim (trim_leading_slash-cases path) [
  | inl end ↦ rw (← words-trim_leading_slash path) (rw (end, clean_elems) refl)
  | inr (c, s, start, other) ↦
      let shorter = length-trim_leading_slash path in
      let rest =
        clean_elems-names fuel (drop (elem_length (c ∷ s)) (c ∷ s))
          (omega (arith, ap length start, length-drop_elem c s other)) in
      rw (← words-trim_leading_slash path) (
        rw (start, clean_elems, words-elem_length c s other, rest)
          (elim (Bool-cases (is_dot (take (elem_length (c ∷ s)) (c ∷ s)))) [
            | inl dot ↦ rw dot refl
            | inr name ↦ rw name refl
          ]))
]

-- What AppendClean appends: its loop ends, with the names of the path.
pub append_clean-names :
    (buf path : List ℕ)
    → path ≢ []
    → append_clean buf path
      ≡ some (buf ++ render (with_root (is_abs path) (names path)) (has_trailing_slash path))
unfolding append_clean
append_clean-names buf [] nonempty = absurd (nonempty refl)
append_clean-names buf (c ∷ s) nonempty =
    rw (clean_elems-names (suc (length (c ∷ s))) (c ∷ s) (omega arith))
      (elim (Bool-cases (is_abs (c ∷ s))) [
        | inl root ↦ rw root refl
        | inr relative ↦ rw relative refl
      ])

clean-render_root :
    (root : Bool) (trailing : Bool)
    → clean (render (with_root root []) trailing) ≡ some (render (with_root root []) trailing)
unfolding clean
clean-render_root true trailing = refl
clean-render_root false trailing = refl

-- A rendered path is clean already.
clean-render :
    (root : Bool) (elems : List (List ℕ)) (trailing : Bool)
    → All IsName elems
    → clean (render (with_root root elems) trailing) ≡ some (render (with_root root elems) trailing)
unfolding clean
clean-render root [] trailing h = clean-render_root root trailing
clean-render root (elem ∷ elems) trailing h =
    let (c, s, start) = render-cons root (elem ∷ elems) trailing h in
    append_clean-names [] (render (with_root root (elem ∷ elems)) trailing)
      (λ empty. cc (sym start ∙ empty))
    ∙ rw
        (
          is_abs-render root (elem ∷ elems) trailing h,
          names-render root (elem ∷ elems) trailing h,
          has_trailing_slash-render root elem elems trailing h,
        )
        refl

depth_step-dot : (level : ℕ) (elem : List ℕ) → is_dot elem ≡ true → depth_step level elem ≡ level
unfolding depth_step
depth_step-dot level elem dot = rw dot refl

depth_of-without_dots :
    (level : ℕ) (elems : List (List ℕ)) → depth_of level (without_dots elems) ≡ depth_of level elems
depth_of-without_dots level [] = refl
depth_of-without_dots level (elem ∷ elems) = elim (Bool-cases (is_dot elem)) [
  | inl dot ↦ rw (dot, depth_step-dot level elem dot) (depth_of-without_dots level elems)
  | inr other ↦ rw other (depth_of-without_dots (depth_step level elem) elems)
]

-- The depth of a path depends on its names alone.
depth-names : (path : List ℕ) → depth path ≡ some (depth_of 0 (names path))
depth-names path = depth-words path ∙ ap some (sym (depth_of-without_dots 0 (words path)))

-- Clean returns, for every path, a path that has the same names, which are its elements but for
-- single dots. No single dot is left, unless it is the whole path, and no slash next to another. It is
-- absolute if and only if the path is, ends in a slash if and only if the path does (except where there
-- are no names), has the same depth, and is left by Clean as it is.
pub clean_lem :
    (path : List ℕ)
    → (cleaned : List ℕ) × (clean path ≡ some cleaned)
      × (names cleaned ≡ names path)
      × ((words cleaned ≡ names path) ⊎ (cleaned ≡ b'.' ∷ []))
      × SingleSlashes cleaned
      × (is_abs cleaned ≡ is_abs path)
      × ((names path ≡ []) ⊎ (has_trailing_slash cleaned ≡ has_trailing_slash path))
      × (depth cleaned ≡ depth path)
      × (clean cleaned ≡ some cleaned)
unfolding clean
clean_lem [] = ([], refl, refl, inl (unfold words_from in refl), tt, refl, inr refl, refl, refl)
clean_lem (c ∷ s) =
    let path : List ℕ = c ∷ s in
    let h = names-IsName path in
    let cleaned = render (with_root (is_abs path) (names path)) (has_trailing_slash path) in
    let same = names-render (is_abs path) (names path) (has_trailing_slash path) h in
    (
      cleaned,
      append_clean-names [] path (λ e. cc e),
      same,
      words-render (is_abs path) (names path) (has_trailing_slash path) h,
      SingleSlashes-render (is_abs path) (names path) (has_trailing_slash path) h,
      is_abs-render (is_abs path) (names path) (has_trailing_slash path) h,
      trailing-render (is_abs path) (names path) (has_trailing_slash path) h,
      depth-names cleaned ∙ ap (λ ns. some (depth_of 0 ns)) same ∙ sym (depth-names path),
      clean-render (is_abs path) (names path) (has_trailing_slash path) h,
    )
