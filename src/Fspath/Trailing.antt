-- ===== src/Fspath/Trailing.antt =====
-- fspath.TrimTrailingSlash.
use timecraft.Common.{
  ==_iff, Bool-cases, List, [], ap, append-nil, append_assoc, arith, false, get_elem?,
  get_elem?-some, inl, inr, length, refl, replicate, some, suc, sym, take, zero, ℕ, ◌++◌, ◌∙◌, ◌∷◌,
  ◌≡◌, ◌≤◌,
}
use timecraft.Fspath.{has_trailing_slash, is_slash, trailing_start, trim_trailing_slash}
use timecraft.Fspath.Rendered.{has_trailing_slash-append}

take-suc : (s : List ℕ) (i c : ℕ) → get_elem? s i ≡ some c → take (suc i) s ≡ take i s ++ (c ∷ [])
take-suc [] i c h = cc
take-suc (x ∷ s) zero c h = cc
take-suc (x ∷ s) (suc i) c h = ap (λ t. x ∷ t) (take-suc s i c h)

take-length : (s : List ℕ) → take (length s) s ≡ s
take-length [] = refl
take-length (x ∷ s) = ap (λ t. x ∷ t) (take-length s)

replicate-snoc : (k c : ℕ) → replicate k c ++ (c ∷ []) ≡ replicate (suc k) c
replicate-snoc zero c = refl
replicate-snoc (suc k) c = ap (λ t. c ∷ t) (replicate-snoc k c)

-- Of the bytes before i, those from the start that the loop finds are slashes, and the byte before
-- it is none.
trailing_start-slashes :
    (s : List ℕ) (i : ℕ)
    → i ≤ length s
    → (k : ℕ) × (take i s ≡ take (trailing_start s i) s ++ replicate k b'/')
      × (has_trailing_slash (take (trailing_start s i) s) ≡ false)
unfolding trailing_start
trailing_start-slashes s zero h = (0, refl, unfold has_trailing_slash in refl)
trailing_start-slashes s (suc i) h =
    let (c, there) = get_elem?-some s i (omega arith) in
    elim (Bool-cases (is_slash c)) [
      | inl slash ↦
          let (k, split, none_left) = trailing_start-slashes s i (omega arith) in
          let is_47 : c ≡ b'/' = unfold is_slash in (==_iff c b'/').0 slash in
          rw (there, trailing_start)
            (rw slash (
              suc k,
              take-suc s i c there
                  ∙ ap (λ d. take i s ++ (d ∷ [])) is_47
                  ∙ ap (λ t. t ++ (b'/' ∷ [])) split
                  ∙ append_assoc (take (trailing_start s i) s) (replicate k b'/') (b'/' ∷ [])
                  ∙ ap (λ t. take (trailing_start s i) s ++ t) (replicate-snoc k b'/'),
              none_left,
            ))
      | inr other ↦
          rw (there, trailing_start)
            (rw other (
              0,
              sym (append-nil (take (suc i) s)),
              ap has_trailing_slash (take-suc s i c there)
                  ∙ has_trailing_slash-append (take i s) c []
                  ∙ (unfold has_trailing_slash in other),
            ))
    ]

-- TrimTrailingSlash removes nothing but slashes at the end, and leaves none there.
pub trim_trailing_slash_lem :
    (s : List ℕ)
    → (k : ℕ) × (s ≡ trim_trailing_slash s ++ replicate k b'/')
      × (has_trailing_slash (trim_trailing_slash s) ≡ false)
unfolding trim_trailing_slash
trim_trailing_slash_lem s =
    let (k, split, none_left) = trailing_start-slashes s (length s) (omega arith) in
    (k, sym (take-length s) ∙ split, none_left)
