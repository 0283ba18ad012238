-- ===== src/Stream/Multi.antt =====
-- multiReader.Read against the values of its readers in a row.
use mathlib.Core.List.{flatten}
use timecraft.Common.{
  All, List, Option, [], ap, arith, drop, drop-append_long, drop-append_short, inl, inr, length,
  none, refl, some, suc, sym, take, take-all, take-append_long, take-append_short, zero, ℕ, ◌++◌,
  ◌-◌, ◌∙◌, ◌∷◌, ◌≡◌, ◌≤◌, ◌⊎◌,
}
use timecraft.Stream.{StreamError, eof, multi_read, read}

abbrev pub Filled {ℓ} : {A : Type ℓ} → List A → Type 0
Filled [] = ⊥
Filled (x ∷ values) = Unit

-- What a read leaves, and when it reports the end.
abbrev pub end_of {ℓ} : {A : Type ℓ} → List (List A) → Option StreamError
end_of [] = some eof
end_of (r ∷ readers) = none

drop-cases {ℓ} :
    {A : Type ℓ} (n : ℕ) (xs : List A)
    → ((drop n xs ≡ []) × (length xs ≤ n))
      ⊎ ((y : A) × (ys : List A) × (drop n xs ≡ y ∷ ys) × (n ≤ length xs))
drop-cases zero [] = inl (refl, omega arith)
drop-cases zero (x ∷ xs) = inr (x, xs, refl, omega arith)
drop-cases (suc n) [] = inl (refl, omega arith)
drop-cases (suc n) (x ∷ xs) = elim (drop-cases n xs) [
  | inl (none_left, enough) ↦ inl (none_left, omega arith)
  | inr (y, ys, left, more) ↦ inr (y, ys, left, omega arith)
]

-- If no reader is empty, a read of several readers gives the first values of all of them in a row,
-- as many as there is space for, and leaves the rest of the values in readers that are not empty;
-- its error is the end of the file if no reader is left, and else none.
pub multi_read_lem {ℓ} :
    {A : Type ℓ} (readers : List (List A)) (space : ℕ)
    → All Filled readers
    → ((multi_read readers space).0.0 ≡ take space (flatten readers))
      × (flatten (multi_read readers space).1 ≡ drop space (flatten readers))
      × All Filled (multi_read readers space).1
      × ((multi_read readers space).0.1 ≡ end_of (multi_read readers space).1)
unfolding multi_read read flatten
multi_read_lem [] zero filled = (refl, refl, tt, refl)
multi_read_lem [] (suc space) filled = (refl, refl, tt, refl)
multi_read_lem (r ∷ readers) zero filled = (refl, refl, filled, refl)
multi_read_lem ([] ∷ readers) (suc space) filled = absurd filled.0
multi_read_lem ((x ∷ r) ∷ readers) (suc space) filled = elim (drop-cases space r) [
  | inr (y, rest, left, more) ↦
      rw (left, read)
        (
          ap (λ t. x ∷ t) (sym (take-append_short space r (flatten readers) more)),
          ap (λ t. t ++ flatten readers) (sym left)
              ∙ sym (drop-append_short space r (flatten readers) more),
          (tt, filled.1),
          refl,
        )
  | inl (left, enough) ↦
      let space_left : suc space - suc (length r) ≡ space - length r = omega arith in
      let others = multi_read_lem readers (space - length r) filled.1 in
      rw (left, take-all space r enough, space_left, read)
        (
          ap (λ t. x ∷ r ++ t) others.0
              ∙ ap (λ t. x ∷ t) (sym (take-append_long space r (flatten readers) enough)),
          others.1 ∙ sym (drop-append_long space r (flatten readers) enough),
          others.2,
          others.3,
        )
]
