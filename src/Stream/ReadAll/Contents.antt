-- ===== src/Stream/ReadAll/Contents.antt =====
-- ReadAll of a reader whose contents are a list, and of MultiReader.
use mathlib.Core.List.{flatten}
use timecraft.Common.{
  All, Bool-cases, List, [], ap, append-nil, append_assoc, arith, drop, inl, inr, length,
  length-append, length-drop, none, refl, some, suc, sym, take, zero, ℕ, ◌*◌, ◌++◌, ◌-◌, ◌<◌, ◌==◌,
  ◌∙◌, ◌∷◌, ◌≡◌, ◌≤◌, ◌⊎◌,
}
use timecraft.Stream.{Reader, eof, multi_read}
use timecraft.Stream.Multi.{Filled, end_of, multi_read_lem}
use timecraft.Stream.ReadAll.{next_capacity, read_all, read_all_loop}

-- A reader in a valid state gives its contents in order, as many as there is space for, keeps the
-- rest, and reports the end of the file exactly where nothing is left.
abbrev pub Gives : {A S : Type 0} → (S → Type 0) → (S → List A) → Reader A S → Type 0
Gives {S = S} Valid contents reader =
    (s : S) (space : ℕ)
    → Valid s
    → ((reader s space).0.0 ≡ take space (contents s))
      × (contents (reader s space).1 ≡ drop space (contents s))
      × Valid (reader s space).1
      × (((contents (reader s space).1 ≡ []) × ((reader s space).0.1 ≡ some eof))
          ⊎ ((0 < length (contents (reader s space).1)) × ((reader s space).0.1 ≡ none)))

-- append asks for an array of three times the length.
abbrev pub Grows : (ℕ → ℕ) → Type 0
Grows grow = (n : ℕ) → 3 * n ≤ grow n

next_capacity-room :
    (grow : ℕ → ℕ) (used capacity : ℕ)
    → Grows grow
    → used ≤ capacity
    → 0 < capacity
    → used < next_capacity grow used capacity
next_capacity-room grow used capacity grows fits some_space = elim (Bool-cases (used == capacity)) [
  | inl full ↦
      let room = grows used in
      let e : used ≡ capacity = ground (arith, full) in rw full (omega (arith, room, e, some_space))
  | inr free ↦ rw free (ground (arith, free, fits))
]

take-fits : {A : Type 0} (n : ℕ) (xs : List A) → length (take n xs) ≤ n
take-fits zero xs = omega arith
take-fits (suc n) [] = omega arith
take-fits (suc n) (x ∷ xs) = omega (arith, take-fits n xs)

take-append-drop : {A : Type 0} (n : ℕ) (xs : List A) → take n xs ++ drop n xs ≡ xs
take-append-drop zero xs = refl
take-append-drop (suc n) [] = refl
take-append-drop (suc n) (x ∷ xs) = ap (λ t. x ∷ t) (take-append-drop n xs)

read_all_loop-contents :
    {A S : Type 0} {Valid : S → Type 0} {contents : S → List A} (grow : ℕ → ℕ) (fuel : ℕ)
    (reader : Reader A S) (capacity : ℕ) (values : List A) (s : S)
    → Grows grow
    → Gives Valid contents reader
    → Valid s
    → length values ≤ capacity
    → 0 < capacity
    → length (contents s) < fuel
    → (after : S) × (read_all_loop grow fuel reader capacity values s
        ≡ some ((values ++ contents s, none), after))
      × (contents after ≡ [])
unfolding read_all_loop
read_all_loop-contents grow zero reader capacity values s grows gives valid fits some_space enough =
    absurd (omega (arith, enough))
read_all_loop-contents {contents = contents} grow (suc fuel) reader capacity values s grows gives
      valid fits some_space enough =
    let next = next_capacity grow (length values) capacity in
    let room = next_capacity-room grow (length values) capacity grows fits some_space in
    let space = next - length values in
    let more = (reader s space).0.0 in
    let after = (reader s space).1 in
    let (given, left, still_valid, ended) = gives s space valid in
    let rejoined =
      ap (λ t. t ++ contents after) given
      ∙ (ap (λ t. take space (contents s) ++ t) left ∙ take-append-drop space (contents s)) in
    elim ended [
      | inl (nothing, at_end) ↦
          let all_given : more ≡ contents s =
            sym (append-nil more) ∙ (ap (λ t. more ++ t) (sym nothing) ∙ rejoined) in
          rw (at_end, all_given) (after, refl, nothing)
      | inr (something, no_error) ↦
          let shorter = length-drop space (contents s) in
          let got = ap length left ∙ shorter in
          let (last, all, empty) =
            read_all_loop-contents grow fuel reader next (values ++ more) after grows gives
              still_valid
              (omega (
                arith,
                length-append values more,
                ap length given,
                take-fits space (contents s),
                room,
              ))
              (omega (arith, room)) (omega (arith, got, something, enough, room)) in
          rw no_error (
            last,
            all
                ∙ ap (λ t. some ((t, none), last))
                    (append_assoc values more (contents after) ∙ ap (λ t. values ++ t) rejoined),
            empty,
          )
    ]

-- If append at least triples the capacity, ReadAll of a reader that gives a list's values in order,
-- and the end of the file with the last of them, returns this list and no error, after at most as many
-- reads as it has values and one more; nothing is left in the reader.
pub read_all_lem :
    {A S : Type 0} (Valid : S → Type 0) (contents : S → List A) (grow : ℕ → ℕ) (reader : Reader A S)
    (s : S)
    → Grows grow
    → Gives Valid contents reader
    → Valid s
    → (after : S) × (read_all grow (suc (length (contents s))) reader s
        ≡ some ((contents s, none), after))
      × (contents after ≡ [])
unfolding read_all
read_all_lem Valid contents grow reader s grows gives valid =
    read_all_loop-contents grow (suc (length (contents s))) reader 1 [] s grows gives valid
      (omega arith) (omega arith) (omega arith)

end_of-flatten :
    {A : Type 0} (readers : List (List A))
    → All Filled readers
    → ((flatten readers ≡ []) × (end_of readers ≡ some eof))
      ⊎ ((0 < length (flatten readers)) × (end_of readers ≡ none))
unfolding flatten
end_of-flatten [] filled = inl (refl, refl)
end_of-flatten ([] ∷ readers) filled = absurd filled.0
end_of-flatten ((x ∷ r) ∷ readers) filled = inr (omega arith, refl)

multi_read-Gives : {A : Type 0} → Gives (All Filled) flatten (multi_read {A = A})
multi_read-Gives readers space filled =
    let (given, left, still_filled, end) = multi_read_lem readers space filled in
    (
      given,
      left,
      still_filled,
      elim (end_of-flatten (multi_read readers space).1 still_filled) [
        | inl (nothing, at_end) ↦ inl (nothing, end ∙ at_end)
        | inr (something, no_error) ↦ inr (something, end ∙ no_error)
      ],
    )

-- If append at least triples the capacity and no reader is empty, ReadAll of a MultiReader returns
-- the values of all its readers in a row, and no error, within one read more than there are values.
pub read_all-multi_read :
    {A : Type 0} (grow : ℕ → ℕ) (readers : List (List A))
    → Grows grow
    → All Filled readers
    → (after : List (List A)) × (read_all grow (suc (length (flatten readers))) multi_read readers
        ≡ some ((flatten readers, none), after))
      × (flatten after ≡ [])
read_all-multi_read grow readers grows filled =
    read_all_lem (All Filled) flatten grow multi_read readers grows multi_read-Gives filled
