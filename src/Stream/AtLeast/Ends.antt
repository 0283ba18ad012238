-- ===== src/Stream/AtLeast/Ends.antt =====
-- ReadAtLeast ends, and what it returns.
use timecraft.Common.{
  Bool-cases, List, Option, [], arith, false, inl, inr, leb, leb→le, length, length-append, ltb,
  ltb→lt, none, refl, some, suc, zero, ℕ, ◌++◌, ◌+◌, ◌-◌, ◌<◌, ◌↔◌, ◌≡◌, ◌≢◌, ◌≤◌, ◌⊎◌,
}
use timecraft.Stream.{Reader, StreamError, eof}
use timecraft.Stream.AtLeast.{at_least_loop, end_loop, read_at_least, settle, unexpected}

-- What the Reader interface says of a Read: it gives no more than there is space for, and where there
-- is space it gives a value or an error.
abbrev pub Progresses : {A S : Type 0} → Reader A S → Type 0
Progresses {S = S} reader =
    (s : S) (space : ℕ)
    → (length (reader s space).0.0 ≤ space)
      × (((reader s space).0.1 ≡ none) → 0 < space → 0 < length (reader s space).0.0)

-- The loop left with enough values or with an error.
abbrev Left : {A S : Type 0} → ℕ → ℕ → Option ((List A × Option StreamError) × S) → Type 0
Left space min none = ⊥
Left space min (some ((got, error), s)) =
    (length got ≤ space) × ((min ≤ length got) ⊎ (error ≢ none))

at_least_loop-Left :
    {A S : Type 0} (fuel : ℕ) (reader : Reader A S) (space min : ℕ) (got : List A)
    (error : Option StreamError) (s : S)
    → Progresses reader
    → min ≤ space
    → length got ≤ space
    → 0 < fuel
    → ((error ≡ none) → min < fuel + length got)
    → Left space min (at_least_loop fuel reader space min got error s)
unfolding at_least_loop
at_least_loop-Left zero reader space min got error s progress room fits some_fuel enough =
    absurd (omega (arith, some_fuel))
at_least_loop-Left (suc fuel) reader space min got (some e) s progress room fits some_fuel enough =
    (fits, inr λ none_left. absurd (cc none_left))
at_least_loop-Left (suc fuel) reader space min got none s progress room fits some_fuel enough =
    elim (Bool-cases (ltb (length got) min)) [
      | inr enough_got ↦ rw enough_got (fits, inl (ground (arith, enough_got)))
      | inl more ↦
          let lt = ltb→lt _ _ more in
          let step = progress s (space - length got) in
          let values = (reader s (space - length got)).0.0 in
          let sum = length-append got values in
          rw more (
            at_least_loop-Left fuel reader space min (got ++ values)
              (reader s (space - length got)).0.1 (reader s (space - length got)).1 progress room
              (omega (arith, sum, step.0, fits)) (omega (arith, enough refl, lt))
              λ none_left.
                let gained = step.1 none_left (omega (arith, lt, room)) in
                omega (arith, sum, gained, enough refl))
    ]

-- What ReadAtLeast returns.
abbrev pub IsAtLeast : {A S : Type 0} → ℕ → ℕ → Option ((List A × Option StreamError) × S) → Type 0
IsAtLeast space min none = ⊥
IsAtLeast space min (some ((got, error), s)) =
    (length got ≤ space)
    × ((error ≡ none) ↔ (min ≤ length got))
    × ((error ≢ some eof) ⊎ (length got ≡ 0))

unexpected-none : (error : Option StreamError) → (unexpected error ≡ none) → error ≡ none
unexpected-none none e = refl
unexpected-none (some eof) e = absurd (cc e)
unexpected-none (some _) e = absurd (cc e)

unexpected-eof : (error : Option StreamError) → unexpected error ≢ some eof
unexpected-eof none e = absurd (cc e)
unexpected-eof (some eof) e = absurd (cc e)
unexpected-eof (some _) e = absurd (cc e)

enough_values :
    {A : Type 0} {min : ℕ} (got : List A) {error : Option StreamError}
    → (min ≤ length got) ⊎ (error ≢ none)
    → (error ≡ none)
    → min ≤ length got
enough_values got (inl enough_got) e = enough_got
enough_values got (inr not_none) e = absurd (not_none e)

settle-none :
    {A : Type 0} (min : ℕ) (got : List A) (error : Option StreamError)
    → (min ≤ length got) ⊎ (error ≢ none)
    → (settle min got error ≡ none) ↔ (min ≤ length got)
settle-none min got error left = elim (Bool-cases (leb min (length got))) [
  | inl enough_got ↦ rw enough_got (λ e. leb→le _ _ enough_got, λ le. refl)
  | inr short ↦ elim (Bool-cases (ltb 0 (length got))) [
    | inl some_got ↦
        rw (short, some_got)
          (
            λ e. enough_values got left (unexpected-none error e),
            λ le. absurd (ground (arith, short)),
          )
    | inr none_got ↦
        rw (short, none_got) (λ e. enough_values got left e, λ le. absurd (ground (arith, short)))
  ]
]

settle-eof :
    {A : Type 0} (min : ℕ) (got : List A) (error : Option StreamError)
    → (settle min got error ≢ some eof) ⊎ (length got ≡ 0)
settle-eof min got error = elim (Bool-cases (leb min (length got))) [
  | inl enough_got ↦ rw enough_got (inl λ e. cc e)
  | inr short ↦ elim (Bool-cases (ltb 0 (length got))) [
    | inl some_got ↦ rw (short, some_got) (inl (unexpected-eof error))
    | inr none_got ↦ inr (ground (arith, none_got))
  ]
]

end_loop-IsAtLeast :
    {A S : Type 0} (space min : ℕ) (outcome : Option ((List A × Option StreamError) × S))
    → Left space min outcome
    → IsAtLeast space min (end_loop min outcome)
end_loop-IsAtLeast space min none left = absurd left
end_loop-IsAtLeast space min (some ((got, error), s)) (fits, left) =
    (fits, settle-none min got error left, settle-eof min got error)

-- If the reader gives a value or an error whenever there is space, and no more than fits, ReadAtLeast
-- into a buffer of at least `min` elements returns after at most `min` reads and one more test: with
-- no more values than fit, with no error exactly where it has at least `min` values, and with the end
-- of the file only where it has none.
pub read_at_least_lem :
    {A S : Type 0} (reader : Reader A S) (s : S) (space min : ℕ)
    → Progresses reader
    → min ≤ space
    → IsAtLeast space min (read_at_least (suc min) reader s space min)
unfolding read_at_least
read_at_least_lem reader s space min progress room =
    let long_enough : ltb space min ≡ false = ground (arith, room) in
    rw long_enough (
      end_loop-IsAtLeast space min _ (
        at_least_loop-Left (suc min) reader space min [] none s progress room (omega arith)
          (omega arith) λ e. omega arith))
