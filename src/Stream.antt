-- ===== src/Stream.antt =====
-- internal/stream: the reader of a sequence of values, and the reader of several such readers in
-- turn. A Read is given the space that the caller has, and yields what it read, the error, and the
-- reader after.
pub mod Seek
pub mod AtLeast
pub mod ReadAll
mod Multi
mod Tests
use timecraft.Common.{
  List, Option, [], drop, length, none, some, suc, take, zero, ℕ, ◌++◌, ◌-◌, ◌∷◌,
}

pub data StreamError : Type 0 where
  eof no_progress short_buffer unexpected_eof : StreamError
  failure : ℕ → StreamError

-- A reader whose state is S: what a Read into so much space yields, and the state after it.
abbrev pub Reader : Type 0 → Type 0 → Type 0
Reader A S = S → ℕ → (List A × Option StreamError) × S

-- `copy` and the reslicing that follows it.
unfoldable pub read {ℓ} : {A : Type ℓ} → List A → ℕ → (List A × Option StreamError) × List A
read values space =
    let rest = drop space values in
    ((take space values, elim rest [ [] ↦ some eof | _ ∷ _ ↦ none ]), rest)

-- The body of the loop after the read: at the end of a reader the next one is up, another error or a
-- round that reads nothing ends the loop. A reader that is not at its end has filled the space.
abbrev pub after_read {ℓ} :
    {A : Type ℓ}
    → List A
    → Option StreamError
    → List A
    → List (List A)
    → (List A × Option StreamError) × List (List A)
    → (List A × Option StreamError) × List (List A)
after_read [] none left readers more = (([], some no_progress), left ∷ readers)
after_read (x ∷ values) none left readers more = ((x ∷ values, none), left ∷ readers)
after_read [] (some eof) left readers more = (([], some no_progress), readers)
after_read (x ∷ values) (some eof) left readers ((others, end), rest) =
    ((x ∷ values ++ others, end), rest)
after_read values (some error) left readers more = ((values, some error), left ∷ readers)

-- The rounds of multiReader.Read: what the first reader gave, and the rounds over the others.
unfoldable pub multi_read {ℓ} :
    {A : Type ℓ} → List (List A) → ℕ → (List A × Option StreamError) × List (List A)
unfolding read
multi_read [] space = (([], some eof), [])
multi_read (r ∷ readers) zero = (([], none), r ∷ readers)
multi_read (r ∷ readers) (suc space) =
    let ((values, error), left) = read r (suc space) in
    let more = multi_read readers (suc space - length values) in
    after_read values error left readers more
