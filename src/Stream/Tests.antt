-- ===== src/Stream/Tests.antt =====
-- Readers of numbers.
use mathlib.Core.List.{flatten}
use timecraft.Common.{
  All, List, [], arith, drop, none, refl, some, suc, take, zero, ℕ, ◌*◌, ◌-◌, ◌^◌, ◌∷◌, ◌≡◌,
}
use timecraft.Common.Int.{pos}
use timecraft.Common.Result.{err, ok}
use timecraft.Stream.{Reader, eof, multi_read, no_progress, unexpected_eof}
use timecraft.Stream.AtLeast.{at_least_loop, read_at_least}
use timecraft.Stream.AtLeast.Ends.{IsAtLeast, Progresses, read_at_least_lem}
use timecraft.Stream.Multi.{Filled, end_of, multi_read_lem}
use timecraft.Stream.ReadAll.{read_all}
use timecraft.Stream.ReadAll.Contents.{read_all-multi_read}
use timecraft.Stream.Seek.{
  offset_out_of_range, seek, seek_current, seek_end, seek_lem, seek_start, sought,
}
use timecraft.Wasicall.Words.{uint64}

abbrev two_readers : List (List ℕ)
two_readers = (1 ∷ 2 ∷ []) ∷ (3 ∷ 4 ∷ 5 ∷ []) ∷ []

multi_read-across : multi_read two_readers 4 ≡ ((1 ∷ 2 ∷ 3 ∷ 4 ∷ [], none), (5 ∷ []) ∷ [])
unfolding multi_read
multi_read-across = refl

-- An empty reader ends a read with an error, although more values follow.
multi_read-empty_first : multi_read ([] ∷ two_readers) 4 ≡ (([], some no_progress), two_readers)
unfolding multi_read
multi_read-empty_first = refl

multi_read_lem_example :
    ((multi_read two_readers 4).0.0 ≡ take 4 (flatten two_readers))
    × (flatten (multi_read two_readers 4).1 ≡ drop 4 (flatten two_readers))
    × All Filled (multi_read two_readers 4).1
    × ((multi_read two_readers 4).0.1 ≡ end_of (multi_read two_readers 4).1)
multi_read_lem_example = multi_read_lem two_readers 4 (tt, (tt, tt))

-- Two steps back from the end of five values, where the offset was one.
seek_lem_example : seek 1 5 (uint64 (pos 2)) seek_end ≡ sought 1 5 (pos 2) seek_end
seek_lem_example = seek_lem 1 5 (pos 2) seek_end (omega arith) (omega arith) (omega arith)

seek-back : seek 1 5 2 seek_end ≡ ok 3
unfolding seek
seek-back = refl

-- The length -1 is below the offset 5.
seek-negative_length : seek 0 (2 ^ 64 - 1) 5 seek_start ≡ ok (2 ^ 64 - 1)
unfolding seek
seek-negative_length = refl

-- A step of -2 from the offset 1.
seek-negative : seek 1 5 (2 ^ 64 - 2) seek_current ≡ err offset_out_of_range
unfolding seek
seek-negative = refl

-- A reader that gives one number in each Read.
abbrev one_by_one : Reader ℕ (List ℕ)
one_by_one [] space = (([], some eof), [])
one_by_one (x ∷ numbers) zero = (([], none), x ∷ numbers)
one_by_one (x ∷ numbers) (suc space) = ((x ∷ [], none), numbers)

one_by_one-Progresses : Progresses one_by_one
one_by_one-Progresses [] space = (omega arith, λ e lt. absurd (cc e))
one_by_one-Progresses (x ∷ numbers) zero = (omega arith, λ e lt. absurd (omega (arith, lt)))
one_by_one-Progresses (x ∷ numbers) (suc space) = (omega arith, λ e lt. omega arith)

read_at_least_lem_example : IsAtLeast 4 3 (read_at_least 4 one_by_one (1 ∷ 2 ∷ []) 4 3)
read_at_least_lem_example =
    read_at_least_lem one_by_one (1 ∷ 2 ∷ []) 4 3 one_by_one-Progresses (omega arith)

read_at_least-short :
    read_at_least 4 one_by_one (1 ∷ 2 ∷ []) 4 3 ≡ some ((1 ∷ 2 ∷ [], some unexpected_eof), [])
unfolding read_at_least at_least_loop
read_at_least-short = refl

abbrev tripled : ℕ → ℕ
tripled n = 3 * n

read_all-multi_read_example :
    (after : List (List ℕ)) × (read_all tripled 6 multi_read two_readers
      ≡ some ((1 ∷ 2 ∷ 3 ∷ 4 ∷ 5 ∷ [], none), after))
    × (flatten after ≡ [])
unfolding read_all flatten
read_all-multi_read_example =
    read_all-multi_read tripled two_readers (λ n. omega arith) (tt, (tt, tt))
