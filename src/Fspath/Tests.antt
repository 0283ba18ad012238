-- ===== src/Fspath/Tests.antt =====
-- The functions of fspath at concrete paths, and its properties there. The bytes 47, 46 and 97 to
-- 99 are the slash, the dot and the letters a to c.
use timecraft.Common.{
  List, [], false, length, refl, replicate, some, true, ℕ, ◌&&◌, ◌++◌, ◌<◌, ◌∷◌, ◌≡◌, ◌⊎◌,
}
use timecraft.Fspath.{
  clean, depth, has_trailing_slash, is_abs, is_root, join, trim_trailing_slash, walk,
}
use timecraft.Fspath.Clean.{clean_lem}
use timecraft.Fspath.Depth.{Entered, depth-Entered}
use timecraft.Fspath.Join.{join_lem}
use timecraft.Fspath.Names.{SlashFree, names}
use timecraft.Fspath.Rendered.{SingleSlashes}
use timecraft.Fspath.Root.{all_dots, is_root-words}
use timecraft.Fspath.Trailing.{trim_trailing_slash_lem}
use timecraft.Fspath.Walk.{walk_lem}
use timecraft.Fspath.Words.{words}

-- /a/./b//.. and ../c
abbrev absolute : List ℕ
absolute = 47 ∷ 97 ∷ 47 ∷ 46 ∷ 47 ∷ 98 ∷ 47 ∷ 47 ∷ 46 ∷ 46 ∷ []

abbrev relative : List ℕ
relative = 46 ∷ 46 ∷ 47 ∷ 99 ∷ []

clean-absolute : clean absolute ≡ some (47 ∷ 97 ∷ 47 ∷ 98 ∷ 47 ∷ 46 ∷ 46 ∷ [])
unfolding clean
clean-absolute = refl

-- A name joined to an empty directory becomes absolute.
join-nothing : join [] (97 ∷ []) ≡ some (47 ∷ 97 ∷ [])
unfolding join
join-nothing = refl

walk-absolute : walk absolute ≡ (47 ∷ [], 97 ∷ 47 ∷ 46 ∷ 47 ∷ 98 ∷ 47 ∷ 47 ∷ 46 ∷ 46 ∷ [])
unfolding walk
walk-absolute = refl

depth-absolute : depth absolute ≡ some 1
unfolding depth
depth-absolute = refl

clean_lem_example :
    (cleaned : List ℕ) × (clean absolute ≡ some cleaned)
    × (names cleaned ≡ names absolute)
    × ((words cleaned ≡ names absolute) ⊎ (cleaned ≡ 46 ∷ []))
    × SingleSlashes cleaned
    × (is_abs cleaned ≡ is_abs absolute)
    × ((names absolute ≡ []) ⊎ (has_trailing_slash cleaned ≡ has_trailing_slash absolute))
    × (depth cleaned ≡ depth absolute)
    × (clean cleaned ≡ some cleaned)
clean_lem_example = clean_lem absolute

join_lem_example :
    (joined : List ℕ) × (join absolute relative ≡ some joined)
    × (names joined ≡ names absolute ++ names relative)
    × (is_abs joined ≡ is_abs absolute)
join_lem_example = join_lem absolute relative (λ e. cc e)

walk_lem_example :
    (((is_abs relative ≡ true)
        × ((walk relative).0 ≡ 47 ∷ [])
        × (words (walk relative).1 ≡ words relative))
      ⊎ ((is_abs relative ≡ false)
          × SlashFree (walk relative).0
          × (words relative ≡ (walk relative).0 ∷ words (walk relative).1)))
    × (is_abs (walk relative).1 ≡ false)
    × (length (walk relative).1 < length relative)
walk_lem_example = walk_lem relative (λ e. cc e)

depth-Entered_example :
    (end : List (List ℕ)) × Entered [] (words absolute) end × (depth absolute ≡ some (length end))
depth-Entered_example = depth-Entered absolute

is_root-words_example : is_root absolute ≡ some (is_abs absolute && all_dots (words absolute))
is_root-words_example = is_root-words absolute

trim_trailing_slash_lem_example :
    (k : ℕ) × (97 ∷ 47 ∷ 47 ∷ [] ≡ trim_trailing_slash (97 ∷ 47 ∷ 47 ∷ []) ++ replicate k 47)
    × (has_trailing_slash (trim_trailing_slash (97 ∷ 47 ∷ 47 ∷ [])) ≡ false)
trim_trailing_slash_lem_example = trim_trailing_slash_lem (97 ∷ 47 ∷ 47 ∷ [])
