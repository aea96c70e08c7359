-- ===== src/Movies/Tests.antt =====
-- Concrete runs of hw4_simple-movies-recommendation-system-lala-ju on a few movies.
use mathlib.Core.List.{Perm, Pairwise, Pairwise-singleton, forall_mem-cons, not-mem-nil, map}
use native.Mathlib.Bridge.{le_prop}
use system_programming_homew.Prelude.{
  ℕ, ◌≡◌, refl, List, [], ◌∷◌, some, get_elem?, ◌<◌, length, arith,
}
use system_programming_homew.Prelude.Int.{pos, ◌≤ℤ◌}
use system_programming_homew.Movies.Entry.{Entry, ◌≼◌}
use system_programming_homew.Movies.Select.{argmax, sort, secret}
use system_programming_homew.Movies.Select.Choice.{IsBefore, argmax_lem}
use system_programming_homew.Movies.Select.Sorted.{IsSortable, sort-sorted}
use system_programming_homew.Movies.Search.{MovieProfile, matches, cal, answer}
use system_programming_homew.Movies.Search.Suffix.{IsPlain}
use system_programming_homew.Movies.Search.Sorting.{IsGood}
use system_programming_homew.Movies.Search.Answer.{answer-IsRanked}
use system_programming_homew.CString.{strcmp, strstr, starts_with}
use system_programming_homew.Movies.Merge.{merge_block, merge_rounds}
use system_programming_homew.Movies.Merge.Block.{merged, merge_block-merged}
use system_programming_homew.Movies.Merge.Order.{IsRanked}
use system_programming_homew.Movies.Merge.Round.{Blocks, merge_rounds-IsRanked}

abbrev alien : Entry
alien = record { name = b'A' ∷ b'l' ∷ []; score = pos 7 }

abbrev brazil : Entry
brazil = record { name = b'B' ∷ b'r' ∷ []; score = pos 9 }

argmax_lem_example :
    (idx : ℕ) × (winner : Entry) × (argmax alien (brazil ∷ []) ≡ some idx)
    × (get_elem? (alien ∷ brazil ∷ []) idx ≡ some winner)
    × IsBefore winner (alien ∷ brazil ∷ [])
argmax_lem_example = argmax_lem alien (brazil ∷ []) (omega arith)

two-IsSortable : IsSortable (alien ∷ brazil ∷ [])
two-IsSortable = (forall_mem-cons IsFine-prop).1 (
  (omega arith, omega arith),
  (forall_mem-cons IsFine-prop).1 ((omega arith, omega arith), λ x m. absurd (not-mem-nil m)),
)
  where
    IsFine-prop : (x : Entry) → IsProp ((pos 0 ≤ℤ x.score) × (length x.name < 255))
    IsFine-prop x = hlevel (le_prop)

sort-sorted_example :
    (zs : List Entry) × (sort 2 (alien ∷ brazil ∷ []) ≡ some (map secret zs))
    × Perm zs (alien ∷ brazil ∷ [])
    × Pairwise ◌≼◌ zs
sort-sorted_example = sort-sorted 2 alien (brazil ∷ []) (omega arith) two-IsSortable

merge_block-merged_example : merge_block 1 (alien ∷ brazil ∷ []) ≡ merged (alien ∷ []) (brazil ∷ [])
merge_block-merged_example = merge_block-merged 1 (alien ∷ []) (brazil ∷ []) refl (omega arith)

two-Blocks : Blocks 1 1 (alien ∷ brazil ∷ [])
two-Blocks = (
  alien ∷ [],
  brazil ∷ [],
  refl,
  refl,
  Pairwise-singleton ◌≼◌ alien,
  (omega arith, Pairwise-singleton ◌≼◌ brazil),
)

merge_rounds-IsRanked_example :
    IsRanked (merge_rounds 2 2 1 1 (alien ∷ brazil ∷ []))
    × Perm (merge_rounds 2 2 1 1 (alien ∷ brazil ∷ [])) (alien ∷ brazil ∷ [])
merge_rounds-IsRanked_example =
    merge_rounds-IsRanked 1 2 1 1 (alien ∷ brazil ∷ []) (omega arith) two-Blocks

-- A request for titles with an `l`, and a request for all; a movie's product is written down.
abbrev movie : List ℕ → ℕ → MovieProfile ℕ
movie title n = record { title = title; profile = n }

abbrev shelf : List (MovieProfile ℕ)
shelf = movie alien.name 7 ∷ movie brazil.name 9 ∷ []

test_cal : cal pos (b'l' ∷ []) shelf ≡ alien ∷ []
unfolding cal matches strcmp strstr starts_with
test_cal = refl

test_cal_star : cal pos (b'*' ∷ []) shelf ≡ alien ∷ brazil ∷ []
unfolding cal matches strcmp strstr starts_with
test_cal_star = refl

IsPlain-prop : (cs : List ℕ) → IsProp (IsPlain cs)
IsPlain-prop [] = hlevel
IsPlain-prop (c ∷ cs) = hlevel (le_prop, IsPlain-prop cs)

two-IsGood : IsGood (alien ∷ brazil ∷ [])
two-IsGood = (
  two-IsSortable,
  (forall_mem-cons (λ (x : Entry). IsPlain-prop x.name)).1 (
    (omega arith, (omega arith, tt)),
    (forall_mem-cons (λ (x : Entry). IsPlain-prop x.name)).1
        ((omega arith, (omega arith, tt)), λ x m. absurd (not-mem-nil m)),
  ),
)

answer-IsRanked_example :
    (out : List Entry) × (answer pos (b'*' ∷ []) shelf ≡ some out)
    × IsRanked out
    × Perm out (secret alien ∷ secret brazil ∷ [])
unfolding cal matches strcmp strstr starts_with
answer-IsRanked_example = answer-IsRanked pos (b'*' ∷ []) shelf (omega arith) two-IsGood
