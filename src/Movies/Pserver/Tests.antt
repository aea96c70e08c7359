-- ===== src/Movies/Pserver/Tests.antt =====
-- Concrete runs of hw4_simple-movies-recommendation-system-lala-ju, built with PROCESS.
use mathlib.Core.List.{Perm, forall_mem-cons, not-mem-nil, map}
use native.Mathlib.Bridge.{le_prop}
use system_programming_homew.Prelude.{ℕ, ◌≡◌, ◌<◌, refl, List, [], ◌∷◌, some, length, arith}
use system_programming_homew.Prelude.Int.{pos, ◌≤ℤ◌}
use system_programming_homew.CString.{strcmp, strstr, starts_with}
use system_programming_homew.Movies.Entry.{Entry}
use system_programming_homew.Movies.Select.{secret}
use system_programming_homew.Movies.Search.{MovieProfile, cal, matches, answer}
use system_programming_homew.Movies.Search.Suffix.{IsPlain}
use system_programming_homew.Movies.Search.Sorting.{IsGood}
use system_programming_homew.Movies.Merge.{
  merge_rounds, merge_round, truemerge, merge_block, merge_loop, copy_left, copy_new,
}
use system_programming_homew.Movies.Pserver.{merge_passes, pserver}
use system_programming_homew.Movies.Pserver.Names.{names}
use system_programming_homew.Movies.Pserver.Answer.{pserver-Perm, pserver-answer}

abbrev entry : ℕ → ℕ → Entry
entry c n = record { name = c ∷ []; score = pos n }

abbrev movie : ℕ → ℕ → MovieProfile ℕ
movie c n = record { title = c ∷ []; profile = n }

abbrev shelf : List (MovieProfile ℕ)
shelf = movie b'a' 7 ∷ movie b'b' 9 ∷ []

shelf-IsGood : IsGood (entry b'a' 7 ∷ entry b'b' 9 ∷ [])
shelf-IsGood = (
  (forall_mem-cons IsFine-prop).1 (
    (omega arith, omega arith),
    (forall_mem-cons IsFine-prop).1 ((omega arith, omega arith), λ x m. absurd (not-mem-nil m)),
  ),
  (forall_mem-cons (λ (x : Entry). IsPlain-prop x.name)).1 (
    (omega arith, tt),
    (forall_mem-cons (λ (x : Entry). IsPlain-prop x.name)).1
        ((omega arith, tt), λ x m. absurd (not-mem-nil m)),
  ),
)
  where
    IsFine-prop : (x : Entry) → IsProp ((pos 0 ≤ℤ x.score) × (length x.name < 255))
    IsFine-prop x = hlevel (le_prop)

    IsPlain-prop : (cs : List ℕ) → IsProp (IsPlain cs)
    IsPlain-prop [] = hlevel
    IsPlain-prop (c ∷ cs) = hlevel (le_prop, IsPlain-prop cs)

pserver-Perm_example :
    (out : List Entry) × (pserver pos (b'*' ∷ []) shelf ≡ some out)
    × Perm (names out) (names (secret (entry b'a' 7) ∷ secret (entry b'b' 9) ∷ []))
unfolding cal matches strcmp strstr starts_with
pserver-Perm_example = pserver-Perm pos (b'*' ∷ []) shelf (omega arith) shelf-IsGood

pserver-answer_example :
    (out : List Entry) × (out' : List Entry) × (answer pos (b'*' ∷ []) shelf ≡ some out)
    × (pserver pos (b'*' ∷ []) shelf ≡ some out')
    × (names out' ≡ names out)
unfolding cal matches strcmp strstr starts_with
pserver-answer_example =
    pserver-answer pos (b'*' ∷ []) shelf (omega arith) (omega arith) shelf-IsGood

-- Four blocks of two entries. In the passes of pserver y takes the score of x, and stays before v.
abbrev blocks : List Entry
blocks =
    entry b'x' 5
    ∷ entry b'y' 1
    ∷ entry b'z' 9
    ∷ entry b'w' 8
    ∷ entry b'v' 3
    ∷ entry b'u' 2
    ∷ entry b't' 1
    ∷ entry b's' 0
    ∷ []

test_passes :
    names (merge_passes 4 2 4 0 blocks)
    ≡ map (λ c. c ∷ []) (b'z' ∷ b'w' ∷ b'x' ∷ b'y' ∷ b'v' ∷ b'u' ∷ b't' ∷ b's' ∷ [])
unfolding merge_passes strcmp
test_passes = refl

test_rounds :
    names (merge_rounds 4 4 1 2 blocks)
    ≡ map (λ c. c ∷ []) (b'z' ∷ b'w' ∷ b'x' ∷ b'v' ∷ b'u' ∷ b't' ∷ b'y' ∷ b's' ∷ [])
unfolding merge_rounds merge_round truemerge merge_block merge_loop copy_left copy_new strcmp
test_rounds = refl
