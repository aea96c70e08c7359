-- ===== src/Movies/Search/Answer.antt =====
-- The whole way of a request through hw4_simple-movies-recommendation-system-lala-ju/server.c.
use mathlib.Core.List.{Perm, map}
use mathlib.Core.List.Perm
use native.Mathlib.Nat.{div-eq-sub-div, div-add-mod'}
use system_programming_homew.Prelude.{
  ℕ, zero, suc, ◌+◌, ◌-◌, ◌*◌, ◌/◌, ◌%◌, ◌^◌, ◌<◌, ◌≤◌, ◌≡◌, sym, ap, subst, ◌∙◌, true, false,
  Bool-cases, inl, inr, List, [], ◌∷◌, some, ltb, length, arith,
}
use system_programming_homew.Prelude.Int.{ℤ}
use system_programming_homew.Movies.Entry.{Entry}
use system_programming_homew.Movies.Select.{secret}
use system_programming_homew.Movies.Merge.{merge_rounds}
use system_programming_homew.Movies.Merge.Order.{IsRanked}
use system_programming_homew.Movies.Merge.Round.{
  Blocks, last_block, twice-add, pow-last_block, merge_rounds-IsRanked,
}
use system_programming_homew.Movies.Search.{
  MovieProfile, matches, cal, base_of, sort_blocks, answer,
}
use system_programming_homew.Movies.Search.Sorting.{IsGood, sort_blocks-Sorts}

-- The blocks that `cal` cuts: their number is a power of two, and each has an entry.
pub record IsCut (cnt : ℕ) : Type 0 where
  pub exponent : ℕ
  pub base_ok : base_of cnt ≡ 2 ^ exponent
  pub some_room : 0 < cnt / base_of cnt
  pub adds : cnt ≡ cnt / base_of cnt * base_of cnt + cnt % base_of cnt

base_of-power : (cnt : ℕ) → 0 < cnt → (m : ℕ) × (base_of cnt ≡ 2 ^ m) × (2 ^ m ≤ cnt)
unfolding base_of
base_of-power cnt h = elim (Bool-cases (ltb 60_000 cnt)) [
  | inl e0 ↦ (5, ground arith, ground arith)
  | inr e0 ↦ elim (Bool-cases (ltb 30_000 cnt)) [
    | inl e1 ↦ (4, ground arith, ground arith)
    | inr e1 ↦ elim (Bool-cases (ltb 10_000 cnt)) [
      | inl e2 ↦ (3, ground arith, ground arith)
      | inr e2 ↦ elim (Bool-cases (ltb 5_000 cnt)) [
        | inl e3 ↦ (2, ground arith, ground arith)
        | inr e3 ↦ elim (Bool-cases (ltb 2_000 cnt)) [
          | inl e4 ↦ (1, ground arith, ground arith)
          | inr e4 ↦ (0, ground arith, omega arith)
        ]
      ]
    ]
  ]
]

pub base_of-IsCut : (cnt : ℕ) → 0 < cnt → IsCut cnt
base_of-IsCut cnt h =
    let (m, e, fits) = base_of-power cnt h in
    let positive : 0 < base_of cnt = omega (arith, pow-last_block m, e) in
    record {
      exponent = m;
      base_ok = e;
      some_room =
          omega
            (arith, div-eq-sub-div {m = base_of cnt} {n = cnt} positive (omega (arith, e, fits)));
      adds = sym (div-add-mod' cnt (base_of cnt));
    }

cal-matches {ℓ} :
    {Profile : Type ℓ} (score : Profile → ℤ) (keywords : List ℕ) (m : MovieProfile Profile)
    (movies : List (MovieProfile Profile))
    → matches keywords m.title ≡ true
    → cal score keywords (m ∷ movies)
      ≡ record { name = m.title; score = score m.profile } ∷ cal score keywords movies
unfolding cal
cal-matches score keywords m movies e = rw (e, cal)

cal-other {ℓ} :
    {Profile : Type ℓ} (score : Profile → ℤ) (keywords : List ℕ) (m : MovieProfile Profile)
    (movies : List (MovieProfile Profile))
    → matches keywords m.title ≡ false
    → cal score keywords (m ∷ movies) ≡ cal score keywords movies
unfolding cal
cal-other score keywords m movies e = rw (e, cal)

pub cal-length {ℓ} :
    {Profile : Type ℓ} (score : Profile → ℤ) (keywords : List ℕ)
    (movies : List (MovieProfile Profile))
    → length (cal score keywords movies) ≤ length movies
unfolding cal
cal-length score keywords [] = omega arith
cal-length score keywords (m ∷ movies) = elim (Bool-cases (matches keywords m.title)) [
  | inl e ↦
      omega
        (arith, ap length (cal-matches score keywords m movies e), cal-length score keywords movies)
  | inr e ↦
      omega
        (arith, ap length (cal-other score keywords m movies e), cal-length score keywords movies)
]

le-last_block : (m : ℕ) → m ≤ last_block m
le-last_block zero = omega arith
le-last_block (suc m) = omega (arith, le-last_block m, twice-add (last_block m))

-- What the sorted blocks are.
pub sort_all :
    (num : ℕ) (found : List Entry) (cut : IsCut (length found))
    → length found ≤ num
    → IsGood found
    → (let base = base_of (length found) in
        let size = length found / base in
        (sorted : List Entry) × (sort_blocks num base size base found ≡ some sorted)
        × Blocks size (last_block cut.exponent) sorted
        × Perm sorted (map secret found))
sort_all num found cut fits good =
    let base : ℕ = base_of (length found) in
    let size : ℕ = length found / base in
    let k : ℕ = last_block cut.exponent in
    let count : base ≡ suc k = cut.base_ok ∙ pow-last_block cut.exponent in
    let all_left : base - suc k ≡ 0 = omega (arith, count) in
    let (sorted, done, blocks, p) =
      sort_blocks-Sorts num base size k [] found cut.some_room (omega (arith, count))
        (rw all_left (omega arith)) (cut.adds ∙ ap (λ b. size * b + length found % base) count) fits
        good in
    (sorted, ap (λ b. sort_blocks num base size b found) count ∙ done, blocks, p)

-- All that follows `cal`.
finished :
    (num : ℕ) (found : List Entry)
    → 0 < length found
    → length found ≤ num
    → IsGood found
    → (let base = base_of (length found) in
        let size = length found / base in
        (sorted : List Entry) × (sort_blocks num base size base found ≡ some sorted)
        × IsRanked (merge_rounds base base 1 size sorted)
        × Perm (merge_rounds base base 1 size sorted) (map secret found))
finished num found h fits good =
    let cut = base_of-IsCut (length found) h in
    let size : ℕ = length found / base_of (length found) in
    let (sorted, done, blocks, p) = sort_all num found cut fits good in
    let (ranks, q) =
      merge_rounds-IsRanked cut.exponent (2 ^ cut.exponent) 1 size sorted
        (omega (arith, le-last_block cut.exponent, pow-last_block cut.exponent))
        (subst (λ s. Blocks s (last_block cut.exponent) sorted) (omega arith) blocks) in
    (
      sorted,
      done,
      subst (λ b. IsRanked (merge_rounds b b 1 size sorted)) (sym cut.base_ok) ranks,
      subst (λ b. Perm (merge_rounds b b 1 size sorted) (map secret found)) (sym cut.base_ok)
          (Perm.trans q p),
    )

-- If at least one movie matches the request, and the matching movies have no negative score and
-- titles of less than 255 bytes that are all above the tab, then tserver answers: with exactly the
-- matching movies, each with the suffix, in order of falling score and, for the same score, of the
-- title.
pub answer-IsRanked {ℓ} :
    {Profile : Type ℓ} (score : Profile → ℤ) (keywords : List ℕ)
    (movies : List (MovieProfile Profile))
    → 0 < length (cal score keywords movies)
    → IsGood (cal score keywords movies)
    → (out : List Entry) × (answer score keywords movies ≡ some out)
      × IsRanked out
      × Perm out (map secret (cal score keywords movies))
unfolding answer
answer-IsRanked score keywords movies h good =
    let found : List Entry = cal score keywords movies in
    let (sorted, done, ranks, p) =
      finished (length movies) found h (cal-length score keywords movies) good in
    (
      merge_rounds (base_of (length found)) (base_of (length found)) 1
          (length found / base_of (length found)) sorted,
      rw done,
      ranks,
      p,
    )
