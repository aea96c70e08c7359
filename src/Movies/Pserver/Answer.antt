-- ===== src/Movies/Pserver/Answer.antt =====
-- hw4_simple-movies-recommendation-system-lala-ju/server.c: the answers of the two builds next to each other.
use mathlib.Core.List.{Perm, map, append-nil}
use mathlib.Core.List.Perm
use system_programming_homew.Prelude.{
  ℕ, suc, ◌+◌, ◌-◌, ◌*◌, ◌/◌, ◌%◌, ◌≤◌, ◌<◌, ◌≡◌, ◌⊎◌, inl, inr, refl, sym, ap, subst, ◌∙◌, false,
  Bool-cases, List, [], ◌++◌, some, length, length-map, take, drop, take-append, drop-append, ltb,
  Perm-length, arith,
}
use system_programming_homew.Prelude.Int.{ℤ}
use system_programming_homew.Movies.Entry.{Entry}
use system_programming_homew.Movies.Select.{secret}
use system_programming_homew.Movies.Merge.{merge_rounds, merge_round, truemerge}
use system_programming_homew.Movies.Merge.Block.{merged}
use system_programming_homew.Movies.Merge.Round.{
  Blocks, last_block, pow-last_block, truemerge-middle,
}
use system_programming_homew.Movies.Search.{MovieProfile, cal, base_of, answer}
use system_programming_homew.Movies.Search.Sorting.{IsGood}
use system_programming_homew.Movies.Search.Answer.{base_of-IsCut, cal-length, sort_all}
use system_programming_homew.Movies.Pserver.{merge_child, merge_children, merge_passes, pserver}
use system_programming_homew.Movies.Pserver.Names.{
  names, merge_child-names, passes-Perm, Perm-names,
}

-- However many movies match, at least one, if the matching movies have no negative score and titles
-- of less than 255 bytes that are all above the tab, then pserver answers, and its names are those
-- of the matching movies with the suffix, each as often as it matches, in some order.
pub pserver-Perm {ℓ} :
    {Profile : Type ℓ} (score : Profile → ℤ) (keywords : List ℕ)
    (movies : List (MovieProfile Profile))
    → 0 < length (cal score keywords movies)
    → IsGood (cal score keywords movies)
    → (out : List Entry) × (pserver score keywords movies ≡ some out)
      × Perm (names out) (names (map secret (cal score keywords movies)))
unfolding pserver
pserver-Perm score keywords movies h good =
    let found : List Entry = cal score keywords movies in
    let base : ℕ = base_of (length found) in
    let size : ℕ = length found / base in
    let (sorted, done, blocks, p) =
      sort_all (length movies) found (base_of-IsCut (length found) h)
        (cal-length score keywords movies) good in
    (
      merge_passes base (base / 2) (size * 2) (length found % base) sorted,
      rw done,
      Perm.trans (passes-Perm base (base / 2) (size * 2) (length found % base) sorted)
          (Perm-names sorted (map secret found) p),
    )

-- With one block both do nothing more, with two both merge them.
rounds-one :
    (size left : ℕ) (arr : List Entry)
    → names (merge_passes 1 (1 / 2) (size * 2) left arr) ≡ names (merge_rounds 1 1 1 size arr)
unfolding merge_passes merge_rounds
rounds-one size left arr = refl

take-all : (es : List Entry) → take (length es) es ≡ es
take-all es = ap (take (length es)) (sym (append-nil es)) ∙ take-append es [] (length es) refl

drop-all : (es : List Entry) → drop (length es) es ≡ []
drop-all es = ap (drop (length es)) (sym (append-nil es)) ∙ drop-append es [] (length es) refl

two-children :
    (size left : ℕ) (l r : List Entry)
    → length l ≡ size
    → length (l ++ r) ≡ size * 2 + left
    → names (merge_children 1 (size * 2) left 1 (l ++ r)) ≡ names (merged l r)
unfolding merge_children
two-children size left l r hl whole =
    let from : size * 2 * 0 ≡ 0 = omega arith in
    let end : size * 2 * 1 + left ≡ length (l ++ r) = omega (arith, whole) in
    let half : size * 2 / 2 ≡ size = omega arith in
    let nothing : length (l ++ r) - 0 ≡ length (l ++ r) = omega arith in
    rw (from, end, half, nothing, take-all (l ++ r), drop-all (l ++ r))
      (rw (append-nil (merge_child size (l ++ r)))
        (merge_child-names size (l ++ r) ∙ rw (take-append l r size hl, drop-append l r size hl)))

two-round :
    (size : ℕ) (l r : List Entry)
    → length l ≡ size
    → size ≤ length r
    → merge_round (1 * size) 1 1 (l ++ r) ≡ merged l r
unfolding merge_round
two-round size l r hl hr =
    let one : 1 * size ≡ size = omega arith in
    let closed : (l ++ r) ++ [] ≡ l ++ r = append-nil (l ++ r) in
    rw one (
      ap (truemerge size 1 1) (sym closed)
      ∙ truemerge-middle size 1 1 [] l r [] (omega arith) hl hr (omega (arith, ap length closed))
      ∙ append-nil (merged l r))

rounds-two :
    (size left : ℕ) (l r : List Entry)
    → length l ≡ size
    → size ≤ length r
    → length (l ++ r) ≡ size * 2 + left
    → names (merge_passes 2 (2 / 2) (size * 2) left (l ++ r))
      ≡ names (merge_rounds 2 2 1 size (l ++ r))
unfolding merge_passes merge_rounds merge_children merge_round
rounds-two size left l r hl hr whole =
    two-children size left l r hl whole ∙ ap names (sym (two-round size l r hl hr))

-- The number of blocks for at most 5000 movies.
base_of-few : (cnt : ℕ) → cnt ≤ 5_000 → (base_of cnt ≡ 1) ⊎ (base_of cnt ≡ 2)
unfolding base_of
base_of-few cnt h =
    let a : ltb 60_000 cnt ≡ false = ground arith in
    let b : ltb 30_000 cnt ≡ false = ground arith in
    let c : ltb 10_000 cnt ≡ false = ground arith in
    let d : ltb 5_000 cnt ≡ false = ground arith in
    elim (Bool-cases (ltb 2_000 cnt)) [
      | inl e ↦ inr (rw (a, b, c, d, e))
      | inr e ↦ inl (rw (a, b, c, d, e))
    ]

both_rounds :
    (size left : ℕ) (arr : List Entry)
    → Blocks size 1 arr
    → length arr ≡ size * 2 + left
    → names (merge_passes 2 (2 / 2) (size * 2) left arr) ≡ names (merge_rounds 2 2 1 size arr)
both_rounds size left arr (l, r, split, hl, _, (room, _)) whole =
    subst
      (λ t. names (merge_passes 2 (2 / 2) (size * 2) left t) ≡ names (merge_rounds 2 2 1 size t))
      (sym split) (rounds-two size left l r hl room (sym (ap length split) ∙ whole))

passes-rounds :
    (base k size left : ℕ) (arr : List Entry)
    → (base ≡ 1) ⊎ (base ≡ 2)
    → base ≡ suc k
    → Blocks size k arr
    → length arr ≡ size * base + left
    → names (merge_passes base (base / 2) (size * 2) left arr)
      ≡ names (merge_rounds base base 1 size arr)
passes-rounds base k size left arr (inl e) count blocks whole = rw e (rounds-one size left arr)
passes-rounds base k size left arr (inr e) count blocks whole =
    let one : k ≡ 1 = omega (arith, e, count) in
    rw e (
      both_rounds size left arr (subst (λ k. Blocks size k arr) one blocks)
        (whole ∙ ap (λ b. size * b + left) e))

-- If at least one and at most 5000 movies match the request, and the matching movies have no
-- negative score and titles of less than 255 bytes that are all above the tab, then both builds
-- answer, and pserver has exactly the names of tserver, in the same order.
pub pserver-answer {ℓ} :
    {Profile : Type ℓ} (score : Profile → ℤ) (keywords : List ℕ)
    (movies : List (MovieProfile Profile))
    → 0 < length (cal score keywords movies)
    → length (cal score keywords movies) ≤ 5_000
    → IsGood (cal score keywords movies)
    → (out out' : List Entry) × (answer score keywords movies ≡ some out)
      × (pserver score keywords movies ≡ some out')
      × (names out' ≡ names out)
unfolding answer pserver
pserver-answer score keywords movies h few good =
    let found : List Entry = cal score keywords movies in
    let base : ℕ = base_of (length found) in
    let size : ℕ = length found / base in
    let left : ℕ = length found % base in
    let cut = base_of-IsCut (length found) h in
    let (sorted, done, blocks, p) =
      sort_all (length movies) found cut (cal-length score keywords movies) good in
    (
      merge_rounds base base 1 size sorted,
      merge_passes base (base / 2) (size * 2) left sorted,
      rw done,
      rw done,
      passes-rounds base (last_block cut.exponent) size left sorted (base_of-few (length found) few)
          (cut.base_ok ∙ pow-last_block cut.exponent) blocks
          (Perm-length sorted (map secret found) p ∙ length-map found secret ∙ cut.adds),
    )
