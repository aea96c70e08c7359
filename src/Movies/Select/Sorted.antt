-- ===== src/Movies/Select/Sorted.antt =====
-- hw4_simple-movies-recommendation-system-lala-ju/lib.c: `sort`, its rounds and its result.
use mathlib.Core.List.{Mem, Perm, Pairwise, Pairwise-singleton, mem-cons_self, mem-cons_of_mem, map}
use mathlib.Core.List.Perm
use system_programming_homew.Prelude.{
  ℕ, zero, suc, ◌<◌, ◌≤◌, ◌≡◌, refl, ◌∙◌, false, List, [], ◌∷◌, some, get_elem?, set, length,
  length-set, arith, ltb, lt→ltb,
}
use system_programming_homew.Prelude.Int.{pos, ◌≤ℤ◌}
use system_programming_homew.Movies.Entry.{Entry, ◌≼◌}
use system_programming_homew.Movies.Select.{
  argmax, swap, add_secret, secret, max_len, sort_loop, sort,
}
use system_programming_homew.Movies.Select.Choice.{IsBefore, argmax_lem}

-- No score is negative, and there is room for the suffix check on each name.
abbrev pub IsSortable : List Entry → Type 0
IsSortable es = (x : Entry) → Mem x es → (pos 0 ≤ℤ x.score) × (length x.name < max_len)

IsSortable-perm : (xs ys : List Entry) → Perm xs ys → IsSortable ys → IsSortable xs
IsSortable-perm xs ys p h x m = h x ((Perm.mem_iff p).0 m)

IsBefore-perm : (e : Entry) (xs ys : List Entry) → Perm xs ys → IsBefore e ys → IsBefore e xs
IsBefore-perm e xs ys p h x m = h x ((Perm.mem_iff p).0 m)

set-perm :
    (e x : Entry) (es : List Entry) (i : ℕ)
    → get_elem? es i ≡ some x
    → Perm (x ∷ set es i e) (e ∷ es)
set-perm e x [] i h = cc
set-perm e x (y ∷ es) zero h = let same : y ≡ x = cc in rw same (Perm.swap e x es)
set-perm e x (y ∷ es) (suc i) h =
    Perm.trans (Perm.swap y x (set es i e))
      (Perm.trans (Perm.cons y (set-perm e x es i h)) (Perm.swap e y es))

swap-perm :
    (e : Entry) (es : List Entry) (idx : ℕ) (x : Entry)
    → get_elem? (e ∷ es) idx ≡ some x
    → (rest : List Entry) × (swap e es idx ≡ some (x, rest))
      × Perm (x ∷ rest) (e ∷ es)
      × (length rest ≡ length es)
unfolding swap
swap-perm e es zero x h =
    let same : x ≡ e = cc in (es, ground arith, Perm.cons' same Perm.rfl, refl)
swap-perm e es (suc i) x h = (set es i e, ground arith, set-perm e x es i h, length-set es i e)

add_secret-short : (e : Entry) → length e.name < max_len → add_secret e ≡ some (secret e)
unfolding add_secret
add_secret-short e h = rw (lt→ltb _ _ h)

-- The loop's result: the entries in order, each with its suffix.
abbrev SortsTo : ℕ → Entry → List Entry → Type 0
SortsTo n e es =
    (zs : List Entry) × (sort_loop n e es ≡ some (map secret zs))
    × Perm zs (e ∷ es)
    × Pairwise ◌≼◌ zs

sort_round :
    (n idx : ℕ) (e winner : Entry) (es rest : List Entry)
    → ((z : Entry) (zs : List Entry) → length zs ≡ n → IsSortable (z ∷ zs) → SortsTo n z zs)
    → argmax e es ≡ some idx
    → swap e es idx ≡ some (winner, rest)
    → Perm (winner ∷ rest) (e ∷ es)
    → length rest ≡ suc n
    → IsSortable (e ∷ es)
    → IsBefore winner (e ∷ es)
    → SortsTo (suc n) e es
unfolding sort_loop
sort_round n idx e winner es [] ih found swapped p len h before = absurd (omega arith)
sort_round n idx e winner es (z ∷ zs) ih found swapped p len h before =
    let all = IsSortable-perm (winner ∷ z ∷ zs) (e ∷ es) p h in
    let (ys, sorted, q, order) = ih z zs (omega arith) (λ x m. all x (mem-cons_of_mem winner m)) in
    (
      winner ∷ ys,
      rw (found, swapped, add_secret-short winner (all winner mem-cons_self).1, sorted),
      Perm.trans (Perm.cons winner q) p,
      Pairwise.cons
          (λ x m. before x ((Perm.mem_iff p).0 (mem-cons_of_mem winner ((Perm.mem_iff q).0 m))))
          order,
    )

sort_loop-sorted :
    (n : ℕ) (e : Entry) (es : List Entry) → length es ≡ n → IsSortable (e ∷ es) → SortsTo n e es
unfolding sort_loop
sort_loop-sorted zero e [] len h =
    (e ∷ [], rw (add_secret-short e (h e mem-cons_self).1), Perm.rfl, Pairwise-singleton _ e)
sort_loop-sorted zero e (y ∷ es) len h = absurd (omega arith)
sort_loop-sorted (suc n) e es len h =
    let (idx, winner, found, place, before) = argmax_lem e es (h e mem-cons_self).0 in
    let (rest, swapped, p, same_length) = swap-perm e es idx winner place in
    sort_round n idx e winner es rest (sort_loop-sorted n) found swapped p (same_length ∙ len) h
      before

-- Given at least one entry and no more than there are movies, none with a negative score or a name
-- of 255 bytes or more, sort returns: the entries in order of rank, each exactly once, with the
-- suffix behind its name.
pub sort-sorted :
    (num_of_movies : ℕ) (e : Entry) (es : List Entry)
    → length (e ∷ es) ≤ num_of_movies
    → IsSortable (e ∷ es)
    → (zs : List Entry) × (sort num_of_movies (e ∷ es) ≡ some (map secret zs))
      × Perm zs (e ∷ es)
      × Pairwise ◌≼◌ zs
unfolding sort
sort-sorted num_of_movies e es fits h =
    let (zs, sorted, p, order) = sort_loop-sorted (length es) e es refl h in
    (zs, rw (le→not_ltb num_of_movies (length (e ∷ es)) fits) sorted, p, order)
  where
    le→not_ltb : (a b : ℕ) → b ≤ a → ltb a b ≡ false
    le→not_ltb a b k = ground arith
