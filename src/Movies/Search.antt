-- ===== src/Movies/Search.antt =====
-- hw4_simple-movies-recommendation-system-lala-ju/server.c, built with THREAD: from a request to the
-- list of movies that is written out. `cal` finds the movies and cuts the list into blocks, `sorting`
-- sorts one block, and `merge` merges them. The threads work on parts of the array that do not overlap,
-- and run here one after the other.
pub mod Suffix
pub mod Sorting
pub mod Answer
use system_programming_homew.Prelude.{
  ℕ, zero, suc, ◌+◌, ◌-◌, ◌*◌, ◌/◌, ◌%◌, Bool, true, false, ◌||◌, List, [], ◌∷◌, ◌++◌, Option, none,
  some, ◌==◌, if◌then◌else◌, ltb, length, take, drop,
}
use system_programming_homew.Prelude.Int.{ℤ}
use system_programming_homew.CString.{strcmp, strstr, Sign}
use system_programming_homew.Movies.Entry.{Entry}
use system_programming_homew.Movies.Select.{sort, ◌>>=◌}
use system_programming_homew.Movies.Merge.{merge_rounds}

-- A movie's `profile` is an array of `double`; only its product with a request's is used.
pub record MovieProfile {ℓ} (Profile : Type ℓ) : Type ℓ where
  pub title : List ℕ
  pub profile : Profile

abbrev is_star : Sign → Bool
is_star Sign.same = true
is_star Sign.less = false
is_star Sign.more = false

abbrev is_found : Option ℕ → Bool
is_found none = false
is_found (some p) = true

-- The test of `cal`.
unfoldable pub matches : List ℕ → List ℕ → Bool
matches keywords title = is_star (strcmp keywords (b'*' ∷ [])) || is_found (strstr title keywords)

-- The loop of `cal`; `score` is the sum of the products in `double`, for this request.
unfoldable pub cal {ℓ} :
    {Profile : Type ℓ} → (Profile → ℤ) → List ℕ → List (MovieProfile Profile) → List Entry
cal score keywords [] = []
cal score keywords (m ∷ ms) = elim (matches keywords m.title) [
  | true ↦ record { name = m.title; score = score m.profile } ∷ cal score keywords ms
  | false ↦ cal score keywords ms
]

-- `base`, the number of blocks.
unfoldable pub base_of : ℕ → ℕ
base_of cnt =
    if ltb 60_000 cnt
    then 32
    else if ltb 30_000 cnt
    then 16
    else if ltb 10_000 cnt
    then 8
    else if ltb 5_000 cnt
    then 4
    else if ltb 2_000 cnt
    then 2
    else 1

-- `sorting` for block `t`: the last block takes what is left too.
unfoldable pub sorting : ℕ → ℕ → ℕ → ℕ → List Entry → Option (List Entry)
unfolding sort
sorting num_of_movies base size t arr = do
  let from = size * t
  let count = if t == base - 1 then size + length arr % base else size
  block ← sort num_of_movies (take count (drop from arr))
  some (take from arr ++ (block ++ drop (from + count) arr))

-- The threads from block `base - k` on.
unfoldable pub sort_blocks : ℕ → ℕ → ℕ → ℕ → List Entry → Option (List Entry)
unfolding sorting
sort_blocks num_of_movies base size zero arr = some arr
sort_blocks num_of_movies base size (suc k) arr = do
  arr' ← sorting num_of_movies base size (base - suc k) arr
  sort_blocks num_of_movies base size k arr'

-- What `main` does for one request; `d[n].cnt`, `base` and `size` are set by `cal`.
unfoldable pub answer {ℓ} :
    {Profile : Type ℓ} → (Profile → ℤ) → List ℕ → List (MovieProfile Profile) → Option (List Entry)
unfolding cal base_of sort_blocks merge_rounds
answer score keywords movies = do
  let found = cal score keywords movies
  let base = base_of (length found)
  let size = length found / base
  sorted ← sort_blocks (length movies) base size base found
  some (merge_rounds base base 1 size sorted)
