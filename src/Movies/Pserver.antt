-- ===== src/Movies/Pserver.antt =====
-- hw4_simple-movies-recommendation-system-lala-ju/server.c, built with PROCESS: `main` for its first request.
-- Child processes sort and merge parts of two shared arrays, the names and the scores; the parts of one
-- pass do not overlap, and the children run here one after the other.
pub mod Names
pub mod Answer
mod Tests
use mathlib.Core.List.{map}
use system_programming_homew.Prelude.{
  ℕ, zero, suc, ◌+◌, ◌-◌, ◌*◌, ◌/◌, ◌%◌, List, [], ◌∷◌, ◌++◌, Option, some, ◌==◌, if◌then◌else◌,
  leb, length, take, drop,
}
use system_programming_homew.Prelude.Int.{ℤ}
use system_programming_homew.Movies.Entry.{Entry}
use system_programming_homew.Movies.Select.{◌>>=◌}
use system_programming_homew.Movies.Merge.{merge_loop, copy_new}
use system_programming_homew.Movies.Search.{MovieProfile, cal, base_of, sort_blocks}

-- The copy of what is left of the left block: `l` does not move, so all get the score of its place.
abbrev pub scored : ℤ → Entry → Entry
scored z e = record e { score = z }

abbrev pub copy_rest : List Entry → List Entry
copy_rest [] = []
copy_rest (x ∷ l) = map (scored x.score) (x ∷ l)

-- A child that merges, on its part of the arrays; the left block has `half` entries. The loop is that of
-- `truemerge`.
unfoldable pub merge_child : ℕ → List Entry → List Entry
unfolding merge_loop copy_new
merge_child half part =
    let (out, l, r) = merge_loop (take half part) (drop half part) [] in
    copy_new part 0 (out ++ copy_rest l)

-- The children of a pass, `k` of them still to come; the last part has what is left over too.
unfoldable pub merge_children : ℕ → ℕ → ℕ → ℕ → List Entry → List Entry
unfolding merge_child
merge_children base size left zero arr = arr
merge_children base size left (suc k) arr =
    let i = base - suc k in
    let from = size * i in
    let end = if i == base - 1 then size * (i + 1) + left else size * (i + 1) in
    merge_children base size left k (
      take from arr ++ (merge_child (size / 2) (take (end - from) (drop from arr)) ++ drop end arr))

-- The passes behind the first; each halves `base`.
unfoldable pub merge_passes : ℕ → ℕ → ℕ → ℕ → List Entry → List Entry
unfolding merge_children
merge_passes zero base size left arr = arr
merge_passes (suc fuel) base size left arr =
    let rest =
      merge_passes fuel (base / 2) (size * 2) left (merge_children base size left base arr) in
    if leb 1 base then rest else arr

-- The whole way of the request. In the first pass the children sort their parts, as the threads of
-- `sorting` do.
unfoldable pub pserver {ℓ} :
    {Profile : Type ℓ} → (Profile → ℤ) → List ℕ → List (MovieProfile Profile) → Option (List Entry)
unfolding cal base_of sort_blocks merge_passes
pserver score keywords movies = do
  let found = cal score keywords movies
  let base = base_of (length found)
  let size = length found / base
  sorted ← sort_blocks (length movies) base size base found
  some (merge_passes base (base / 2) (size * 2) (length found % base) sorted)
