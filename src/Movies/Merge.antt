-- ===== src/Movies/Merge.antt =====
-- hw4_simple-movies-recommendation-system-lala-ju/server.c, built with THREAD: `truemerge`, which
-- merges two neighbouring blocks in place, and `merge`, which runs it in rounds. The threads of a
-- round work on blocks that do not overlap, and run here one after the other.
pub mod Block
pub mod Order
pub mod Round
use system_programming_homew.Prelude.{
  ℕ, zero, suc, ◌+◌, ◌-◌, ◌*◌, ◌/◌, Bool, true, false, List, [], ◌∷◌, ◌++◌, none, some, ◌==◌,
  if◌then◌else◌, ltb, length, get_elem?, set, take, drop,
}
use system_programming_homew.Prelude.Int.{ltb_ℤ}
use system_programming_homew.CString.{strcmp}
use system_programming_homew.Movies.Entry.{Entry, is_less}

-- The four branches of the loop: is the next entry taken from the left block?
abbrev pub takes_left : Entry → Entry → Bool
takes_left x y =
    if ltb_ℤ y.score x.score
    then true
    else if ltb_ℤ x.score y.score
    then false
    else is_less (strcmp x.name y.name)

-- The `while`: what is left of both blocks, and `newname` with `newscore` filled so far.
unfoldable pub merge_loop :
    List Entry → List Entry → List Entry → List Entry × List Entry × List Entry
merge_loop [] r out = (out, [], r)
merge_loop (x ∷ l) [] out = (out, x ∷ l, [])
merge_loop (x ∷ l) (y ∷ r) out = elim (takes_left x y) [
  | true ↦ merge_loop l (y ∷ r) (out ++ x ∷ [])
  | false ↦ merge_loop (x ∷ l) r (out ++ y ∷ [])
]

-- The first copy: the `k` entries that are left in the left block, of `s` entries, move to the end.
unfoldable pub copy_left : List Entry → ℕ → ℕ → List Entry
copy_left block s zero = block
copy_left block s (suc k) =
    let block' : List Entry = elim (get_elem? block (s - suc k)) [
      | some x ↦ set block (length block - suc k) x
      | none ↦ block
    ] in
    copy_left block' s k

-- The second copy: the new entries go to the places from `i` on.
unfoldable pub copy_new : List Entry → ℕ → List Entry → List Entry
copy_new block i [] = block
copy_new block i (x ∷ xs) = copy_new (set block i x) (i + 1) xs

-- `truemerge` on the part of the array from `2*s*t` up to `end`.
unfoldable pub merge_block : ℕ → List Entry → List Entry
unfolding merge_loop copy_left copy_new
merge_block s block =
    let (out, l, r) = merge_loop (take s block) (drop s block) [] in
    copy_new (copy_left block s (length l)) 0 out

-- `truemerge` on the whole array: `time` counts from 1, and the last block ends with the array.
unfoldable pub truemerge : ℕ → ℕ → ℕ → List Entry → List Entry
unfolding merge_block
truemerge s time b arr =
    let from = 2 * s * (time - 1) in
    let end = if time == b then length arr else from + s + s in
    take from arr ++ (merge_block s (take (end - from) (drop from arr)) ++ drop end arr)

-- One round: `k` threads are still to be run.
unfoldable pub merge_round : ℕ → ℕ → ℕ → List Entry → List Entry
merge_round s b zero arr = arr
merge_round s b (suc k) arr = merge_round s b k (truemerge s (b - k) b arr)

-- `merge`, from a `base` on; each round halves it, so `base` rounds of fuel are enough.
unfoldable pub merge_rounds : ℕ → ℕ → ℕ → ℕ → List Entry → List Entry
merge_rounds zero base count size arr = arr
merge_rounds (suc fuel) base count size arr =
    let rest =
      merge_rounds fuel (base / 2) (count * 2) size
        (merge_round (count * size) (base / 2) (base / 2) arr) in
    if ltb 1 base then rest else arr
