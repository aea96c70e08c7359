-- ===== src/Movies/Merge/Round.antt =====
-- hw4_simple-movies-recommendation-system-lala-ju/server.c: the rounds of `merge` on an array of blocks.
use mathlib.Core.List.{Perm, append_assoc, append-nil}
use mathlib.Core.List.Perm
use native.Mathlib.Nat.{pow-suc}
use system_programming_homew.Prelude.{
  ℕ, zero, suc, ◌+◌, ◌-◌, ◌*◌, ◌/◌, ◌^◌, ◌≤◌, ◌<◌, ◌≡◌, refl, sym, ap, ap₂, subst, ◌∙◌, true, List,
  [], ◌∷◌, ◌++◌, length, length-append, drop, take-append, drop-append, ◌==◌, if◌then◌else◌, ltb,
  arith,
}
use system_programming_homew.Movies.Entry.{Entry}
use system_programming_homew.Movies.Merge.{truemerge, merge_round, merge_rounds}
use system_programming_homew.Movies.Merge.Block.{merged, merge_block-merged}
use system_programming_homew.Movies.Merge.Order.{IsRanked, merged-perm, merged-IsRanked}

-- An array of `n + 1` ordered blocks: all but the last have `s` entries, and the last no fewer.
abbrev pub Blocks : ℕ → ℕ → List Entry → Type 0
Blocks s zero arr = (s ≤ length arr) × IsRanked arr
Blocks s (suc n) arr =
    (block : List Entry) × (rest : List Entry) × (arr ≡ block ++ rest)
    × (length block ≡ s)
    × IsRanked block
    × Blocks s n rest

length-merged : (l r : List Entry) → length (merged l r) ≡ length l + length r
unfolding merged
length-merged [] r = omega arith
length-merged (x ∷ l) [] = omega arith
length-merged (x ∷ l) (y ∷ r) = ground (arith, length-merged l (y ∷ r), length-merged (x ∷ l) r)

-- `truemerge` replaces its two blocks by their merge.
pub truemerge-middle :
    (s time b : ℕ) (done l r post : List Entry)
    → length done ≡ 2 * s * (time - 1)
    → length l ≡ s
    → s ≤ length r
    → (if time == b then length (done ++ ((l ++ r) ++ post)) else 2 * s * (time - 1) + s + s)
      ≡ length done + length (l ++ r)
    → truemerge s time b (done ++ ((l ++ r) ++ post)) ≡ done ++ (merged l r ++ post)
unfolding truemerge
truemerge-middle s time b done l r post from hl hr end =
    let span : length done + length (l ++ r) - length done ≡ length (l ++ r) = omega arith in
    rw
      (
        end,
        ← from,
        take-append done ((l ++ r) ++ post) (length done) refl,
        drop-append done ((l ++ r) ++ post) (length done) refl,
        span,
        take-append (l ++ r) post (length (l ++ r)) refl,
        merge_block-merged s l r hl hr,
      )
      (ap (λ t. done ++ (merged l r ++ t)) behind)
  where
    behind : drop (length done + length (l ++ r)) (done ++ ((l ++ r) ++ post)) ≡ post
    behind =
        ap (drop (length done + length (l ++ r))) (sym (append_assoc done (l ++ r) post))
        ∙ drop-append (done ++ (l ++ r)) post _ (length-append done (l ++ r))

-- Twice as many.
abbrev pub twice : ℕ → ℕ
twice zero = zero
twice (suc j) = suc (suc (twice j))

-- What a round makes of the blocks that it has still to reach.
abbrev Rest : ℕ → ℕ → List Entry → List Entry → Type 0
Rest s j rest rest' = Blocks (2 * s) j rest' × Perm rest' rest × (length rest' ≡ length rest)

further : (s b j : ℕ) → suc (suc j) ≤ b → 2 * s * (b - suc (suc j)) + 2 * s ≡ 2 * s * (b - suc j)
further s b j h =
    let next : b - suc j ≡ suc (b - suc (suc j)) = omega arith in rw next (omega arith)

merge_round-Rest :
    (j s b : ℕ) (done rest : List Entry)
    → suc j ≤ b
    → length done ≡ 2 * s * (b - suc j)
    → Blocks s (suc (twice j)) rest
    → (rest' : List Entry) × (merge_round s b (suc j) (done ++ rest) ≡ done ++ rest')
      × Blocks (2 * s) j rest'
      × Perm rest' rest
      × (length rest' ≡ length rest)
unfolding merge_round
merge_round-Rest zero s b done rest hj hd (l, r, split, hl, sorted_l, (room, sorted_r)) = (
  merged l r,
  ap (λ t. truemerge s (b - 0) b (done ++ t)) (split ∙ sym (append-nil (l ++ r)))
      ∙ truemerge-middle s (b - 0) b done l r [] (hd ∙ ap (λ t. 2 * s * t) (omega arith)) hl room
          (ground (arith, length-append done ((l ++ r) ++ []), length-append (l ++ r) []))
      ∙ ap (λ t. done ++ t) (append-nil (merged l r)),
  (omega (arith, length-merged l r), merged-IsRanked l r sorted_l sorted_r),
  rw split (merged-perm l r),
  rw split (length-merged l r ∙ sym (length-append l r)),
)
merge_round-Rest (suc j) s b done rest hj hd
      (l, r, split, hl, sorted_l, (m, post, split_r, hm, sorted_m, blocks)) =
    let (post', rounds, blocks', p, same_length) =
      merge_round-Rest j s b (done ++ merged l m) post (omega arith) reach blocks in
    (
      merged l m ++ post',
      ap (λ t. merge_round s b (suc j) (truemerge s (b - suc j) b (done ++ t))) both
          ∙ ap (merge_round s b (suc j)) (
              truemerge-middle s (b - suc j) b done l m post
                (hd ∙ ap (λ t. 2 * s * t) (omega arith)) hl (omega arith)
                (ground (arith, hd, length-append l m)))
          ∙ ap (merge_round s b (suc j)) (sym (append_assoc done (merged l m) post))
          ∙ rounds
          ∙ append_assoc done (merged l m) post',
      (merged l m, post', refl, width, merged-IsRanked l m sorted_l sorted_m, blocks'),
      rw both (Perm.append (merged-perm l m) p),
      rw both (
          length-append (merged l m) post'
          ∙ ap₂ ◌+◌ (length-merged l m ∙ sym (length-append l m)) same_length
          ∙ sym (length-append (l ++ m) post)),
    )
  where
    both : rest ≡ (l ++ m) ++ post
    both = split ∙ ap (λ t. l ++ t) split_r ∙ sym (append_assoc l m post)

    width : length (merged l m) ≡ 2 * s
    width = omega (arith, length-merged l m)

    reach : length (done ++ merged l m) ≡ 2 * s * (b - suc j)
    reach = omega (arith, length-append done (merged l m), width, further s b j hj)

-- 2^m blocks: the number of those before the last.
abbrev pub last_block : ℕ → ℕ
last_block zero = zero
last_block (suc m) = suc (twice (last_block m))

pub twice-add : (j : ℕ) → twice j ≡ j + j
twice-add zero = refl
twice-add (suc j) = omega (arith, twice-add j)

pub pow-last_block : (m : ℕ) → 2 ^ m ≡ suc (last_block m)
pow-last_block zero = refl
pow-last_block (suc m) = rw pow-suc (omega (arith, pow-last_block m, twice-add (last_block m)))

-- One pass of the `while`, where there is more than one block.
merge_rounds-step :
    (m fuel count size : ℕ) (arr : List Entry)
    → merge_rounds (suc fuel) (2 ^ suc m) count size arr
      ≡ merge_rounds fuel (2 ^ m) (count * 2) size (merge_round (count * size) (2 ^ m) (2 ^ m) arr)
unfolding merge_rounds
merge_rounds-step m fuel count size arr =
    let half : 2 ^ suc m / 2 ≡ 2 ^ m = rw pow-suc (omega arith) in
    let more : ltb 1 (2 ^ suc m) ≡ true = rw pow-suc (ground (arith, pow-last_block m)) in
    rw (half, more)

-- From 2^m neighbouring blocks that are each in order, the rounds of merge end, given more than m
-- units of fuel, with the whole array in order and with the same entries.
pub merge_rounds-IsRanked :
    (m fuel count size : ℕ) (arr : List Entry)
    → m < fuel
    → Blocks (count * size) (last_block m) arr
    → IsRanked (merge_rounds fuel (2 ^ m) count size arr)
      × Perm (merge_rounds fuel (2 ^ m) count size arr) arr
unfolding merge_rounds
merge_rounds-IsRanked m zero count size arr h blocks = absurd (omega arith)
merge_rounds-IsRanked zero (suc fuel) count size arr h blocks = (blocks.1, Perm.rfl)
merge_rounds-IsRanked (suc m) (suc fuel) count size arr h blocks =
    let (arr', rounds, blocks', p, _) =
      merge_round-Rest (last_block m) (count * size) (2 ^ m) [] arr
        (omega (arith, pow-last_block m)) nothing blocks in
    let rest =
      merge_rounds-IsRanked m fuel (count * 2) size arr' (omega arith)
        (subst (λ s. Blocks s (last_block m) arr') (omega arith) blocks') in
    rw (merge_rounds-step m fuel count size arr, full, rounds) (rest.0, Perm.trans rest.1 p)
  where
    full :
        merge_round (count * size) (2 ^ m) (2 ^ m) arr
        ≡ merge_round (count * size) (2 ^ m) (suc (last_block m)) ([] ++ arr)
    full = ap (λ k. merge_round (count * size) (2 ^ m) k arr) (pow-last_block m)

    nothing : 0 ≡ 2 * (count * size) * (2 ^ m - suc (last_block m))
    nothing =
        let none_left : 2 ^ m - suc (last_block m) ≡ 0 = omega (arith, pow-last_block m) in
        rw none_left (omega arith)
