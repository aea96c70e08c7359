-- ===== src/Movies/Search/Sorting.antt =====
-- hw4_simple-movies-recommendation-system-lala-ju/server.c: the threads that run `sorting`.
use mathlib.Core.List.{
  Perm, map, map-append, append_assoc, append-nil, mem-append_left, mem-append_right,
}
use mathlib.Core.List.Perm
use system_programming_homew.Prelude.{
  ℕ, zero, suc, ◌+◌, ◌-◌, ◌*◌, ◌%◌, ◌<◌, ◌≤◌, ◌≡◌, refl, sym, ap, subst, ◌∙◌, true, false, List, [],
  ◌∷◌, ◌++◌, some, ◌==◌, if◌then◌else◌, length, length-append, length-map, take, drop, take-append,
  drop-append, take-append-drop, length-take, Perm-length, arith,
}
use system_programming_homew.Movies.Entry.{Entry}
use system_programming_homew.Movies.Select.{sort, secret}
use system_programming_homew.Movies.Select.Sorted.{IsSortable, sort-sorted}
use system_programming_homew.Movies.Merge.Order.{IsRanked}
use system_programming_homew.Movies.Merge.Round.{Blocks}
use system_programming_homew.Movies.Search.{sorting, sort_blocks}
use system_programming_homew.Movies.Search.Suffix.{ArePlain, secret-IsRanked}

-- Entries that can be sorted and keep their order with the suffix.
abbrev pub IsGood : List Entry → Type 0
IsGood es = IsSortable es × ArePlain es

IsGood-left : (l r : List Entry) → IsGood (l ++ r) → IsGood l
IsGood-left l r h = (λ x m. h.0 x (mem-append_left r m), λ x m. h.1 x (mem-append_left r m))

IsGood-right : (l r : List Entry) → IsGood (l ++ r) → IsGood r
IsGood-right l r h = (λ x m. h.0 x (mem-append_right l m), λ x m. h.1 x (mem-append_right l m))

sort-good :
    (num : ℕ) (es : List Entry)
    → 0 < length es
    → length es ≤ num
    → IsGood es
    → (out : List Entry) × (sort num es ≡ some out)
      × IsRanked out
      × Perm out (map secret es)
      × (length out ≡ length es)
sort-good num [] h k good = absurd (omega arith)
sort-good num (e ∷ es) h k good =
    let (zs, done, p, ranks) = sort-sorted num e es k good.0 in
    (
      map secret zs,
      done,
      secret-IsRanked zs (λ x m. good.1 x ((Perm.mem_iff p).0 m)) ranks,
      Perm.map secret p,
      length-map zs secret ∙ Perm-length zs (e ∷ es) p,
    )

module _ (num base size : ℕ) where
  -- `sorting` replaces its own block.
  sorting-middle :
      (t count : ℕ) (before block after out : List Entry)
      → length before ≡ size * t
      → (if t == base - 1 then size + length (before ++ (block ++ after)) % base else size)
        ≡ length block
      → sort num block ≡ some out
      → sorting num base size t (before ++ (block ++ after)) ≡ some (before ++ (out ++ after))
  unfolding sorting
  sorting-middle t count before block after out hb hc done = rw (
    hc,
    take-append before (block ++ after) (size * t) hb,
    drop-append before (block ++ after) (size * t) hb,
    take-append block after (length block) refl,
    done,
    behind,
  )
    where
      behind : drop (size * t + length block) (before ++ (block ++ after)) ≡ after
      behind =
          ap (drop (size * t + length block)) (sym (append_assoc before block after))
          ∙ drop-append (before ++ block) after (size * t + length block)
              (omega (arith, hb, length-append before block))

  next_block : (s b k : ℕ) → suc (suc k) ≤ b → s * (b - suc (suc k)) + s ≡ s * (b - suc k)
  next_block s b k h =
      let next : b - suc k ≡ suc (b - suc (suc k)) = omega arith in rw next (omega arith)

  -- What the threads for the last blocks make of the part of the array behind the others.
  abbrev pub Sorts : ℕ → List Entry → List Entry → Type 0
  Sorts k before rest =
      (rest' : List Entry) × (sort_blocks num base size (suc k) (before ++ rest)
        ≡ some (before ++ rest'))
      × Blocks size k rest'
      × Perm rest' (map secret rest)

  sort_blocks-step :
      (k : ℕ) (arr arr' : List Entry)
      → sorting num base size (base - suc k) arr ≡ some arr'
      → sort_blocks num base size (suc k) arr ≡ sort_blocks num base size k arr'
  unfolding sort_blocks
  sort_blocks-step k arr arr' e = rw e

  sort_blocks-done : (arr : List Entry) → sort_blocks num base size 0 arr ≡ some arr
  unfolding sort_blocks
  sort_blocks-done arr = refl

  pub sort_blocks-Sorts :
      (k : ℕ) (before rest : List Entry)
      → 0 < size
      → suc k ≤ base
      → length before ≡ size * (base - suc k)
      → length rest ≡ size * suc k + length (before ++ rest) % base
      → length (before ++ rest) ≤ num
      → IsGood rest
      → Sorts k before rest
  sort_blocks-Sorts zero before rest some_room hk hb hr fits good =
      let (out, done, ranks, p, same) =
        sort-good num rest (omega (arith, hr)) (omega (arith, fits, length-append before rest))
          good in
      let last : (base - 1 == base - 1) ≡ true = ground arith in
      let closed : rest ++ [] ≡ rest = append-nil rest in
      (
        out,
        ap (λ w. sort_blocks num base size 1 (before ++ w)) (sym closed)
            ∙ sort_blocks-step 0 (before ++ (rest ++ [])) _ (
                sorting-middle (base - 1) (length rest) before rest [] out hb
                  (rw (last, closed) (omega (arith, hr))) done)
            ∙ sort_blocks-done (before ++ (out ++ []))
            ∙ ap (λ w. some (before ++ w)) (append-nil out),
        (omega (arith, same, hr), ranks),
        p,
      )
  sort_blocks-Sorts (suc k) before rest some_room hk hb hr fits good =
      let block : List Entry = take size rest in
      let after : List Entry = drop size rest in
      let split : block ++ after ≡ rest = take-append-drop size rest in
      let long : size * suc (suc k) ≡ size * suc k + size = omega arith in
      let width : length block ≡ size = length-take size rest ∙ omega (arith, hr, long) in
      let good' : IsGood (block ++ after) = rw split good in
      let (out, done, ranks, p, same) =
        sort-good num block (omega (arith, width))
          (omega (arith, fits, length-append before rest, width, hr, long))
          (IsGood-left block after good') in
      let moved : length ((before ++ out) ++ after) ≡ length (before ++ rest) = omega (
        arith,
        length-append (before ++ out) after,
        length-append before out,
        length-append before rest,
        same,
        ap length split,
        length-append block after,
      ) in
      let (after', rest_done, blocks, p') =
        sort_blocks-Sorts k (before ++ out) after some_room (omega arith)
          (omega (arith, length-append before out, same, width, hb, next_block size base k hk))
          (rw moved (omega (arith, hr, ap length split, length-append block after, width, long)))
          (omega (arith, moved, fits)) (IsGood-right block after good') in
      let no_last : (base - suc (suc k) == base - 1) ≡ false = ground arith in
      (
        out ++ after',
        ap (λ w. sort_blocks num base size (suc (suc k)) (before ++ w)) (sym split)
            ∙ sort_blocks-step (suc k) (before ++ (block ++ after)) _ (
                sorting-middle (base - suc (suc k)) size before block after out hb
                  (rw no_last (sym width)) done)
            ∙ ap (sort_blocks num base size (suc k)) (sym (append_assoc before out after))
            ∙ rest_done
            ∙ ap some (append_assoc before out after'),
        (out, after', refl, same ∙ width, ranks, blocks),
        subst (λ w. Perm (out ++ after') (map secret w)) split
            (rw (map-append secret block after) (Perm.append p p')),
      )
