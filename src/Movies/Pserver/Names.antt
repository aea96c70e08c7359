-- ===== src/Movies/Pserver/Names.antt =====
-- hw4_simple-movies-recommendation-system-lala-ju/server.c, built with PROCESS: what happens to the names.
use mathlib.Core.List.{Perm, map, map-append, append_assoc}
use mathlib.Core.List.Perm
use system_programming_homew.Prelude.{
  ℕ, zero, suc, ◌+◌, ◌-◌, ◌*◌, ◌/◌, ◌≤◌, ◌≡◌, inl, inr, refl, sym, ap, subst, ◌∙◌, Bool-cases, List,
  [], ◌∷◌, ◌++◌, length, length-append, length-map, take, drop, take-append-drop, leb, ◌==◌,
  if◌then◌else◌, arith,
}
use system_programming_homew.Prelude.Int.{ℤ}
use system_programming_homew.Movies.Entry.{Entry}
use system_programming_homew.Movies.Merge.{merge_loop, copy_new}
use system_programming_homew.Movies.Merge.Block.{merged, Merges, merge_loop-Merges, copy_new-middle}
use system_programming_homew.Movies.Merge.Order.{merged-perm}
use system_programming_homew.Movies.Pserver.{
  scored, copy_rest, merge_child, merge_children, merge_passes,
}

abbrev pub names : List Entry → List (List ℕ)
names = map (λ e. e.name)

names-scored : (z : ℤ) (l : List Entry) → names (map (scored z) l) ≡ names l
names-scored z [] = refl
names-scored z (x ∷ l) = ap (◌∷◌ x.name) (names-scored z l)

names-copy_rest : (l : List Entry) → names (copy_rest l) ≡ names l
names-copy_rest [] = refl
names-copy_rest (x ∷ l) = ap (◌∷◌ x.name) (names-scored x.score l)

length-copy_rest : (l : List Entry) → length (copy_rest l) ≡ length l
length-copy_rest [] = refl
length-copy_rest (x ∷ l) = length-map (x ∷ l) (scored x.score)

-- Writing over a block but its end.
copy_new-front :
    (xs l used r' : List Entry)
    → length xs ≡ length l + length used
    → copy_new (l ++ (used ++ r')) 0 xs ≡ xs ++ r'
copy_new-front xs l used r' h =
    ap (λ t. copy_new t 0 xs) (sym (append_assoc l used r'))
    ∙ copy_new-middle xs [] (l ++ used) r' 0 refl (omega (arith, length-append l used))

-- A merging child leaves the names in the order of the merge.
pub merge_child-names :
    (half : ℕ) (part : List Entry)
    → names (merge_child half part) ≡ names (merged (take half part) (drop half part))
unfolding merge_child
merge_child-names half part =
    ap (λ t. names (copy_new t 0 (rest.0 ++ copy_rest rest.1)))
      (sym (take-append-drop half part) ∙ ap (λ t. l ++ t) m.right_part.1)
    ∙ ap (λ t. names (copy_new (l ++ (m.right_part.0 ++ rest.2)) 0 (t ++ copy_rest rest.1)))
        m.out_ok
    ∙ ap names (copy_new-front (m.front ++ copy_rest rest.1) l m.right_part.0 rest.2 counted)
    ∙ map-append (λ e. e.name) (m.front ++ copy_rest rest.1) rest.2
    ∙ ap (λ t. t ++ names rest.2)
        (map-append (λ e. e.name) m.front (copy_rest rest.1)
          ∙ ap (λ t. names m.front ++ t) (names-copy_rest rest.1))
    ∙ append_assoc (names m.front) (names rest.1) (names rest.2)
    ∙ ap (λ t. names m.front ++ t) (sym (map-append (λ e. e.name) rest.1 rest.2))
    ∙ sym (map-append (λ e. e.name) m.front (rest.1 ++ rest.2))
    ∙ ap names (sym m.whole)
  where
    l : List Entry
    l = take half part

    r : List Entry
    r = drop half part

    rest : List Entry × List Entry × List Entry
    rest = merge_loop l r []

    m : Merges l r [] rest
    m = merge_loop-Merges l r []

    counted : length (m.front ++ copy_rest rest.1) ≡ length l + length m.right_part.0
    counted = omega (
      arith,
      m.counted,
      length-append m.front (copy_rest rest.1),
      length-copy_rest rest.1,
      ap length m.right_part.1,
      length-append m.right_part.0 rest.2,
    )

pub Perm-names : (es fs : List Entry) → Perm es fs → Perm (names es) (names fs)
Perm-names es fs p = Perm.map (λ e. e.name) p

merge_child-Perm :
    (half : ℕ) (part : List Entry) → Perm (names (merge_child half part)) (names part)
merge_child-Perm half part = rw (merge_child-names half part) (
    Perm.trans
      (Perm-names (merged (take half part) (drop half part)) (take half part ++ drop half part)
        (merged-perm (take half part) (drop half part)))
      (rw (take-append-drop half part) Perm.rfl))

drop-drop : (m n : ℕ) (es : List Entry) → drop n (drop m es) ≡ drop (m + n) es
drop-drop zero n es = ap (λ k. drop k es) (omega arith)
drop-drop (suc m) zero [] = let whole : suc m + 0 ≡ suc m = omega arith in rw whole
drop-drop (suc m) (suc n) [] = let whole : suc m + suc n ≡ suc (m + suc n) = omega arith in rw whole
drop-drop (suc m) n (e ∷ es) =
    let whole : suc m + n ≡ suc (m + n) = omega arith in rw whole (drop-drop m n es)

names-append : (es fs : List Entry) → names (es ++ fs) ≡ names es ++ names fs
names-append es fs = map-append (λ e. e.name) es fs

-- One child among the others.
child-Perm :
    (from end half : ℕ) (arr : List Entry)
    → from ≤ end
    → Perm
        (names
          (take from arr ++ (merge_child half (take (end - from) (drop from arr)) ++ drop end arr)))
        (names arr)
child-Perm from end half arr h =
    subst (λ t. Perm (names (take from arr ++ (merge_child half part ++ drop end arr))) (names t))
      whole
      (rw
        (
          names-append (take from arr) (merge_child half part ++ drop end arr),
          names-append (merge_child half part) (drop end arr),
          names-append (take from arr) (part ++ drop end arr),
          names-append part (drop end arr),
        )
        (Perm.append_left (names (take from arr))
          (Perm.append_right (names (drop end arr)) (merge_child-Perm half part))))
  where
    part : List Entry
    part = take (end - from) (drop from arr)

    whole : take from arr ++ (take (end - from) (drop from arr) ++ drop end arr) ≡ arr
    whole =
        let reach : from + (end - from) ≡ end = omega arith in
        ap (λ k. take from arr ++ (take (end - from) (drop from arr) ++ drop k arr)) (sym reach)
        ∙ ap (λ t. take from arr ++ (take (end - from) (drop from arr) ++ t))
            (sym (drop-drop from (end - from) arr))
        ∙ ap (λ t. take from arr ++ t) (take-append-drop (end - from) (drop from arr))
        ∙ take-append-drop from arr

children-Perm :
    (base size left k : ℕ) (arr : List Entry)
    → Perm (names (merge_children base size left k arr)) (names arr)
unfolding merge_children
children-Perm base size left zero arr = Perm.rfl
children-Perm base size left (suc k) arr =
    let i = base - suc k in
    let end : ℕ = if i == base - 1 then size * (i + 1) + left else size * (i + 1) in
    let beyond : size * i ≤ end = end_of i in
    Perm.trans (children-Perm base size left k _) (child-Perm (size * i) end (size / 2) arr beyond)
  where
    end_of : (i : ℕ) → size * i ≤ (if i == base - 1 then size * (i + 1) + left else size * (i + 1))
    end_of i = ground arith

pub passes-Perm :
    (fuel base size left : ℕ) (arr : List Entry)
    → Perm (names (merge_passes fuel base size left arr)) (names arr)
unfolding merge_passes
passes-Perm zero base size left arr = Perm.rfl
passes-Perm (suc fuel) base size left arr = elim (Bool-cases (leb 1 base)) [
  | inl e ↦ rw e (
      Perm.trans
        (passes-Perm fuel (base / 2) (size * 2) left (merge_children base size left base arr))
        (children-Perm base size left base arr))
  | inr e ↦ rw e Perm.rfl
]
