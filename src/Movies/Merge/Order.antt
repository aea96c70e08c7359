-- ===== src/Movies/Merge/Order.antt =====
-- hw4_simple-movies-recommendation-system-lala-ju/server.c: the order of a merged list.
use mathlib.Core.List.{Perm, Pairwise, Pairwise-cons, append-nil, perm_middle, mem-append}
use mathlib.Core.List.Perm
use mathlib.Core.Logic.Or
use mathlib.Core.Bool.{Bool-set}
use system_programming_homew.Prelude.{
  ℕ, ◌≡◌, refl, true, false, Bool-cases, inl, inr, List, [], ◌∷◌, ◌++◌, arith,
}
use system_programming_homew.CString.{strcmp}
use system_programming_homew.Movies.Entry.{Entry, ranked, ◌≼◌, ≼_trans, is_less, is_more}
use system_programming_homew.Movies.Select.Choice.{IsBefore, IsBefore-cons}
use system_programming_homew.Movies.Merge.{takes_left}
use system_programming_homew.Movies.Merge.Block.{merged, merged_left, merged_right}

abbrev pub IsRanked : List Entry → Type 0
IsRanked = Pairwise ◌≼◌

strcmp_flip : (a b : List ℕ) → is_less (strcmp a b) ≡ is_more (strcmp b a)
unfolding strcmp
strcmp_flip [] [] = refl
strcmp_flip [] (y ∷ b) = refl
strcmp_flip (x ∷ a) [] = refl
strcmp_flip (x ∷ a) (y ∷ b) = ground (arith, strcmp_flip a b)

left_first : (x y : Entry) → takes_left x y ≡ true → x ≼ y
unfolding ranked
left_first x y h = ground (arith, strcmp_flip x.name y.name)

right_first : (x y : Entry) → takes_left x y ≡ false → y ≼ x
unfolding ranked
right_first x y h = ground (arith, strcmp_flip x.name y.name)

pub merged-perm : (l r : List Entry) → Perm (merged l r) (l ++ r)
unfolding merged
merged-perm [] r = Perm.rfl
merged-perm (x ∷ l) [] = rw (append-nil l) Perm.rfl
merged-perm (x ∷ l) (y ∷ r) = elim (Bool-cases (takes_left x y)) [
  | inl e ↦ rw (merged_left x y l r e) (Perm.cons x (merged-perm l (y ∷ r)))
  | inr e ↦
      rw (merged_right x y l r e)
        (Perm.trans (Perm.cons y (merged-perm (x ∷ l) r)) (Perm.symm (perm_middle (x ∷ l) r)))
]

-- Before all of a merge is before all of both parts.
IsBefore-merged :
    (a : Entry) (l r : List Entry) → IsBefore a l → IsBefore a r → IsBefore a (merged l r)
IsBefore-merged a l r hl hr x m =
    Or.elim (Bool-set _ _) (mem-append.0 ((Perm.mem_iff (merged-perm l r)).0 m)) (hl x) (hr x)

IsBefore-head : (a b : Entry) (l : List Entry) → a ≼ b → IsBefore b l → IsBefore a (b ∷ l)
IsBefore-head a b l p h = IsBefore-cons a b l p λ x m. ≼_trans a b x p (h x m)

pub merged-IsRanked : (l r : List Entry) → IsRanked l → IsRanked r → IsRanked (merged l r)
unfolding merged
merged-IsRanked [] r hl hr = hr
merged-IsRanked (x ∷ l) [] hl hr = hl
merged-IsRanked (x ∷ l) (y ∷ r) hl hr =
    let (below_l, tail_l) = Pairwise-cons.0 hl in
    let (below_r, tail_r) = Pairwise-cons.0 hr in
    elim (Bool-cases (takes_left x y)) [
      | inl e ↦ rw (merged_left x y l r e) (
          Pairwise.cons
            (IsBefore-merged x l (y ∷ r) below_l (IsBefore-head x y r (left_first x y e) below_r))
            (merged-IsRanked l (y ∷ r) tail_l hr))
      | inr e ↦ rw (merged_right x y l r e) (
          Pairwise.cons
            (IsBefore-merged y (x ∷ l) r (IsBefore-head y x l (right_first x y e) below_l) below_r)
            (merged-IsRanked (x ∷ l) r hl tail_r))
    ]
