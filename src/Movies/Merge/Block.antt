-- ===== src/Movies/Merge/Block.antt =====
-- hw4_simple-movies-recommendation-system-lala-ju/server.c: `truemerge` inside the array and the merge
-- of two lists.
use mathlib.Core.List.{append_assoc, append-nil}
use system_programming_homew.Prelude.{
  ℕ, suc, ◌+◌, ◌-◌, ◌≤◌, ◌≡◌, refl, sym, ap, ◌∙◌, true, false, Bool-cases, ◌⊎◌, inl, inr, List, [],
  ◌∷◌, ◌++◌, length, length-append, length-take, length-drop, take-append-drop, set-middle,
  get_elem?-middle, shift, take-append, drop-append, set, take, drop, arith,
}
use system_programming_homew.Movies.Entry.{Entry}
use system_programming_homew.Movies.Merge.{takes_left, merge_loop, copy_left, copy_new, merge_block}

-- The merge as a list.
unfoldable pub merged : List Entry → List Entry → List Entry
merged [] r = r
merged (x ∷ l) [] = x ∷ l
merged (x ∷ l) (y ∷ r) = elim (takes_left x y) [
  | true ↦ x ∷ merged l (y ∷ r)
  | false ↦ y ∷ merged (x ∷ l) r
]

-- Writing over a stretch of the block.
pub copy_new-middle :
    (xs a b c : List Entry) (i : ℕ)
    → i ≡ length a
    → length b ≡ length xs
    → copy_new (a ++ (b ++ c)) i xs ≡ a ++ (xs ++ c)
unfolding copy_new
copy_new-middle [] a [] c i h k = refl
copy_new-middle [] a (y ∷ b) c i h k = absurd (omega arith)
copy_new-middle (x ∷ xs) a [] c i h k = absurd (omega arith)
copy_new-middle (x ∷ xs) a (y ∷ b) c i h k =
    ap (λ t. copy_new t (i + 1) xs) (set-middle a y x (b ++ c) i h ∙ shift a x (b ++ c))
    ∙ copy_new-middle xs (a ++ x ∷ []) b c (i + 1) (omega (arith, length-append a (x ∷ [])))
        (omega arith)
    ∙ sym (shift a x (xs ++ c))

-- What is left of the left block moves over the last entries: `keep` stands between them.
copy_left-middle :
    (ls a keep old : List Entry) (s : ℕ)
    → s ≡ length a + length ls
    → length old ≡ length ls
    → copy_left (a ++ (ls ++ (keep ++ old))) s (length ls) ≡ a ++ (ls ++ (keep ++ ls))
unfolding copy_left
copy_left-middle [] a keep [] s h k = refl
copy_left-middle [] a keep (y ∷ old) s h k = absurd (omega arith)
copy_left-middle (x ∷ ls) a keep [] s h k = absurd (omega arith)
copy_left-middle (x ∷ ls) a keep (y ∷ old) s h k =
    rw
      (
        get_elem?-middle a x (ls ++ (keep ++ y ∷ old)) (s - suc (length ls)) (omega arith),
        copy_left,
      )
      (ap (λ t. copy_left t s (length ls)) moved
        ∙ copy_left-middle ls (a ++ x ∷ []) (keep ++ x ∷ []) old s
            (omega (arith, length-append a (x ∷ []))) (omega arith)
        ∙ simp append_assoc)
  where
    block : List Entry
    block = a ++ x ∷ (ls ++ (keep ++ y ∷ old))

    apart : block ≡ (a ++ x ∷ (ls ++ keep)) ++ y ∷ old
    apart = simp append_assoc

    place : length block - suc (length ls) ≡ length (a ++ x ∷ (ls ++ keep))
    place = omega (
      arith,
      length-append a (x ∷ (ls ++ (keep ++ y ∷ old))),
      length-append ls (keep ++ y ∷ old),
      length-append keep (y ∷ old),
      length-append a (x ∷ (ls ++ keep)),
      length-append ls keep,
    )

    moved :
        set block (length block - suc (length ls)) x
        ≡ (a ++ x ∷ []) ++ (ls ++ ((keep ++ x ∷ []) ++ old))
    moved =
        ap (λ t. set t (length block - suc (length ls)) x) apart
        ∙ set-middle (a ++ x ∷ (ls ++ keep)) y x old _ place
        ∙ simp append_assoc

pub merged_left :
    (x y : Entry) (l r : List Entry)
    → takes_left x y ≡ true
    → merged (x ∷ l) (y ∷ r) ≡ x ∷ merged l (y ∷ r)
unfolding merged
merged_left x y l r e = rw (e, merged)

pub merged_right :
    (x y : Entry) (l r : List Entry)
    → takes_left x y ≡ false
    → merged (x ∷ l) (y ∷ r) ≡ y ∷ merged (x ∷ l) r
unfolding merged
merged_right x y l r e = rw (e, merged)

-- The loop consumes one block, and puts out what the merge begins with.
pub record Merges (l r out : List Entry) (res : List Entry × List Entry × List Entry) : Type 0 where
  pub front : List Entry
  pub out_ok : res.0 ≡ out ++ front
  pub whole : merged l r ≡ front ++ (res.1 ++ res.2)
  pub one_empty : (res.1 ≡ []) ⊎ (res.2 ≡ [])
  pub left_part : (used : List Entry) × (l ≡ used ++ res.1)
  pub right_part : (used : List Entry) × (r ≡ used ++ res.2)
  pub counted : length front + length res.1 + length res.2 ≡ length l + length r

pub merge_loop-Merges : (l r out : List Entry) → Merges l r out (merge_loop l r out)
unfolding merge_loop merged
merge_loop-Merges [] r out = record {
  front = [];
  out_ok = sym (append-nil out);
  whole = refl;
  one_empty = inl refl;
  left_part = ([], refl);
  right_part = ([], refl);
  counted = omega arith;
}
merge_loop-Merges (x ∷ l) [] out = record {
  front = [];
  out_ok = sym (append-nil out);
  whole = sym (append-nil (x ∷ l));
  one_empty = inr refl;
  left_part = ([], refl);
  right_part = ([], refl);
  counted = omega arith;
}
merge_loop-Merges (x ∷ l) (y ∷ r) out = elim (Bool-cases (takes_left x y)) [
  | inl e ↦
      let m = merge_loop-Merges l (y ∷ r) (out ++ x ∷ []) in
      rw (e, merge_loop)
        (record {
          front = x ∷ m.front;
          out_ok = m.out_ok ∙ append_assoc out (x ∷ []) m.front;
          whole = merged_left x y l r e ∙ ap (◌∷◌ x) m.whole;
          one_empty = m.one_empty;
          left_part = (x ∷ m.left_part.0, ap (◌∷◌ x) m.left_part.1);
          right_part = m.right_part;
          counted = omega (arith, m.counted);
        })
  | inr e ↦
      let m = merge_loop-Merges (x ∷ l) r (out ++ y ∷ []) in
      rw (e, merge_loop)
        (record {
          front = y ∷ m.front;
          out_ok = m.out_ok ∙ append_assoc out (y ∷ []) m.front;
          whole = merged_right x y l r e ∙ ap (◌∷◌ y) m.whole;
          one_empty = m.one_empty;
          left_part = m.left_part;
          right_part = (y ∷ m.right_part.0, ap (◌∷◌ y) m.right_part.1);
          counted = omega (arith, m.counted);
        })
]

-- The left block used up: the rest of the right block is in place already.
finish_right :
    (l used r' front : List Entry)
    → length front ≡ length l + length used
    → copy_new (l ++ (used ++ r')) 0 front ≡ front ++ r'
finish_right l used r' front h =
    ap (λ t. copy_new t 0 front) (sym (append_assoc l used r'))
    ∙ copy_new-middle front [] (l ++ used) r' 0 refl (omega (arith, length-append l used))

-- The right block used up: the rest of the left block moves to the end.
finish_left :
    (used l' r front : List Entry) (s : ℕ)
    → s ≡ length used + length l'
    → length l' ≤ length r
    → length front ≡ length used + length r
    → copy_new (copy_left ((used ++ l') ++ r) s (length l')) 0 front ≡ front ++ l'
finish_left used l' r front s hs room h =
    ap (λ t. copy_new (copy_left t s (length l')) 0 front) split
    ∙ ap (λ t. copy_new t 0 front) (copy_left-middle l' used keep old s hs old_length)
    ∙ ap (λ t. copy_new t 0 front) regroup
    ∙ copy_new-middle front [] (used ++ (l' ++ keep)) l' 0 refl
        (omega (arith, length-append used (l' ++ keep), length-append l' keep, keep_length))
  where
    keep : List Entry
    keep = take (length r - length l') r

    old : List Entry
    old = drop (length r - length l') r

    keep_length : length keep ≡ length r - length l'
    keep_length = omega (arith, length-take (length r - length l') r)

    old_length : length old ≡ length l'
    old_length = omega (arith, length-drop (length r - length l') r)

    split : (used ++ l') ++ r ≡ used ++ (l' ++ (keep ++ old))
    split =
        append_assoc used l' r
        ∙ ap (λ t. used ++ (l' ++ t)) (sym (take-append-drop (length r - length l') r))

    regroup : used ++ (l' ++ (keep ++ l')) ≡ [] ++ ((used ++ (l' ++ keep)) ++ l')
    regroup = simp append_assoc

-- On a left block of s entries and a right block of at least s entries, truemerge with its copies
-- inside the array gives the merge of the two lists, whatever they hold.
pub merge_block-merged :
    (s : ℕ) (l r : List Entry) → length l ≡ s → s ≤ length r → merge_block s (l ++ r) ≡ merged l r
unfolding merge_block
merge_block-merged s l r hs room =
    rw (take-append l r s hs, drop-append l r s hs)
      (ap (copy_new (copy_left (l ++ r) s (length rest.1)) 0) m.out_ok ∙ elim m.one_empty [
        | inl no_left ↦
            ap (λ t. copy_new (copy_left (l ++ r) s (length t)) 0 m.front) no_left
            ∙ ap (λ t. copy_new (l ++ t) 0 m.front) m.right_part.1
            ∙ finish_right l m.right_part.0 rest.2 m.front
                (omega (arith, m.counted, ap length no_left, right_length))
            ∙ ap (λ t. m.front ++ (t ++ rest.2)) (sym no_left)
            ∙ sym m.whole
        | inr no_right ↦
            ap (λ t. copy_new (copy_left (t ++ r) s (length rest.1)) 0 m.front) m.left_part.1
            ∙ finish_left m.left_part.0 rest.1 r m.front s (omega (arith, left_length))
                (omega (arith, left_length))
                (omega (arith, m.counted, ap length no_right, left_length))
            ∙ ap (λ t. m.front ++ t) (sym (append-nil rest.1))
            ∙ ap (λ t. m.front ++ (rest.1 ++ t)) (sym no_right)
            ∙ sym m.whole
      ])
  where
    rest : List Entry × List Entry × List Entry
    rest = merge_loop l r []

    m : Merges l r [] rest
    m = merge_loop-Merges l r []

    left_length : length l ≡ length m.left_part.0 + length rest.1
    left_length = ap length m.left_part.1 ∙ length-append m.left_part.0 rest.1

    right_length : length r ≡ length m.right_part.0 + length rest.2
    right_length = ap length m.right_part.1 ∙ length-append m.right_part.0 rest.2
