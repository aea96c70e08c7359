-- ===== src/Movies/Select/Choice.antt =====
-- hw4_simple-movies-recommendation-system-lala-ju/lib.c: `argmax`, its loop and its result.
use mathlib.Core.List.{Mem, not-mem-nil, forall_mem-cons}
use mathlib.Core.Bool.{Bool-set}
use system_programming_homew.Prelude.{
  ℕ, suc, ◌+◌, ◌≡◌, refl, sym, ap, subst, ◌∙◌, ◌⊎◌, inl, inr, true, false, List, [], ◌∷◌, some,
  Bool-cases, get_elem?, arith,
}
use system_programming_homew.Prelude.Int.{ℤ, pos, ltb_ℤ, ◌≤ℤ◌, eq_of_parts}
use system_programming_homew.CString.{strcmp}
use system_programming_homew.Movies.Entry.{
  Entry, eq_ℤ, is_more, ranked, ◌≼◌, ≼_refl, ≼_trans, strcmp_total,
}
use system_programming_homew.Movies.Select.{argmax_loop, argmax, minus_one}

-- `e` comes before all of `es`.
abbrev pub IsBefore : Entry → List Entry → Type 0
IsBefore e es = (x : Entry) → Mem x es → e ≼ x

pub IsBefore-cons : (a b : Entry) (l : List Entry) → a ≼ b → IsBefore a l → IsBefore a (b ∷ l)
IsBefore-cons a b l p h = (forall_mem-cons (λ x. Bool-set _ _)).1 (p, h)

-- What the loop returns from the best entry so far, at place `ret`, and the entries from `i` on.
pub record Best (best : Entry) (es : List Entry) (i ret : ℕ) (out : ℕ × ℤ) : Type 0 where
  pub winner : Entry
  pub score_ok : winner.score ≡ out.1
  pub place :
      ((out.0 ≡ ret) × (winner ≡ best))
      ⊎ ((j : ℕ) × (out.0 ≡ i + j) × (get_elem? es j ≡ some winner))
  pub first : winner ≼ best
  pub below : IsBefore winner es

Best-new :
    (best e : Entry) (es : List Entry) (i ret : ℕ) (out : ℕ × ℤ)
    → Best e es (i + 1) i out
    → e ≼ best
    → Best best (e ∷ es) i ret out
Best-new best e es i ret out b h = record {
  winner = b.winner;
  score_ok = b.score_ok;
  place = inr (elim b.place [
    | inl (p, q) ↦ (0, omega arith, ap some (sym q))
    | inr (j, p, q) ↦ (suc j, omega arith, q)
  ]);
  first = ≼_trans b.winner e best b.first h;
  below = IsBefore-cons b.winner e es b.first b.below;
}

Best-keep :
    (best e : Entry) (es : List Entry) (i ret : ℕ) (out : ℕ × ℤ)
    → Best best es (i + 1) ret out
    → best ≼ e
    → Best best (e ∷ es) i ret out
Best-keep best e es i ret out b h = record {
  winner = b.winner;
  score_ok = b.score_ok;
  place = elim b.place [ inl (p, q) ↦ inl (p, q) | inr (j, p, q) ↦ inr (suc j, omega arith, q) ];
  first = b.first;
  below = IsBefore-cons b.winner e es (≼_trans b.winner best e b.first h) b.below;
}

score-ranked : (a b : Entry) → a ≼ b → pos 0 ≤ℤ b.score → ltb_ℤ a.score (pos 0) ≡ false
unfolding ranked
score-ranked a b h k = ground arith

same_score : (best e : Entry) → eq_ℤ e.score best.score ≡ true → e.score ≡ best.score
same_score best e h = eq_of_parts e.score best.score (ground arith)

pub argmax_loop-Best :
    (es : List Entry) (i ret : ℕ) (best : Entry)
    → Best best es i ret (argmax_loop es i ret best.name best.score)
unfolding argmax_loop ranked
argmax_loop-Best [] i ret best = record {
  winner = best;
  score_ok = refl;
  place = inl (refl, refl);
  first = ≼_refl best;
  below = λ x m. absurd (not-mem-nil m);
}
argmax_loop-Best (e ∷ es) i ret best = elim (Bool-cases (ltb_ℤ best.score e.score)) [
  | inl up ↦
      rw (up, argmax_loop)
        (Best-new best e es i ret _ (argmax_loop-Best es (i + 1) i e) (ground arith))
  | inr down ↦ elim (Bool-cases (eq_ℤ e.score best.score)) [
    | inl tie ↦ elim (Bool-cases (is_more (strcmp best.name e.name))) [
      | inl later ↦
          rw (down, tie, later, argmax_loop)
            (subst (λ v. Best best (e ∷ es) i ret (argmax_loop es (i + 1) i e.name v))
              (same_score best e tie)
              (Best-new best e es i ret _ (argmax_loop-Best es (i + 1) i e)
                (ground (arith, strcmp_total best.name e.name))))
      | inr no_later ↦
          rw (down, tie, no_later, argmax_loop)
            (Best-keep best e es i ret _ (argmax_loop-Best es (i + 1) ret best) (ground arith))
    ]
    | inr below ↦
        rw (down, below, argmax_loop)
          (Best-keep best e es i ret _ (argmax_loop-Best es (i + 1) ret best) (ground arith))
  ]
]

first_round :
    (e : Entry) (es : List Entry)
    → pos 0 ≤ℤ e.score
    → argmax_loop (e ∷ es) 0 0 e.name minus_one ≡ argmax_loop es 1 0 e.name e.score
unfolding argmax_loop minus_one
first_round e es h = ground arith

argmax-eq :
    (e : Entry) (es : List Entry) (b : Best e es 1 0 (argmax_loop es 1 0 e.name e.score))
    → pos 0 ≤ℤ e.score
    → argmax e es ≡ some (argmax_loop es 1 0 e.name e.score).0
unfolding argmax
argmax-eq e es b h = rw (first_round e es h, not_negative)
  where
    not_negative : ltb_ℤ (argmax_loop es 1 0 e.name e.score).1 (pos 0) ≡ false
    not_negative = rw (← b.score_ok) (score-ranked b.winner e b.first h)

-- If the first of the entries has no negative score, argmax stops on no assertion and returns the
-- place of an entry that comes before all entries.
pub argmax_lem :
    (e : Entry) (es : List Entry)
    → pos 0 ≤ℤ e.score
    → (idx : ℕ) × (winner : Entry) × (argmax e es ≡ some idx)
      × (get_elem? (e ∷ es) idx ≡ some winner)
      × IsBefore winner (e ∷ es)
argmax_lem e es h =
    let b = argmax_loop-Best es 1 0 e in
    let whole = argmax-eq e es b h in
    let before = IsBefore-cons b.winner e es b.first b.below in
    elim b.place [
      | inl (at_start, same) ↦ (0, b.winner, whole ∙ ap some at_start, ap some (sym same), before)
      | inr (j, later, found) ↦
          (suc j, b.winner, whole ∙ ap some (later ∙ one_more j), found, before)
    ]
  where
    one_more : (j : ℕ) → 1 + j ≡ suc j
    one_more j = omega arith
