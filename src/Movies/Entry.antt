-- ===== src/Movies/Entry.antt =====
-- hw4_simple-movies-recommendation-system-lala-ju: an entry of the arrays `moviename` and `moviescore`,
-- which are always moved together, and the order that the program sorts by. A score is a finite
-- `double`, so it is a whole number of the smallest positive `double`, 2^-1074; the program only
-- compares scores here, and that is exact.
use mathlib.Core.Bool.{not}
use system_programming_homew.Prelude.{
  ℕ, ◌≡◌, refl, Bool, true, false, List, [], ◌∷◌, arith, ◌==◌, if◌then◌else◌, ◌+◌,
}
use system_programming_homew.Prelude.Int.{ℤ, pos_part, neg_part, ltb_ℤ}
use system_programming_homew.CString.{Sign, less, same, more, strcmp}

pub record Entry : Type 0 where
  pub name : List ℕ
  pub score : ℤ

abbrev pub eq_ℤ : ℤ → ℤ → Bool
eq_ℤ a b = pos_part a + neg_part b == pos_part b + neg_part a

abbrev pub is_more : Sign → Bool
is_more less = false
is_more same = false
is_more more = true

abbrev pub is_less : Sign → Bool
is_less less = true
is_less same = false
is_less more = false

-- `a` may stand in front of `b`: a higher score, or the same score and a name that is no later.
unfoldable pub ranked : Entry → Entry → Bool
ranked a b =
    if ltb_ℤ b.score a.score
    then true
    else if eq_ℤ b.score a.score
    then not (is_more (strcmp a.name b.name))
    else false

abbrev pub ◌≼◌ : Entry → Entry → Type 0
a ≼ b = ranked a b ≡ true

infix 4 ◌≼◌
strcmp_refl : (a : List ℕ) → strcmp a a ≡ same
unfolding strcmp
strcmp_refl [] = refl
strcmp_refl (c ∷ a) = ground (arith, strcmp_refl a)

strcmp_trans :
    (a b c : List ℕ)
    → is_more (strcmp a b) ≡ false
    → is_more (strcmp b c) ≡ false
    → is_more (strcmp a c) ≡ false
unfolding strcmp
strcmp_trans [] [] c h k = k
strcmp_trans [] (y ∷ b) [] h k = refl
strcmp_trans [] (y ∷ b) (z ∷ c) h k = refl
strcmp_trans (x ∷ a) [] c h k = cc
strcmp_trans (x ∷ a) (y ∷ b) [] h k = cc
strcmp_trans (x ∷ a) (y ∷ b) (z ∷ c) h k = ground (arith, strcmp_trans a b c)

pub strcmp_total : (a b : List ℕ) → is_more (strcmp a b) ≡ true → is_more (strcmp b a) ≡ false
unfolding strcmp
strcmp_total [] [] h = cc
strcmp_total [] (y ∷ b) h = cc
strcmp_total (x ∷ a) [] h = refl
strcmp_total (x ∷ a) (y ∷ b) h = ground (arith, strcmp_total a b)

pub ≼_refl : (a : Entry) → a ≼ a
unfolding ranked
≼_refl a = ground (arith, strcmp_refl a.name)

pub ≼_trans : (a b c : Entry) → a ≼ b → b ≼ c → a ≼ c
unfolding ranked
≼_trans a b c h k = ground (arith, strcmp_trans a.name b.name c.name)

pub ≼_total : (a b : Entry) → ranked a b ≡ false → b ≼ a
unfolding ranked
≼_total a b h = ground (arith, strcmp_total a.name b.name)
