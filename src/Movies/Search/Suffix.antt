-- ===== src/Movies/Search/Suffix.antt =====
-- hw4_simple-movies-recommendation-system-lala-ju/lib.c: the suffix and the order of names.
use mathlib.Core.List.{
  Mem, Pairwise, Pairwise-cons, not-mem-nil, mem-cons_self, mem-cons_of_mem, map,
}
use system_programming_homew.Prelude.{ℕ, ◌<◌, ◌≡◌, refl, List, [], ◌∷◌, ◌++◌, arith}
use system_programming_homew.CString.{strcmp}
use system_programming_homew.Movies.Entry.{Entry, ranked}
use system_programming_homew.Movies.Select.{key, secret}
use system_programming_homew.Movies.Select.Choice.{IsBefore, IsBefore-cons}
use system_programming_homew.Movies.Merge.Order.{IsRanked}

-- All bytes are above the tab that the suffix begins with.
abbrev pub IsPlain : List ℕ → Type 0
IsPlain [] = Unit {0}
IsPlain (c ∷ cs) = (9 < c) × IsPlain cs

strcmp-suffix : (a b : List ℕ) → IsPlain a → IsPlain b → strcmp (a ++ key) (b ++ key) ≡ strcmp a b
unfolding strcmp
strcmp-suffix [] [] ha hb = refl
strcmp-suffix [] (d ∷ b) ha hb = ground (arith, hb.0)
strcmp-suffix (c ∷ a) [] ha hb = ground (arith, ha.0)
strcmp-suffix (c ∷ a) (d ∷ b) ha hb = rw (strcmp-suffix a b ha.1 hb.1)

secret-ranked :
    (a b : Entry) → IsPlain a.name → IsPlain b.name → ranked (secret a) (secret b) ≡ ranked a b
unfolding ranked
secret-ranked a b ha hb = rw (strcmp-suffix a.name b.name ha hb)

abbrev pub ArePlain : List Entry → Type 0
ArePlain es = (x : Entry) → Mem x es → IsPlain x.name

secret-IsBefore :
    (a : Entry) (es : List Entry)
    → IsPlain a.name
    → ArePlain es
    → IsBefore a es
    → IsBefore (secret a) (map secret es)
secret-IsBefore a [] ha h k = λ x m. absurd (not-mem-nil m)
secret-IsBefore a (b ∷ es) ha h k =
    IsBefore-cons (secret a) (secret b) (map secret es)
      (rw (secret-ranked a b ha (h b mem-cons_self)) (k b mem-cons_self))
      (secret-IsBefore a es ha (λ x m. h x (mem-cons_of_mem b m))
        (λ x m. k x (mem-cons_of_mem b m)))

pub secret-IsRanked : (es : List Entry) → ArePlain es → IsRanked es → IsRanked (map secret es)
secret-IsRanked [] h ranks = Pairwise.nil
secret-IsRanked (e ∷ es) h ranks =
    let (below, rest) = Pairwise-cons.0 ranks in
    let plain : ArePlain es = λ x m. h x (mem-cons_of_mem e m) in
    Pairwise.cons (secret-IsBefore e es (h e mem-cons_self) plain below)
      (secret-IsRanked es plain rest)
