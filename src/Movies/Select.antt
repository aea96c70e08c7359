-- ===== src/Movies/Select.antt =====
-- hw4_simple-movies-recommendation-system-lala-ju/lib.c: `sort`, a selection sort that also puts a
-- suffix behind each name. The loop's index `i` only moves forward, and what stands before it is done,
-- so the array is seen from `i` on.
pub mod Choice
pub mod Sorted
use system_programming_homew.Prelude.{
  ℕ, zero, suc, ◌+◌, ◌-◌, ◌^◌, ◌≡◌, Bool, true, false, List, [], ◌∷◌, ◌++◌, Option, none, some,
  ◌==◌, if◌then◌else◌, ltb, length, get_elem?, set,
}
use system_programming_homew.Prelude.Int.{ℤ, pos, negsuc, pos_part, neg_part, ltb_ℤ}
use system_programming_homew.CString.{strcmp}
use system_programming_homew.Movies.Entry.{Entry, eq_ℤ, is_more}

abbrev pub max_len : ℕ
max_len = 0xff

-- -1.0, in units of 2^-1074.
unfoldable pub minus_one : ℤ
minus_one = negsuc (2 ^ 1074 - 1)

-- The `for` of `argmax`: `name` is `movie[ret]`, and `i` counts from `start`.
unfoldable pub argmax_loop : List Entry → ℕ → ℕ → List ℕ → ℤ → ℕ × ℤ
argmax_loop [] i ret name max = (ret, max)
argmax_loop (e ∷ es) i ret name max = elim (ltb_ℤ max e.score) [
  | true ↦ argmax_loop es (i + 1) i e.name e.score
  | false ↦ elim (eq_ℤ e.score max) [
    | true ↦ elim (is_more (strcmp name e.name)) [
      | true ↦ argmax_loop es (i + 1) i e.name max
      | false ↦ argmax_loop es (i + 1) ret name max
    ]
    | false ↦ argmax_loop es (i + 1) ret name max
  ]
]

-- The place of the entry that comes first; `none` where an assertion fails.
unfoldable pub argmax : Entry → List Entry → Option ℕ
unfolding argmax_loop minus_one
argmax e es =
    let (ret, max) = argmax_loop (e ∷ es) 0 0 e.name minus_one in
    if ltb_ℤ max (pos 0) then none else some ret

-- `swap` of the first entry and that at place `i`; a place outside the array is no behaviour at all.
unfoldable pub swap : Entry → List Entry → ℕ → Option (Entry × List Entry)
swap e es zero = some (e, es)
swap e es (suc i) = elim (get_elem? es i) [ none ↦ none | some x ↦ some (x, set es i e) ]

abbrev pub key : List ℕ
key =
    9 ∷ b'[' ∷ b'I' ∷ b't' ∷ 39 ∷ b's' ∷ b' ' ∷ b't' ∷ b'o' ∷ b'p' ∷ b' ' ∷ b's' ∷ b'e' ∷ b'c'
    ∷ b'r' ∷ b'e' ∷ b't' ∷ b'.' ∷ b']' ∷ []

abbrev pub secret : Entry → Entry
secret e = record e { name = e.name ++ key }

unfoldable pub add_secret : Entry → Option Entry
add_secret e = if ltb (length e.name) max_len then some (secret e) else none

infixl 5 ◌>>=◌
abbrev pub ◌>>=◌ {ℓ κ} : {A : Type ℓ} {B : Type κ} → Option A → (A → Option B) → Option B
none >>= f = none
some a >>= f = f a

-- The rounds of `sort` on the `n + 1` entries that are left.
unfoldable pub sort_loop : ℕ → Entry → List Entry → Option (List Entry)
unfolding argmax swap add_secret
sort_loop zero e es = do e' ← add_secret e; some (e' ∷ es)
sort_loop (suc n) e es = do
  idx ← argmax e es
  swapped ← swap e es idx
  first ← add_secret swapped.0
  rest ← elim swapped.1 [ [] ↦ none | x ∷ xs ↦ sort_loop n x xs ]
  some (first ∷ rest)

-- `sort`: `validate` wants no more entries than movies, and the last statement wants one entry.
unfoldable pub sort : ℕ → List Entry → Option (List Entry)
unfolding sort_loop
sort num_of_movies [] = none
sort num_of_movies (e ∷ es) =
    if ltb num_of_movies (length (e ∷ es)) then none else sort_loop (length es) e es
