-- ===== src/Movies/Server/Tests.antt =====
-- Concrete inputs of hw4_simple-movies-recommendation-system-lala-ju: one movie and one request, with
-- whole numbers in the place of `double`.
use mathlib.Core.List.{map}
use system_programming_homew.Prelude.{
  ℕ, zero, suc, ◌+◌, ◌*◌, ◌/◌, ◌-◌, ◌≡◌, refl, Bool, true, false, ◌&&◌, List, [], ◌∷◌, ◌++◌, some,
  ltb, ◌==◌, if◌then◌else◌, Bool-cases, inl, inr, replicate, arith,
}
use mathlib.Core.Bool.{not}
use system_programming_homew.Prelude.Int.{pos}
use system_programming_homew.CString.{decimal, is_digit, is_space}
use system_programming_homew.CString.Tokens.{Lacks}
use system_programming_homew.Movies.Entry.{Entry}
use system_programming_homew.Movies.Input.{Doubles, initialize, initialize_requests}
use system_programming_homew.Movies.Input.Fields.{fields, IsToken, Every}
use system_programming_homew.Movies.Input.Numerals.{numeral, NoSpace}
use system_programming_homew.Movies.Input.File as File
use system_programming_homew.Movies.Input.Requests as Requests

-- Whole numbers: `div` and `sqrt` round down.
abbrev root : ℕ → ℕ → ℕ
root zero n = 0
root (suc k) n = if ltb n (suc k * suc k) then root k n else suc k

decimal-brace :
    (acc : ℕ) (text rest : List ℕ) → decimal acc (text ++ b'}' ∷ rest) ≡ decimal acc text
unfolding decimal
decimal-brace acc [] rest = refl
decimal-brace acc (c ∷ text) rest = elim (Bool-cases (is_digit c)) [
  | inl e ↦ rw e (decimal-brace (acc * 10 + (c - b'0')) text rest)
  | inr e ↦ rw e
]

abbrev whole : Doubles
whole = record {
  Double = ℕ;
  nought = 0;
  add = λ a b. a + b;
  mul = λ a b. a * b;
  div = λ a b. a / b;
  sqrt = λ n. root n n;
  is_nought = λ n. n == 0;
  is_finite = λ n. true;
  units = pos;
  strtod = decimal 0;
  strtod_brace = decimal-brace 0;
}

-- Tests for the conditions on texts.
abbrev lacks : ℕ → List ℕ → Bool
lacks delim [] = true
lacks delim (c ∷ cs) = not (c == delim) && lacks delim cs

and-parts : (a b : Bool) → (a && b) ≡ true → (a ≡ true) × (b ≡ true)
and-parts true true h = (refl, refl)
and-parts true false h = absurd (ground (arith, h))
and-parts false b h = absurd (ground (arith, h))

lacks_lem : (delim : ℕ) (cs : List ℕ) → lacks delim cs ≡ true → Lacks delim cs
lacks_lem delim [] h = tt
lacks_lem delim (c ∷ cs) h =
    let (first, others) = and-parts (not (c == delim)) (lacks delim cs) h in
    (ground arith, lacks_lem delim cs others)

abbrev one_word : List ℕ → Bool
one_word [] = true
one_word (c ∷ cs) = not (is_space c) && one_word cs

one_word_lem : (cs : List ℕ) → one_word cs ≡ true → NoSpace cs
one_word_lem [] h = tt
one_word_lem (c ∷ cs) h =
    let (first, others) = and-parts (not (is_space c)) (one_word cs) h in
    (ground arith, one_word_lem cs others)

zeros-tokens : (n : ℕ) → Every (IsToken b',') (replicate n (b'0' ∷ []))
zeros-tokens zero = tt
zeros-tokens (suc n) = ((omega arith, tt), zeros-tokens n)

-- A movie of the first genre, and a request for movies of it.
abbrev genres : List (List ℕ)
genres = (b'1' ∷ []) ∷ replicate 18 (b'0' ∷ [])

genres-tokens : Every (IsToken b',') genres
genres-tokens = ((omega arith, tt), zeros-tokens 18)

abbrev brazil : File.Listing
brazil = record { id = b'7' ∷ []; title = b'B' ∷ b'r' ∷ []; genres = genres }

abbrev all_movies : Requests.Query
all_movies = record { id = 5; keywords = b'*' ∷ []; genres = genres }

brazil-IsListing : File.IsListing brazil
unfolding fields
brazil-IsListing = record {
  id-token = (omega arith, tt);
  title-lacks = (omega arith, (omega arith, tt));
  genres-tokens = genres-tokens;
  genres-length = refl;
  no_nul = lacks_lem 0 (File.line brazil) refl;
  one_line = lacks_lem 10 (File.line brazil) refl;
  fits = omega arith;
}

all_movies-IsQuery : Requests.IsQuery all_movies
unfolding fields
all_movies-IsQuery = record {
  id-fits = omega arith;
  keywords-word = ((refl, tt), (omega arith, tt), omega arith);
  genres-word =
      (one_word_lem (fields [] genres) refl, lacks_lem 0 (fields [] genres) refl, omega arith);
  genres-tokens = genres-tokens;
  genres-length = refl;
}

-- The same for another client.
abbrev again : Requests.Query
again = record { id = 6; keywords = b'*' ∷ []; genres = genres }

initialize-lines_example :
    initialize whole (b'h' ∷ 10 ∷ File.lines (brazil ∷ []))
    ≡ some (map (File.movie_of whole) (brazil ∷ []))
initialize-lines_example =
    File.initialize-lines whole (b'h' ∷ []) (brazil ∷ []) (omega arith, tt) (omega arith)
      (brazil-IsListing, tt) (omega arith)

initialize_requests-lines_example :
    initialize_requests whole (numeral 1 ++ 10 ∷ Requests.lines (all_movies ∷ []))
    ≡ some (map (Requests.request_of whole) (all_movies ∷ []))
initialize_requests-lines_example =
    Requests.initialize_requests-lines whole (all_movies ∷ []) (all_movies-IsQuery, tt)
      (omega arith)
