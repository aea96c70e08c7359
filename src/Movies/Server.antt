-- ===== src/Movies/Server.antt =====
-- hw4_simple-movies-recommendation-system-lala-ju/server.c, built with THREAD: `main` from the two inputs to
-- the files it writes, with `wr`. The threads of different requests work on arrays of their own, and run here
-- one after the other.
mod Tests
use mathlib.Core.Bool.{not}
use mathlib.Core.List.{Perm, map}
use system_programming_homew.Prelude.{
  ℕ, suc, ◌+◌, ◌^◌, ◌≡◌, ◌≢◌, ◌<◌, Bool, true, false, ◌&&◌, ◌||◌, if◌then◌else◌, List, [], ◌∷◌,
  ◌++◌, Option, none, some, length,
}
use system_programming_homew.Prelude.Int.{ℤ, pos, negsuc, leb_ℤ}
use system_programming_homew.Movies.Entry.{Entry}
use system_programming_homew.Movies.Select.{◌>>=◌, secret}
use system_programming_homew.Movies.Merge.Order.{IsRanked}
use system_programming_homew.Movies.Search.{MovieProfile, cal, answer}
use system_programming_homew.Movies.Search.Sorting.{IsGood}
use system_programming_homew.Movies.Input.{
  Doubles, Request, products, score, initialize, initialize_requests,
}
use system_programming_homew.Movies.Input.Numerals.{numeral}
use system_programming_homew.Movies.Input.Fields.{profile_of}
use system_programming_homew.Movies.Input.File as File
use system_programming_homew.Movies.Input.Requests as Requests

-- `%d`, and the name of a request's file.
abbrev print_int : ℤ → List ℕ
print_int (pos n) = numeral n
print_int (negsuc n) = b'-' ∷ numeral (n + 1)

abbrev pub filename : ℤ → List ℕ
filename id = print_int id ++ b't' ∷ b'.' ∷ b'o' ∷ b'u' ∷ b't' ∷ []

unfoldable pub names : List Entry → List ℕ
names [] = []
names (e ∷ es) = e.name ++ 10 ∷ names es

module _ (d : Doubles) where
  -- The name and the text of the file that `wr` writes.
  abbrev pub wr : Request d → List Entry → List ℕ × List ℕ
  wr r found = (filename r.id, names found)

  unfoldable pub serve_all :
      List (ℤ × MovieProfile (List d.Double)) → List (Request d) → Option (List (List ℕ × List ℕ))
  unfolding answer names
  serve_all movies [] = some []
  serve_all movies (r ∷ rs) = do
    found ← answer (score d r) r.keywords (map (λ m. m.1) movies)
    files ← serve_all movies rs
    some (wr r found ∷ files)

  -- Whether no two requests have one id, and so one file.
  abbrev same_id : ℤ → ℤ → Bool
  same_id i j = leb_ℤ i j && leb_ℤ j i

  abbrev has_id : ℤ → List (Request d) → Bool
  has_id i [] = false
  has_id i (r ∷ rs) = same_id i r.id || has_id i rs

  abbrev pub apart : List (Request d) → Bool
  apart [] = true
  apart (r ∷ rs) = not (has_id r.id rs) && apart rs

  -- `main`, from the bytes of the two inputs to the files. Two threads that open one file with `w+` and
  -- write it at the same time have no outcome here.
  unfoldable pub tserver : List ℕ → List ℕ → Option (List (List ℕ × List ℕ))
  unfolding initialize initialize_requests serve_all
  tserver file input = do
    movies ← initialize d file
    reqs ← initialize_requests d input
    if apart reqs then serve_all movies reqs else none

  -- The movies that a query finds, with their scores.
  abbrev pub found_by : List File.Listing → Requests.Query → List Entry
  found_by ms q =
      cal (score d (Requests.request_of d q)) q.keywords (map (λ m. m.1) (map (File.movie_of d) ms))

  -- One file per query: all the movies found, in order.
  abbrev pub AllServed : List File.Listing → List Requests.Query → List (List ℕ × List ℕ) → Type 0
  AllServed ms [] [] = Unit {0}
  AllServed ms [] (f ∷ fs) = ⊥
  AllServed ms (q ∷ qs) [] = ⊥
  AllServed ms (q ∷ qs) (f ∷ fs) =
      ((out : List Entry) × (f ≡ (filename (pos q.id), names out))
        × IsRanked out
        × Perm out (map secret (found_by ms q)))
      × AllServed ms qs fs

  -- The sums of products of a query are neither infinite nor NaN.
  abbrev pub AllFinite : List File.Listing → Requests.Query → Type 0
  AllFinite [] q = Unit {0}
  AllFinite (m ∷ ms) q =
      (d.is_finite (products d d.nought (profile_of d q.genres) (profile_of d m.genres)) ≡ true)
      × AllFinite ms q

  -- Each query finds some movie, and can sort what it finds.
  abbrev pub AllFind : List File.Listing → List Requests.Query → Type 0
  AllFind ms [] = Unit {0}
  AllFind ms (q ∷ qs) =
      (0 < length (found_by ms q)) × IsGood (found_by ms q) × AllFinite ms q × AllFind ms qs

  -- No query has the id of another.
  abbrev pub IsOther : ℕ → List Requests.Query → Type 0
  IsOther i [] = Unit {0}
  IsOther i (q ∷ qs) = (i ≢ q.id) × IsOther i qs

  abbrev pub AllApart : List Requests.Query → Type 0
  AllApart [] = Unit {0}
  AllApart (q ∷ qs) = IsOther q.id qs × AllApart qs
