-- ===== src/Movies/Input/File.antt =====
-- hw4_simple-movies-recommendation-system-lala-ju/server.c: a file of movies as it is written, a title row
-- and a line per movie, and what `initialize` makes of it.
use system_programming_homew.Prelude.{
  ℕ, zero, suc, ◌+◌, ◌-◌, ◌≡◌, ◌≤◌, ◌<◌, refl, ◌∙◌, List, [], ◌∷◌, ◌++◌, some, length, map, take,
  length-append, take-append, true, ltb, arith,
}
use mathlib.Core.List.{append_assoc}
use system_programming_homew.Prelude.Int.{ℤ}
use system_programming_homew.CString.{atoi, c_str}
use system_programming_homew.CString.Tokens.{Lacks, Lacks-append, fgets-line, c_str-Lacks}
use system_programming_homew.Movies.Search.{MovieProfile}
use system_programming_homew.Movies.Input.{
  Doubles, read_movie, read_movies, initialize, num_of_genre, max_movies, chunk_size,
}
use system_programming_homew.Movies.Input.Fields.{
  fields, fields-append, IsToken, Every, strtok-token, profile_of, read_profile-fields,
}

-- A movie as the file has it.
pub record Listing : Type 0 where
  pub id : List ℕ
  pub title : List ℕ
  pub genres : List (List ℕ)

abbrev pub line : Listing → List ℕ
line m = m.id ++ b' ' ∷ ((m.title ++ b' ' ∷ []) ++ b'{' ∷ fields (b'}' ∷ []) m.genres)

unfoldable pub lines : List Listing → List ℕ
lines [] = []
lines (m ∷ ms) = line m ++ 10 ∷ lines ms

-- An id that is not empty and has no space, a title without an opening brace, as many texts as there are
-- genres, none of them empty and none with a comma, on one line that fits in the buffer.
pub record IsListing (m : Listing) : Type 0 where
  pub id-token : IsToken b' ' m.id
  pub title-lacks : Lacks b'{' m.title
  pub genres-tokens : Every (IsToken b',') m.genres
  pub genres-length : length m.genres ≡ num_of_genre
  pub no_nul : Lacks 0 (line m)
  pub one_line : Lacks 10 (line m)
  pub fits : length (line m) + 1 ≤ chunk_size

abbrev pub AllListings : List Listing → Type 0
AllListings [] = Unit {0}
AllListings (m ∷ ms) = IsListing m × AllListings ms

take-init : (t : List ℕ) (x : ℕ) → take (length (t ++ x ∷ []) - 1) (t ++ x ∷ []) ≡ t
take-init t x =
    take-append t (x ∷ []) (length (t ++ x ∷ []) - 1)
      (let n = length-append t (x ∷ []) in omega arith)

title-IsToken : (t : List ℕ) → Lacks b'{' t → IsToken b'{' (t ++ b' ' ∷ [])
title-IsToken [] h = (omega arith, tt)
title-IsToken (c ∷ t) h = (h.0, Lacks-append b'{' t (b' ' ∷ []) (h.1) (omega arith, tt))

line-text :
    (m : Listing)
    → line m ++ 10 ∷ []
      ≡ m.id ++ b' ' ∷ ((m.title ++ b' ' ∷ []) ++ b'{' ∷ fields (b'}' ∷ 10 ∷ []) m.genres)
line-text m = rw (
  append_assoc m.id (b' ' ∷ ((m.title ++ b' ' ∷ []) ++ b'{' ∷ fields (b'}' ∷ []) m.genres))
      (10 ∷ []),
  append_assoc (m.title ++ b' ' ∷ []) (b'{' ∷ fields (b'}' ∷ []) m.genres) (10 ∷ []),
  fields-append (b'}' ∷ []) (10 ∷ []) m.genres,
)

line-string :
    (m : Listing)
    → IsListing m
    → c_str (line m ++ 10 ∷ [])
      ≡ m.id ++ b' ' ∷ ((m.title ++ b' ' ∷ []) ++ b'{' ∷ fields (b'}' ∷ 10 ∷ []) m.genres)
line-string m good =
    c_str-Lacks (line m ++ 10 ∷ [])
      (Lacks-append 0 (line m) (10 ∷ []) good.no_nul (omega arith, tt))
    ∙ line-text m

module _ (d : Doubles) where
  abbrev pub movie_of : Listing → ℤ × MovieProfile (List d.Double)
  movie_of m = (atoi m.id, record { title = m.title; profile = profile_of d m.genres })

  -- The number of the last genre ends at the brace.
  brace_end : (t : List ℕ) → d.strtod (t ++ b'}' ∷ 10 ∷ []) ≡ d.strtod t
  brace_end t = d.strtod_brace t (10 ∷ [])

  pub read_movie-line :
      (m : Listing) → IsListing m → read_movie d (line m ++ 10 ∷ []) ≡ some (movie_of m)
  unfolding read_movie
  read_movie-line m good = rw (
    line-string m good,
    strtok-token b' ' m.id ((m.title ++ b' ' ∷ []) ++ b'{' ∷ fields (b'}' ∷ 10 ∷ []) m.genres)
        good.id-token,
    strtok-token b'{' (m.title ++ b' ' ∷ []) (fields (b'}' ∷ 10 ∷ []) m.genres)
        (title-IsToken m.title good.title-lacks),
    read_profile-fields d (b'}' ∷ 10 ∷ []) m.genres (omega arith, (omega arith, tt)) (brace_end)
        good.genres-length good.genres-tokens,
    take-init m.title b' ',
  )

  -- A pass of the loop over the lines.
  read_movies-step :
      (fuel cnt : ℕ) (t rest : List ℕ) (x : ℤ × MovieProfile (List d.Double))
      (xs : List (ℤ × MovieProfile (List d.Double)))
      → Lacks 10 t
      → length t + 1 ≤ chunk_size
      → cnt < max_movies
      → read_movie d (t ++ 10 ∷ []) ≡ some x
      → read_movies d fuel (cnt + 1) rest ≡ some xs
      → read_movies d (suc fuel) cnt (t ++ 10 ∷ rest) ≡ some (x ∷ xs)
  unfolding read_movies
  read_movies-step fuel cnt [] rest x xs one_line fits few this others =
      let room : ltb cnt max_movies ≡ true = ground arith in
      rw (fgets-line chunk_size [] rest one_line fits, room, this, others)
  read_movies-step fuel cnt (c ∷ t) rest x xs one_line fits few this others =
      let room : ltb cnt max_movies ≡ true = ground arith in
      rw (fgets-line chunk_size (c ∷ t) rest one_line fits, room, this, others)

  read_movies-lines :
      (fuel cnt : ℕ) (ms : List Listing)
      → AllListings ms
      → length (lines ms) < fuel
      → cnt + length ms ≤ max_movies
      → read_movies d fuel cnt (lines ms) ≡ some (map movie_of ms)
  unfolding read_movies lines
  read_movies-lines zero cnt ms good enough few = absurd (omega arith)
  read_movies-lines (suc fuel) cnt [] good enough few = refl
  read_movies-lines (suc fuel) cnt (m ∷ ms) good enough few =
      let n = length-append (line m) (10 ∷ lines ms) in
      read_movies-step fuel cnt (line m) (lines ms) (movie_of m) (map movie_of ms) (good.0.one_line)
        (good.0.fits) (omega arith) (read_movie-line m (good.0))
        (read_movies-lines fuel (cnt + 1) ms (good.1) (omega arith) (omega arith))

  -- If a file is a title row and at most 70000 lines, each with an id that is not empty and has no
  -- space, a title without an opening brace and 19 texts, none empty and none with a comma, no NUL
  -- and at most 254 bytes with the line feed, then initialize reads back exactly these movies, in
  -- order: the id as atoi reads it, the title, and each text as strtod reads it, divided by the
  -- square root of the sum of squares, or 0 where that is 0.
  pub initialize-lines :
      (header : List ℕ) (ms : List Listing)
      → Lacks 10 header
      → length header + 1 ≤ chunk_size
      → AllListings ms
      → length ms ≤ max_movies
      → initialize d (header ++ 10 ∷ lines ms) ≡ some (map movie_of ms)
  unfolding initialize
  initialize-lines [] ms one_line fits good few =
      let read =
        read_movies-lines (suc (length (lines ms))) 0 ms good (omega arith) (omega arith) in
      rw (fgets-line chunk_size [] (lines ms) one_line fits, read)
  initialize-lines (c ∷ header) ms one_line fits good few =
      let read =
        read_movies-lines (suc (length (lines ms))) 0 ms good (omega arith) (omega arith) in
      rw (fgets-line chunk_size (c ∷ header) (lines ms) one_line fits, read)
