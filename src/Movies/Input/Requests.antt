-- ===== src/Movies/Input/Requests.antt =====
-- hw4_simple-movies-recommendation-system-lala-ju/server.c: requests as they are written, and what
-- `read_request` and the end of `initialize` make of them.
use system_programming_homew.Prelude.{
  ℕ, ◌^◌, ◌≡◌, ◌≤◌, ◌<◌, refl, ap, ◌∙◌, List, [], ◌∷◌, ◌++◌, some, length, map, false, ltb, arith,
}
use mathlib.Core.List.{append-nil}
use system_programming_homew.Prelude.Int.{pos}
use system_programming_homew.CString.{c_str}
use system_programming_homew.CString.Tokens.{c_str-Lacks}
use system_programming_homew.Movies.Input.{
  Doubles, Request, read_request, read_requests, initialize_requests, num_of_genre, max_req,
  skip_space,
}
use system_programming_homew.Movies.Input.Fields.{
  fields, IsToken, Every, profile_of, read_profile-fields,
}
use system_programming_homew.Movies.Input.Numerals.{
  numeral, IsWord, to_int-pos, scan_word-word, scan_number-numeral, numeral-skip, skip_space-skips,
}

-- A request as the input has it.
pub record Query : Type 0 where
  pub id : ℕ
  pub keywords : List ℕ
  pub genres : List (List ℕ)

-- Its line, with `rest` behind it.
abbrev pub line : Query → List ℕ → List ℕ
line q rest = numeral q.id ++ b' ' ∷ (q.keywords ++ b' ' ∷ (fields [] q.genres ++ 10 ∷ rest))

unfoldable pub lines : List Query → List ℕ
lines [] = []
lines (q ∷ qs) = line q (lines qs)

-- The id is an `int`, the keywords are a word, and the genres are another, of as many texts as there are
-- genres, none of them empty and none with a comma.
pub record IsQuery (q : Query) : Type 0 where
  pub id-fits : q.id < 2 ^ 31
  pub keywords-word : IsWord q.keywords
  pub genres-word : IsWord (fields [] q.genres)
  pub genres-tokens : Every (IsToken b',') q.genres
  pub genres-length : length q.genres ≡ num_of_genre

abbrev pub AllQueries : List Query → Type 0
AllQueries [] = Unit {0}
AllQueries (q ∷ qs) = IsQuery q × AllQueries qs

c_str-word : (t : List ℕ) → IsWord t → c_str t ≡ t
c_str-word [] h = absurd h
c_str-word (c ∷ t) h = c_str-Lacks (c ∷ t) (h.1)

module _ (d : Doubles) where
  abbrev pub request_of : Query → Request d
  request_of q = record { id = pos q.id; keywords = q.keywords; profile = profile_of d q.genres }

  alone : (t : List ℕ) → d.strtod (t ++ []) ≡ d.strtod t
  alone t = ap d.strtod (append-nil t)

  -- A request, wherever the spaces in front of it end.
  pub read_request-line :
      (q : Query) (text rest : List ℕ)
      → IsQuery q
      → skip_space text ≡ line q rest
      → read_request d text ≡ some (request_of q, 10 ∷ rest)
  unfolding read_request
  read_request-line q text rest good at = rw (
    scan_number-numeral q.id b' ' text (q.keywords ++ b' ' ∷ (fields [] q.genres ++ 10 ∷ rest)) at
        refl good.id-fits,
    scan_word-word b' ' b' ' q.keywords (fields [] q.genres ++ 10 ∷ rest) refl refl
        good.keywords-word,
    scan_word-word b' ' 10 (fields [] q.genres) rest refl refl good.genres-word,
    c_str-word (fields [] q.genres) good.genres-word,
    c_str-word q.keywords good.keywords-word,
    read_profile-fields d [] q.genres tt alone good.genres-length good.genres-tokens,
    to_int-pos q.id good.id-fits,
  )

  read_requests-lines :
      (qs : List Query)
      → AllQueries qs
      → read_requests d (length qs) (10 ∷ lines qs) ≡ some (map request_of qs)
  unfolding read_requests lines
  read_requests-lines [] good = refl
  read_requests-lines (q ∷ qs) good = rw (
    read_request-line q (10 ∷ lines (q ∷ qs)) (lines qs) (good.0) (
        skip_space-skips 10 (lines (q ∷ qs)) refl
        ∙ numeral-skip q.id (b' ' ∷ (q.keywords ++ b' ' ∷ (fields [] q.genres ++ 10 ∷ lines qs)))),
    read_requests-lines qs (good.1),
  )

  -- If at most 255 requests are written as their number and a line for each, with an id below 2^31
  -- in decimal, a word of keywords and a word of 19 texts with a comma between them, none empty and
  -- none with a comma, each word of at most 254 bytes, then the end of initialize reads back exactly
  -- these requests, in order, with the texts as strtod reads them, divided by the square root of the
  -- sum of squares, or 0 where that is 0.
  pub initialize_requests-lines :
      (qs : List Query)
      → AllQueries qs
      → length qs ≤ max_req
      → initialize_requests d (numeral (length qs) ++ 10 ∷ lines qs) ≡ some (map request_of qs)
  unfolding initialize_requests
  initialize_requests-lines qs good few =
      let number =
        scan_number-numeral (length qs) 10 (numeral (length qs) ++ 10 ∷ lines qs) (lines qs)
          (numeral-skip (length qs) (10 ∷ lines qs)) refl (omega arith) in
      let room : ltb max_req (length qs) ≡ false = ground arith in
      rw (number, room, read_requests-lines qs good)
