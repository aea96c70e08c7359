-- ===== src/Movies/Input.antt =====
-- hw4_simple-movies-recommendation-system-lala-ju/server.c: `initialize`, which reads the file of movies,
-- `read_request`, and the sum of products in `cal`. `none` is no behaviour, an assertion that fails, or
-- an exit of the program.
pub mod Fields
pub mod Numerals
pub mod File
pub mod Requests
use system_programming_homew.Prelude.{
  ℕ, zero, suc, ◌+◌, ◌-◌, ◌*◌, ◌^◌, ◌≡◌, Bool, true, false, ◌&&◌, List, [], ◌∷◌, ◌++◌, Option, none,
  some, ltb, ◌==◌, if◌then◌else◌, length, take, map,
}
use system_programming_homew.Prelude.Int.{ℤ}
use system_programming_homew.CString.{c_str, atoi, to_int, decimal, is_digit, is_space}
use system_programming_homew.CString.Tokens.{strtok, fgets}
use system_programming_homew.Movies.Select.{◌>>=◌}
use system_programming_homew.Movies.Search.{MovieProfile}

-- `double` and what the program does with it. `strtod` reads no further than a closing brace; `units`
-- is a finite `double` as a whole number of the smallest positive one, and means nothing for the others,
-- infinity and NaN.
pub record Doubles : Type 1 where
  pub Double : Type 0
  pub nought : Double
  pub add : Double → Double → Double
  pub mul : Double → Double → Double
  pub div : Double → Double → Double
  pub sqrt : Double → Double
  pub is_nought : Double → Bool
  pub is_finite : Double → Bool
  pub units : Double → ℤ
  pub strtod : List ℕ → Double
  pub strtod_brace : (text rest : List ℕ) → strtod (text ++ b'}' ∷ rest) ≡ strtod text

abbrev pub num_of_genre : ℕ
num_of_genre = 19

abbrev pub max_movies : ℕ
max_movies = 70_000

abbrev pub max_req : ℕ
max_req = 0xff

-- What `fgets` takes at most into `chunk`.
abbrev pub chunk_size : ℕ
chunk_size = 0xfe

-- `scanf`'s spaces, digits and words; a sign is not read.
unfoldable pub skip_space : List ℕ → List ℕ
skip_space [] = []
skip_space (c ∷ cs) = if is_space c then skip_space cs else c ∷ cs

unfoldable pub word_end : ℕ → List ℕ → List ℕ × List ℕ
word_end zero cs = ([], cs)
word_end (suc n) [] = ([], [])
word_end (suc n) (c ∷ cs) =
    if is_space c then ([], c ∷ cs) else (c ∷ (word_end n cs).0, (word_end n cs).1)

unfoldable pub digits_end : List ℕ → List ℕ × List ℕ
digits_end [] = ([], [])
digits_end (c ∷ cs) =
    if is_digit c then (c ∷ (digits_end cs).0, (digits_end cs).1) else ([], c ∷ cs)

abbrev pub filled : List ℕ × List ℕ → Option (List ℕ × List ℕ)
filled ([], rest) = none
filled (c ∷ cs, rest) = some (c ∷ cs, rest)

unfoldable pub scan_word : List ℕ → Option (List ℕ × List ℕ)
unfolding skip_space word_end
scan_word text = filled (word_end 254 (skip_space text))

unfoldable pub scan_number : List ℕ → Option (ℕ × List ℕ)
unfolding skip_space digits_end
scan_number text = do
  found ← filled (digits_end (skip_space text))
  let n = decimal 0 found.0
  if ltb n (2 ^ 32) then some (n, found.1) else none

module _ (d : Doubles) where
  -- The loop over the genres, from the token at hand on; `sum` is the sum of squares.
  unfoldable pub read_genres :
      ℕ → d.Double → Option (List ℕ) → List ℕ → Option (List d.Double × d.Double)
  read_genres zero sum token rest = some ([], sum)
  read_genres (suc n) sum none rest = none
  read_genres (suc n) sum (some token) rest =
      let ret = d.strtod token in
      let next = strtok b',' rest in
      read_genres n (d.add sum (d.mul ret ret)) (next.0) (next.1) >>= λ others.
      some (ret ∷ others.0, others.1)

  abbrev pub normalize : d.Double → List d.Double → List d.Double
  normalize sum profile =
      let norm = d.sqrt sum in
      map (λ p. if d.is_nought norm then d.nought else d.div p norm) profile

  unfoldable pub read_profile : List ℕ → Option (List d.Double)
  unfolding read_genres
  read_profile text = do
    let first = strtok b',' text
    found ← read_genres num_of_genre d.nought (first.0) (first.1)
    some (normalize (found.1) (found.0))

  -- One line of the file: the id, the title and the profile.
  unfoldable pub read_movie : List ℕ → Option (ℤ × MovieProfile (List d.Double))
  unfolding read_profile
  read_movie chunk = do
    let first = strtok b' ' (c_str chunk)
    id ← first.0
    let second = strtok b'{' (first.1)
    token ← second.0
    profile ← read_profile (second.1)
    some (atoi id, record { title = take (length token - 1) token; profile = profile })

  unfoldable pub read_movies : ℕ → ℕ → List ℕ → Option (List (ℤ × MovieProfile (List d.Double)))
  unfolding read_movie
  read_movies zero cnt file = none
  read_movies (suc fuel) cnt [] = some []
  read_movies (suc fuel) cnt (c ∷ cs) =
      let chunk = fgets chunk_size (c ∷ cs) in
      let rest = read_movies fuel (cnt + 1) (chunk.1) in
      if ltb cnt max_movies then (do m ← read_movie (chunk.0); ms ← rest; some (m ∷ ms)) else none

  -- The part of `initialize` that reads the file; each line takes a byte at least, so its length is fuel
  -- enough.
  unfoldable pub initialize : List ℕ → Option (List (ℤ × MovieProfile (List d.Double)))
  unfolding read_movies
  initialize [] = none
  initialize (c ∷ cs) =
      let rest = (fgets chunk_size (c ∷ cs)).1 in read_movies (suc (length rest)) 0 rest

  pub record Request : Type 0 where
    pub id : ℤ
    pub keywords : List ℕ
    pub profile : List d.Double

  unfoldable pub read_request : List ℕ → Option (Request × List ℕ)
  unfolding scan_number scan_word read_profile
  read_request text = do
    id ← scan_number text
    buf1 ← scan_word (id.1)
    buf2 ← scan_word (buf1.1)
    profile ← read_profile (c_str (buf2.0))
    some (record { id = to_int (id.0); keywords = c_str (buf1.0); profile = profile }, buf2.1)

  unfoldable pub read_requests : ℕ → List ℕ → Option (List Request)
  unfolding read_request
  read_requests zero text = some []
  read_requests (suc n) text = do r ← read_request text; rs ← read_requests n (r.1); some (r.0 ∷ rs)

  -- The part that reads the requests.
  unfoldable pub initialize_requests : List ℕ → Option (List Request)
  unfolding scan_number read_requests
  initialize_requests text = do
    num ← scan_number text
    if ltb max_req (num.0) then none else read_requests (num.0) (num.1)

  -- The loop over the genres in `cal`.
  unfoldable pub products : d.Double → List d.Double → List d.Double → d.Double
  products sum [] qs = sum
  products sum (p ∷ ps) [] = sum
  products sum (p ∷ ps) (q ∷ qs) = products (d.add sum (d.mul p q)) ps qs

  abbrev pub score : Request → List d.Double → ℤ
  unfolding products
  score r profile = d.units (products d.nought r.profile profile)
