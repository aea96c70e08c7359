-- ===== src/Movies/Input/Fields.antt =====
-- hw4_simple-movies-recommendation-system-lala-ju/server.c: the list of genres of a movie or a request as
-- text, and how the loop over the genres reads it.
use system_programming_homew.Prelude.{
  ℕ, ◌≡◌, refl, sym, List, [], ◌∷◌, ◌++◌, some, length, map, if◌then◌else◌, arith,
}
use mathlib.Core.List.{append_assoc}
use system_programming_homew.CString.Tokens.{
  strtok, Lacks, Lacks-append, strtok-delimiter, strtok-last,
}
use system_programming_homew.Movies.Input.{Doubles, read_genres, read_profile, num_of_genre}

-- Texts one comma apart, and what follows the last.
unfoldable pub fields : List ℕ → List (List ℕ) → List ℕ
fields tail [] = tail
fields tail (g ∷ []) = g ++ tail
fields tail (g ∷ g' ∷ gs) = g ++ b',' ∷ fields tail (g' ∷ gs)

-- A text that is one token.
abbrev pub IsToken : ℕ → List ℕ → Type 0
IsToken delim [] = ⊥
IsToken delim (c ∷ cs) = Lacks delim (c ∷ cs)

-- Some of the texts, each of them with the property.
abbrev pub Every : (List ℕ → Type 0) → List (List ℕ) → Type 0
Every P [] = Unit {0}
Every P (g ∷ gs) = P g × Every P gs

-- The first token of a list of texts.
pub strtok-token :
    (delim : ℕ) (t rest : List ℕ)
    → IsToken delim t
    → strtok delim (t ++ delim ∷ rest) ≡ (some t, rest)
strtok-token delim [] rest k = absurd k
strtok-token delim (c ∷ t) rest k = strtok-delimiter delim c t rest k

strtok-whole :
    (delim : ℕ) (t tail : List ℕ)
    → IsToken delim t
    → Lacks delim tail
    → strtok delim (t ++ tail) ≡ (some (t ++ tail), [])
strtok-whole delim [] tail k last = absurd k
strtok-whole delim (c ∷ t) tail k last =
    strtok-last delim c (t ++ tail) (Lacks-append delim (c ∷ t) tail k last)

-- What follows the last text can be split off.
pub fields-append : (t u : List ℕ) (gs : List (List ℕ)) → fields (t ++ u) gs ≡ fields t gs ++ u
unfolding fields
fields-append t u [] = refl
fields-append t u (g ∷ []) = sym (append_assoc g t u)
fields-append t u (g ∷ g' ∷ gs) =
    rw (append_assoc g (b',' ∷ fields t (g' ∷ gs)) u, fields-append t u (g' ∷ gs))

module _ (d : Doubles) where
  unfoldable pub sum_squares : d.Double → List d.Double → d.Double
  sum_squares sum [] = sum
  sum_squares sum (p ∷ ps) = sum_squares (d.add sum (d.mul p p)) ps

  -- Each text read alone, and divided by the square root of the sum of squares, or 0 where that is 0.
  unfoldable pub profile_of : List (List ℕ) → List d.Double
  unfolding sum_squares
  profile_of gs =
      let ps = map d.strtod gs in
      let norm = d.sqrt (sum_squares d.nought ps) in
      map (λ p. if d.is_nought norm then d.nought else d.div p norm) ps

  read_genres-fields :
      (tail : List ℕ) (g : List ℕ) (gs : List (List ℕ)) (sum : d.Double)
      → Lacks b',' tail
      → ((t : List ℕ) → d.strtod (t ++ tail) ≡ d.strtod t)
      → Every (IsToken b',') (g ∷ gs)
      → read_genres d
          (length (g ∷ gs))
          sum
          ((strtok b',' (fields tail (g ∷ gs))).0)
          ((strtok b',' (fields tail (g ∷ gs))).1)
        ≡ some (map d.strtod (g ∷ gs), sum_squares sum (map d.strtod (g ∷ gs)))
  unfolding read_genres fields sum_squares
  read_genres-fields tail g [] sum last same all =
      rw (strtok-whole b',' g tail (all.0) last, same g)
  read_genres-fields tail g (g' ∷ gs) sum last same all = rw (
    strtok-token b',' g (fields tail (g' ∷ gs)) (all.0),
    read_genres-fields tail g' gs (d.add sum (d.mul (d.strtod g) (d.strtod g))) last same (all.1),
  )

  pub read_profile-fields :
      (tail : List ℕ) (gs : List (List ℕ))
      → Lacks b',' tail
      → ((t : List ℕ) → d.strtod (t ++ tail) ≡ d.strtod t)
      → length gs ≡ num_of_genre
      → Every (IsToken b',') gs
      → read_profile d (fields tail gs) ≡ some (profile_of gs)
  unfolding read_profile profile_of
  read_profile-fields tail [] last same n all = absurd (omega arith)
  read_profile-fields tail (g ∷ gs) last same n all =
      let found = read_genres-fields tail g gs d.nought last same all in rw (sym n, found)
