-- ===== src/CString/Tokens.antt =====
-- The C library's `strtok` with one delimiter, and `fgets`. `strtok` keeps its place between calls: what
-- is left of the string is handed from call to call, and NULL is `none`.
use system_programming_homew.Prelude.{
  ℕ, zero, suc, ◌+◌, ◌≤◌, ◌≡◌, ◌≢◌, refl, true, false, List, [], ◌∷◌, ◌++◌, Option, none, some,
  ◌==◌, if◌then◌else◌, length, arith,
}
use system_programming_homew.CString.{c_str}

-- The bytes up to the next delimiter, and those behind it.
unfoldable pub token_end : ℕ → List ℕ → List ℕ × List ℕ
token_end d [] = ([], [])
token_end d (c ∷ cs) = if c == d then ([], cs) else (c ∷ (token_end d cs).0, (token_end d cs).1)

unfoldable pub strtok : ℕ → List ℕ → Option (List ℕ) × List ℕ
unfolding token_end
strtok d [] = (none, [])
strtok d (c ∷ cs) =
    let rest = token_end d cs in if c == d then strtok d cs else (some (c ∷ rest.0), rest.1)

-- `fgets` into a buffer of `n + 1` bytes: a line with its line feed, or `n` bytes of it; and what is left
-- of the file.
unfoldable pub fgets : ℕ → List ℕ → List ℕ × List ℕ
fgets zero file = ([], file)
fgets (suc n) [] = ([], [])
fgets (suc n) (c ∷ cs) = if c == 10 then (10 ∷ [], cs) else (c ∷ (fgets n cs).0, (fgets n cs).1)

-- A byte that does not occur.
abbrev pub Lacks : ℕ → List ℕ → Type 0
Lacks d [] = Unit {0}
Lacks d (c ∷ cs) = (c ≢ d) × Lacks d cs

pub Lacks-append : (d : ℕ) (xs ys : List ℕ) → Lacks d xs → Lacks d ys → Lacks d (xs ++ ys)
Lacks-append d [] ys h k = k
Lacks-append d (x ∷ xs) ys h k = (h.0, Lacks-append d xs ys h.1 k)

token_end-delimiter :
    (d : ℕ) (t rest : List ℕ) → Lacks d t → token_end d (t ++ d ∷ rest) ≡ (t, rest)
unfolding token_end
token_end-delimiter d [] rest h = let same : (d == d) ≡ true = ground arith in rw same
token_end-delimiter d (c ∷ t) rest h =
    let other : (c == d) ≡ false = ground (arith, h.0) in
    rw (other, token_end-delimiter d t rest h.1)

token_end-last : (d : ℕ) (t : List ℕ) → Lacks d t → token_end d t ≡ (t, [])
unfolding token_end
token_end-last d [] h = refl
token_end-last d (c ∷ t) h =
    let other : (c == d) ≡ false = ground (arith, h.0) in rw (other, token_end-last d t h.1)

-- A token in front of a delimiter, and the last token.
pub strtok-delimiter :
    (d c : ℕ) (t rest : List ℕ)
    → Lacks d (c ∷ t)
    → strtok d ((c ∷ t) ++ d ∷ rest) ≡ (some (c ∷ t), rest)
unfolding strtok
strtok-delimiter d c t rest h =
    let other : (c == d) ≡ false = ground (arith, h.0) in
    rw (other, token_end-delimiter d t rest h.1)

pub strtok-last : (d c : ℕ) (t : List ℕ) → Lacks d (c ∷ t) → strtok d (c ∷ t) ≡ (some (c ∷ t), [])
unfolding strtok
strtok-last d c t h =
    let other : (c == d) ≡ false = ground (arith, h.0) in rw (other, token_end-last d t h.1)

pub fgets-line :
    (n : ℕ) (line rest : List ℕ)
    → Lacks 10 line
    → length line + 1 ≤ n
    → fgets n (line ++ 10 ∷ rest) ≡ (line ++ 10 ∷ [], rest)
unfolding fgets
fgets-line zero line rest h k = absurd (omega arith)
fgets-line (suc n) [] rest h k = refl
fgets-line (suc n) (c ∷ line) rest h k =
    let other : (c == 10) ≡ false = ground (arith, h.0) in
    rw (other, fgets-line n line rest h.1 (omega arith))

pub c_str-Lacks : (t : List ℕ) → Lacks 0 t → c_str t ≡ t
unfolding c_str
c_str-Lacks [] h = refl
c_str-Lacks (c ∷ t) h =
    let other : (c == 0) ≡ false = ground (arith, h.0) in rw (other, c_str-Lacks t h.1)
