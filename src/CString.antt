-- ===== src/CString.antt =====
-- The C library's string functions over lists of bytes, as far as the programs call them: `strstr`,
-- `strcmp`, `strncmp` with a prefix, and `atoi`.
pub mod Tokens
use mathlib.Core.Option
use mathlib.Core.Bool.{not}
use system_programming_homew.Prelude.{
  ℕ, suc, ◌+◌, ◌-◌, ◌*◌, ◌%◌, ◌^◌, Bool, true, false, ◌&&◌, ◌||◌, List, [], ◌∷◌, Option, none, some,
  ltb, ◌==◌, if◌then◌else◌, min, ◌≡◌, refl,
}
use system_programming_homew.Prelude.Int.{ℤ, pos, negsuc}

-- What a pointer to the bytes shows as a string: all before the first NUL.
unfoldable pub c_str : List ℕ → List ℕ
c_str [] = []
c_str (c ∷ cs) = if c == 0 then [] else c ∷ c_str cs

unfoldable pub starts_with : List ℕ → List ℕ → Bool
starts_with [] cs = true
starts_with (p ∷ ps) [] = false
starts_with (p ∷ ps) (c ∷ cs) = p == c && starts_with ps cs

-- The place of the first occurrence of `needle`.
unfoldable pub strstr : List ℕ → List ℕ → Option ℕ
unfolding starts_with
strstr [] needle = if starts_with needle [] then some 0 else none
strstr (c ∷ cs) needle =
    if starts_with needle (c ∷ cs) then some 0 else Option.map suc (strstr cs needle)

-- The sign of `strcmp`; bytes compare as unsigned numbers, and the end of a string is below each.
pub data Sign : Type 0 where
  less same more : Sign

unfoldable pub strcmp : List ℕ → List ℕ → Sign
strcmp [] [] = same
strcmp [] (d ∷ ds) = less
strcmp (c ∷ cs) [] = more
strcmp (c ∷ cs) (d ∷ ds) = if ltb c d then less else if ltb d c then more else strcmp cs ds

abbrev pub is_digit : ℕ → Bool
is_digit c = not (ltb c b'0' || ltb b'9' c)

-- `atoi`: spaces, a sign, digits. `strtol` stops at the ends of `long`, and the cast to `int` keeps
-- the low 32 bits.
abbrev pub is_space : ℕ → Bool
is_space c = c == b' ' || (not (ltb c 9) && not (ltb 13 c))

unfoldable pub decimal : ℕ → List ℕ → ℕ
decimal acc [] = acc
decimal acc (c ∷ cs) = if is_digit c then decimal (acc * 10 + (c - b'0')) cs else acc

unfoldable pub to_int : ℕ → ℤ
to_int n = let low = n % 2 ^ 32 in if ltb low (2 ^ 31) then pos low else negsuc (2 ^ 32 - 1 - low)

unfoldable pub signed_decimal : List ℕ → ℤ
unfolding decimal to_int
signed_decimal [] = pos 0
signed_decimal (c ∷ cs) =
    if c == b'-'
    then to_int (2 ^ 64 - min (decimal 0 cs) (2 ^ 63))
    else if c == b'+'
    then to_int (min (decimal 0 cs) (2 ^ 63 - 1))
    else to_int (min (decimal 0 (c ∷ cs)) (2 ^ 63 - 1))

unfoldable pub atoi : List ℕ → ℤ
unfolding signed_decimal
atoi [] = pos 0
atoi (c ∷ cs) = if is_space c then atoi cs else signed_decimal (c ∷ cs)

test_strstr : strstr (b'a' ∷ b'b' ∷ 13 ∷ 10 ∷ []) (13 ∷ 10 ∷ []) ≡ some 2
unfolding strstr
test_strstr = refl

test_atoi : atoi (b' ' ∷ b'-' ∷ b'4' ∷ b'2' ∷ 10 ∷ []) ≡ negsuc 41
unfolding atoi
test_atoi = refl
