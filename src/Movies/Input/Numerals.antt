-- ===== src/Movies/Input/Numerals.antt =====
-- hw4_simple-movies-recommendation-system-lala-ju/server.c: what `scanf` reads, next to how a number and a
-- word are written.
use system_programming_homew.Prelude.{
  ℕ, zero, suc, ◌+◌, ◌-◌, ◌*◌, ◌/◌, ◌%◌, ◌^◌, ◌≡◌, ◌≤◌, ◌<◌, refl, ◌∙◌, List, [], ◌∷◌, ◌++◌, some,
  length, true, false, ltb, if◌then◌else◌, Bool-cases, ltb→lt, arith, inl, inr,
}
use system_programming_homew.Prelude.Int.{pos}
use system_programming_homew.CString.{decimal, is_digit, is_space, to_int}
use system_programming_homew.CString.Tokens.{Lacks}
use system_programming_homew.Movies.Input.{
  skip_space, word_end, digits_end, filled, scan_word, scan_number,
}

-- The decimal digits of a number in front of some text.
unfoldable pub digits : ℕ → ℕ → List ℕ → List ℕ
digits zero n acc = acc
digits (suc fuel) n acc =
    if ltb n 10 then (n + b'0') ∷ acc else digits fuel (n / 10) ((n % 10 + b'0') ∷ acc)

-- A number has fewer digits than it is large.
unfoldable pub numeral : ℕ → List ℕ
unfolding digits
numeral n = digits (suc n) n []

decimal-digit :
    (v d w : ℕ) (cs : List ℕ) → d < 10 → v * 10 + d ≡ w → decimal v ((d + b'0') ∷ cs) ≡ decimal w cs
unfolding decimal
decimal-digit v d w cs h k =
    let digit : is_digit (d + b'0') ≡ true = ground arith in
    let value : d + b'0' - b'0' ≡ d = omega arith in rw (digit, value, k)

decimal-digits :
    (fuel n : ℕ) (acc : List ℕ) → n < fuel → decimal 0 (digits fuel n acc) ≡ decimal n acc
unfolding digits
decimal-digits zero n acc h = absurd (omega arith)
decimal-digits (suc fuel) n acc h = elim (Bool-cases (ltb n 10)) [
  | inl e ↦ rw e (decimal-digit 0 n n acc (omega (arith, ltb→lt n 10 e)) (omega arith))
  | inr e ↦
      let large : 10 ≤ n = ground arith in
      rw e (
        decimal-digits fuel (n / 10) ((n % 10 + b'0') ∷ acc) (omega arith)
        ∙ decimal-digit (n / 10) (n % 10) n acc (omega arith) (omega arith))
]

pub to_int-pos : (n : ℕ) → n < 2 ^ 31 → to_int n ≡ pos n
unfolding to_int
to_int-pos n h =
    let low : n % 2 ^ 32 ≡ n = omega arith in
    let small : ltb n (2 ^ 31) ≡ true = ground arith in rw (low, small)

abbrev pub AllDigits : List ℕ → Type 0
AllDigits [] = Unit {0}
AllDigits (c ∷ cs) = (is_digit c ≡ true) × AllDigits cs

abbrev pub NoSpace : List ℕ → Type 0
NoSpace [] = Unit {0}
NoSpace (c ∷ cs) = (is_space c ≡ false) × NoSpace cs

-- A word that `%254s` reads whole.
abbrev pub IsWord : List ℕ → Type 0
IsWord [] = ⊥
IsWord (c ∷ cs) = NoSpace (c ∷ cs) × Lacks 0 (c ∷ cs) × (length (c ∷ cs) ≤ 254)

digits-AllDigits : (fuel n : ℕ) (acc : List ℕ) → AllDigits acc → AllDigits (digits fuel n acc)
unfolding digits
digits-AllDigits zero n acc h = h
digits-AllDigits (suc fuel) n acc h = elim (Bool-cases (ltb n 10)) [
  | inl e ↦
      let small = ltb→lt n 10 e in
      let digit : is_digit (n + b'0') ≡ true = ground arith in rw e (digit, h)
  | inr e ↦
      let digit : is_digit (n % 10 + b'0') ≡ true = ground arith in
      rw e (digits-AllDigits fuel (n / 10) ((n % 10 + b'0') ∷ acc) (digit, h))
]

digits-filled :
    (fuel n : ℕ) (acc : List ℕ) → n < fuel → (c : ℕ) × (cs : List ℕ) × (digits fuel n acc ≡ c ∷ cs)
unfolding digits
digits-filled zero n acc h = absurd (omega arith)
digits-filled (suc fuel) n acc h = elim (Bool-cases (ltb n 10)) [
  | inl e ↦ (n + b'0', acc, rw e)
  | inr e ↦
      let large : 10 ≤ n = ground arith in
      rw e (digits-filled fuel (n / 10) ((n % 10 + b'0') ∷ acc) (omega arith))
]

word_end-text :
    (n s : ℕ) (t rest : List ℕ)
    → is_space s ≡ true
    → NoSpace t
    → length t ≤ n
    → word_end n (t ++ s ∷ rest) ≡ (t, s ∷ rest)
unfolding word_end
word_end-text zero s [] rest e h k = refl
word_end-text (suc n) s [] rest e h k = rw e
word_end-text zero s (c ∷ t) rest e h k = absurd (omega arith)
word_end-text (suc n) s (c ∷ t) rest e h k =
    rw (h.0, word_end-text n s t rest e (h.1) (omega arith))

digits_end-text :
    (s : ℕ) (t rest : List ℕ)
    → is_digit s ≡ false
    → AllDigits t
    → digits_end (t ++ s ∷ rest) ≡ (t, s ∷ rest)
unfolding digits_end
digits_end-text s [] rest e h = rw e
digits_end-text s (c ∷ t) rest e h = rw (h.0, digits_end-text s t rest e (h.1))

skip_space-here : (c : ℕ) (cs : List ℕ) → is_space c ≡ false → skip_space (c ∷ cs) ≡ c ∷ cs
unfolding skip_space
skip_space-here c cs h = rw h

pub skip_space-skips :
    (c : ℕ) (cs : List ℕ) → is_space c ≡ true → skip_space (c ∷ cs) ≡ skip_space cs
unfolding skip_space
skip_space-skips c cs h = rw h

digit-here : (c : ℕ) → is_digit c ≡ true → is_space c ≡ false
digit-here c h = ground arith

pub numeral-skip : (n : ℕ) (rest : List ℕ) → skip_space (numeral n ++ rest) ≡ numeral n ++ rest
unfolding numeral
numeral-skip n rest =
    let whole = digits-filled (suc n) n [] (omega arith) in
    all-here (digits (suc n) n []) (whole.0) (whole.1) whole.2 (digits-AllDigits (suc n) n [] tt)
  where
    all-here :
        (t : List ℕ) (c : ℕ) (cs : List ℕ)
        → t ≡ c ∷ cs
        → AllDigits t
        → skip_space (t ++ rest) ≡ t ++ rest
    all-here [] c cs e all = absurd (ground (arith, e))
    all-here (x ∷ t) c cs e all = skip_space-here x (t ++ rest) (digit-here x (all.0))

-- A word between two spaces.
pub scan_word-word :
    (s s' : ℕ) (t rest : List ℕ)
    → is_space s ≡ true
    → is_space s' ≡ true
    → IsWord t
    → scan_word (s ∷ t ++ s' ∷ rest) ≡ some (t, s' ∷ rest)
unfolding scan_word
scan_word-word s s' [] rest e e' h = absurd h
scan_word-word s s' (c ∷ t) rest e e' h = rw (
  skip_space-skips s (c ∷ t ++ s' ∷ rest) e,
  skip_space-here c (t ++ s' ∷ rest) (h.0.0),
  word_end-text 254 s' (c ∷ t) rest e' (h.0) (h.2),
)

filled-text :
    (t rest : List ℕ) → ((c : ℕ) × (cs : List ℕ) × (t ≡ c ∷ cs)) → filled (t, rest) ≡ some (t, rest)
filled-text t rest h = rw (h.2)

-- A written number, where the spaces end.
pub scan_number-numeral :
    (n s : ℕ) (text rest : List ℕ)
    → skip_space text ≡ numeral n ++ s ∷ rest
    → is_digit s ≡ false
    → n < 2 ^ 31
    → scan_number text ≡ some (n, s ∷ rest)
unfolding scan_number numeral decimal
scan_number-numeral n s text rest at e small =
    let whole = digits-filled (suc n) n [] (omega arith) in
    let all = digits-AllDigits (suc n) n [] tt in
    let value = decimal-digits (suc n) n [] (omega arith) in
    let fits : ltb n (2 ^ 32) ≡ true = ground arith in
    rw (
      at,
      digits_end-text s (digits (suc n) n []) rest e all,
      filled-text (digits (suc n) n []) (s ∷ rest) whole,
      value,
      fits,
    )
