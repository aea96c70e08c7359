-- ===== src/Booking/Command/Scanned.antt =====
-- hw1_csiebooking-lala-ju/server.c: the loop of `checkcommand` on a command of three numbers, each with an
-- optional sign and between one and eight digits, a space between two of them.
use mathlib.Core.List.{
  reverse, reverse-append, reverse-cons, reverse-reverse, append_assoc, append-nil,
}
use system_programming_homew.Prelude.{
  ℕ, suc, ◌+◌, ◌-◌, ◌*◌, ◌^◌, ◌<◌, ◌≤◌, ◌≡◌, refl, ap, ◌∙◌, Bool, true, false, List, [], ◌∷◌, ◌++◌,
  arith, length, length-append, length-reverse,
}
use system_programming_homew.Prelude.Int.{ℤ, pos, ◌*ℤ◌, sub_ℕ}
use system_programming_homew.Booking.Command.{
  ok, int, Scan, scan, start, later_byte, first_byte, negate, end_number,
}
use system_programming_homew.Booking.Command.Numbers.{
  AreDigits, digits_value, digit_bytes, digits_value-lt, pow10-le, scan-digits, scan-digits_last,
  length-digit_bytes,
}

-- An optional `-` and one digit at least; the digits stand from the last to the first.
pub record Numeral : Type 0 where
  pub negative : Bool
  pub last : ℕ
  pub others : List ℕ

abbrev pub digits : Numeral → List ℕ
digits m = m.last ∷ m.others

pub record IsNumeral (m : Numeral) : Type 0 where
  pub are_digits : AreDigits (digits m)
  pub short : length m.others < 8

-- The number that it stands for, and its bytes from the last to the first.
abbrev pub signed : Bool → ℕ → ℤ
signed true n = sub_ℕ 0 n
signed false n = pos n

abbrev pub value : Numeral → ℤ
value m = signed m.negative (digits_value (digits m))

abbrev pub sign_bytes : Bool → List ℕ
sign_bytes true = b'-' ∷ []
sign_bytes false = []

abbrev pub backward : Numeral → List ℕ
backward m = digit_bytes (digits m) ++ sign_bytes m.negative

abbrev pub text : Numeral → List ℕ
text m = reverse (backward m)

abbrev pub command : Numeral → Numeral → Numeral → List ℕ
command f c e = text f ++ b' ' ∷ (text c ++ b' ' ∷ text e)

reverse-command :
    (f c e : Numeral)
    → reverse (command f c e) ≡ backward e ++ b' ' ∷ (backward c ++ b' ' ∷ backward f)
reverse-command f c e = simp (reverse-append, reverse-cons, reverse-reverse, append_assoc)

length-backward :
    (m : Numeral) → length (backward m) ≡ suc (length m.others) + length (sign_bytes m.negative)
length-backward m =
    length-append (digit_bytes (digits m)) (sign_bytes m.negative)
    ∙ ap (λ t. t + length (sign_bytes m.negative)) (length-digit_bytes (digits m))

pub value-lt : (m : Numeral) → IsNumeral m → digits_value (digits m) < 100_000_000
value-lt m h =
    omega (arith, digits_value-lt (digits m) h.are_digits, pow10-le (length (digits m)) h.short)

negate-small :
    (n : ℕ) (st : Scan)
    → st.new ≡ pos n
    → n < 100_000_000
    → negate st ≡ record st { new = sub_ℕ 0 n }
unfolding negate int ◌*ℤ◌
negate-small n st hn h = ground arith

later_byte-minus :
    (rest : List ℕ) (st : Scan) → scan (b'-' ∷ b' ' ∷ rest) st ≡ scan (b' ' ∷ rest) (negate st)
unfolding scan later_byte
later_byte-minus rest st = ground arith

scan-signed :
    (negative : Bool) (ds rest : List ℕ) (st : Scan)
    → AreDigits ds
    → length ds ≤ 8
    → st.new ≡ pos 0
    → st.s ≡ length ds + length (sign_bytes negative) + length rest
    → scan (digit_bytes ds ++ (sign_bytes negative ++ b' ' ∷ rest)) st
      ≡ scan (b' ' ∷ rest) (record st { new = signed negative (digits_value ds) })
scan-signed false ds rest st h hl hn hs =
    let whole : 0 + 10 ^ 0 * digits_value ds ≡ digits_value ds = omega arith in
    scan-digits ds (b' ' ∷ rest) 0 0 st h (omega arith) hn (omega arith) (omega arith) (omega arith)
    ∙ ap (λ v. scan (b' ' ∷ rest) (record st { new = pos v })) whole
scan-signed true ds rest st h hl hn hs =
    let whole : 0 + 10 ^ 0 * digits_value ds ≡ digits_value ds = omega arith in
    let bound : digits_value ds < 100_000_000 =
      omega (arith, digits_value-lt ds h, pow10-le (length ds) hl) in
    scan-digits ds (b'-' ∷ b' ' ∷ rest) 0 0 st h (omega arith) hn (omega arith) (omega arith)
      (omega arith)
    ∙ ap (λ v. scan (b'-' ∷ b' ' ∷ rest) (record st { new = pos v })) whole
    ∙ later_byte-minus rest (record st { new = pos (digits_value ds) })
    ∙ ap (scan (b' ' ∷ rest))
        (negate-small (digits_value ds) (record st { new = pos (digits_value ds) }) refl bound)

-- A number with a space to its left.
scan-number :
    (m : Numeral) (rest : List ℕ) (st : Scan)
    → IsNumeral m
    → st.new ≡ pos 0
    → st.s ≡ length (backward m) + length rest
    → scan (backward m ++ b' ' ∷ rest) st ≡ scan (b' ' ∷ rest) (record st { new = value m })
scan-number m rest st h hn hs =
    ap (λ bs. scan bs st)
      (append_assoc (digit_bytes (digits m)) (sign_bytes m.negative) (b' ' ∷ rest))
    ∙ scan-signed m.negative (digits m) rest st h.are_digits (omega (arith, h.short)) hn
        (omega (arith, length-backward m))

scan-space :
    (y : ℕ) (rest : List ℕ) (st : Scan)
    → scan (b' ' ∷ y ∷ rest) st ≡ scan (y ∷ rest) (end_number (suc (length rest)) st)
unfolding scan later_byte
scan-space y rest st = refl

first_byte-minus :
    (n : ℕ) (st : Scan)
    → st.new ≡ pos n
    → n < 100_000_000
    → scan (b'-' ∷ []) st ≡ ok (record st { ch_f = sub_ℕ 0 n; new = pos 0 })
unfolding scan first_byte
first_byte-minus n st hn h = rw (negate-small n st hn h)

scan-signed_first :
    (negative : Bool) (d : ℕ) (ds : List ℕ) (st : Scan)
    → AreDigits (d ∷ ds)
    → length ds < 8
    → st.new ≡ pos 0
    → st.s ≡ length ds + length (sign_bytes negative)
    → scan (digit_bytes (d ∷ ds) ++ sign_bytes negative) st
      ≡ ok (record st { ch_f = signed negative (digits_value (d ∷ ds)); new = pos 0 })
scan-signed_first false d ds st h hl hn hs =
    let whole : 0 + 10 ^ 0 * digits_value (d ∷ ds) ≡ digits_value (d ∷ ds) = omega arith in
    ap (λ bs. scan bs st) (append-nil (digit_bytes (d ∷ ds)))
    ∙ scan-digits_last d ds 0 0 st h hn (omega arith) (omega arith) (omega arith)
    ∙ ap (λ v. ok (record st { ch_f = pos v; new = pos 0 })) whole
scan-signed_first true d ds st h hl hn hs =
    let whole : 0 + 10 ^ 0 * digits_value (d ∷ ds) ≡ digits_value (d ∷ ds) = omega arith in
    let bound : digits_value (d ∷ ds) < 100_000_000 =
      omega (arith, digits_value-lt (d ∷ ds) h, pow10-le (length (d ∷ ds)) hl) in
    scan-digits (d ∷ ds) (b'-' ∷ []) 0 0 st h (omega arith) hn (omega arith) (omega arith)
      (omega arith)
    ∙ first_byte-minus (0 + 10 ^ 0 * digits_value (d ∷ ds))
        (record st { new = pos (0 + 10 ^ 0 * digits_value (d ∷ ds)) }) refl (omega arith)
    ∙ ap (λ v. ok (record st { ch_f = sub_ℕ 0 v; new = pos 0 })) whole

-- The number at the left end.
scan-number_first :
    (m : Numeral) (st : Scan)
    → IsNumeral m
    → st.new ≡ pos 0
    → st.s ≡ length (backward m) - 1
    → scan (backward m) st ≡ ok (record st { ch_f = value m; new = pos 0 })
scan-number_first m st h hn hs =
    scan-signed_first m.negative m.last m.others st h.are_digits h.short hn
      (omega (arith, length-backward m))

length-command :
    (f c e : Numeral)
    → length (command f c e) ≡ length (backward e) + length (backward c) + length (backward f) + 2
length-command f c e = omega (
  arith,
  length-append (text f) (b' ' ∷ (text c ++ b' ' ∷ text e)),
  length-append (text c) (b' ' ∷ text e),
  length-reverse (backward f),
  length-reverse (backward c),
  length-reverse (backward e),
)

-- What `scan` makes of the whole command.
pub scan-command :
    (f c e : Numeral)
    → IsNumeral f
    → IsNumeral c
    → IsNumeral e
    → scan (reverse (command f c e)) (start (length (command f c e)))
      ≡ ok (record {
        s = length (backward f) - 1;
        time = 3;
        ch_f = value f;
        ch_c = value c;
        ch_e = value e;
        new = pos 0;
      })
unfolding end_number
scan-command f c e hf hc he =
    ap (λ bs. scan bs (start (length (command f c e)))) (reverse-command f c e)
    ∙ scan-number e (backward c ++ b' ' ∷ backward f) (start (length (command f c e))) he refl
        (omega (arith, length-command f c e, length-append (backward c) (b' ' ∷ backward f)))
    ∙ scan-space _ _ _
    ∙ scan-number c (backward f) _ hc refl
        (omega (arith, length-append (backward c) (b' ' ∷ backward f)))
    ∙ scan-space _ _ _
    ∙ scan-number_first f _ hf refl (omega arith)
