-- ===== src/Booking/Command/Numbers.antt =====
-- hw1_csiebooking-lala-ju/server.c: the digits of a number, as `scan` meets them.
use native.Mathlib.Nat.{pow-suc, pow-le-pow_right, mul-le-mul_right}
use system_programming_homew.Prelude.{
  ℕ, suc, ◌+◌, ◌-◌, ◌*◌, ◌^◌, ◌%◌, true, ltb, ◌<◌, ◌≤◌, ◌≡◌, refl, ap, ◌∙◌, List, [], ◌∷◌, ◌++◌,
  arith, length, length-append,
}
use system_programming_homew.Prelude.Int.{pos, int_max, pos-+ℤ, pos-*ℤ}
use system_programming_homew.Booking.Command.{
  ok, int, Scan, scan, weight, add_digit, later_byte, first_byte,
}

-- Digits from the last to the first, as `scan` meets them.
abbrev pub AreDigits : List ℕ → Type 0
AreDigits [] = Unit {0}
AreDigits (d ∷ ds) = (d < 10) × AreDigits ds

abbrev pub digits_value : List ℕ → ℕ
digits_value [] = 0
digits_value (d ∷ ds) = d + 10 * digits_value ds

abbrev pub digit_bytes : List ℕ → List ℕ
digit_bytes [] = []
digit_bytes (d ∷ ds) = (d + b'0') ∷ digit_bytes ds

pub digits_value-lt : (ds : List ℕ) → AreDigits ds → digits_value ds < 10 ^ length ds
digits_value-lt [] h = omega arith
digits_value-lt (d ∷ ds) h = rw pow-suc (omega (arith, digits_value-lt ds h.1))

int-pos : (n : ℕ) → n < int_max → int (pos n) ≡ pos n
unfolding int
int-pos n h =
    let low : n % 2 ^ 32 ≡ n = omega arith in
    let small : ltb n int_max ≡ true = ground arith in rw (low, small)

weight-small : (k : ℕ) → 10 ^ k ≤ 100_000_000 → weight k ≡ pos (10 ^ k)
unfolding weight
weight-small k h = let small : ltb (10 ^ k) int_max ≡ true = ground arith in rw small

-- One digit at distance `k` from the end of its number, while the number stays below 10^9.
add_digit-small :
    (d k i n : ℕ) (st : Scan)
    → d < 10
    → st.new ≡ pos n
    → st.s ≡ i + k
    → n + d * 10 ^ k < 1_000_000_000
    → 10 ^ k ≤ 100_000_000
    → add_digit (d + b'0') i st ≡ record st { new = pos (n + d * 10 ^ k) }
unfolding add_digit
add_digit-small d k i n st hd hn hs hb hk =
    let place : st.s - i ≡ k = omega arith in
    let val : d + b'0' - b'0' ≡ d = omega arith in
    rw (
      place,
      weight-small k hk,
      val,
      pos-*ℤ,
      int-pos (d * 10 ^ k) (omega arith),
      hn,
      pos-+ℤ,
      int-pos (n + d * 10 ^ k) (omega arith),
    )

-- A digit, with bytes to its left.
later_byte-digit :
    (d before i : ℕ) (st : Scan)
    → d < 10
    → later_byte (d + b'0') before i st ≡ ok (add_digit (d + b'0') i st)
unfolding later_byte
later_byte-digit d before i st h = ground arith

pub pow10-le : (k : ℕ) → k ≤ 8 → 10 ^ k ≤ 100_000_000
pow10-le k h = pow-le-pow_right {n = 10} (omega arith) h

digit-step-lt : (d n p : ℕ) → d < 10 → n < p → n + d * p < p * 10
digit-step-lt d n p hd hn = omega (arith, mul-le-mul_right p (le_pred d hd))
  where
    le_pred : (d : ℕ) → d < 10 → d ≤ 9
    le_pred d h = omega arith

pub length-digit_bytes : (ds : List ℕ) → length (digit_bytes ds) ≡ length ds
length-digit_bytes [] = refl
length-digit_bytes (d ∷ ds) = ap suc (length-digit_bytes ds)

first_byte-digit :
    (d : ℕ) (st : Scan)
    → d < 10
    → first_byte (d + b'0') st
      ≡ ok (record (add_digit (d + b'0') 0 st) {
        ch_f = (add_digit (d + b'0') 0 st).new;
        new = pos 0;
      })
unfolding first_byte
first_byte-digit d st h = ground arith

-- A digit with `k` digits of its number to its right and further bytes to its left.
scan-digit :
    (d : ℕ) (ys : List ℕ) (k n : ℕ) (st : Scan)
    → d < 10
    → 0 < length ys
    → st.new ≡ pos n
    → n < 10 ^ k
    → k < 8
    → st.s ≡ length ys + k
    → scan ((d + b'0') ∷ ys) st ≡ scan ys (record st { new = pos (n + d * 10 ^ k) })
unfolding scan
scan-digit d [] k n st hd hy hn hlt hk hs = absurd (omega arith)
scan-digit d (b ∷ rest) k n st hd hy hn hlt hk hs =
    let small : n + d * 10 ^ k < 10 ^ k * 10 = digit-step-lt d n (10 ^ k) hd hlt in
    let bound : 10 ^ k ≤ 100_000_000 = pow10-le k (omega arith) in
    rw (
      later_byte-digit d b (suc (length rest)) st hd,
      add_digit-small d k (suc (length rest)) n st hd hn hs (omega arith) bound,
    )

-- A run of digits adds its value to `new`, shifted by the digits already read.
pub scan-digits :
    (ds : List ℕ) (ys : List ℕ) (k n : ℕ) (st : Scan)
    → AreDigits ds
    → 0 < length ys
    → st.new ≡ pos n
    → n < 10 ^ k
    → k + length ds ≤ 8
    → st.s ≡ length ds + length ys + k - 1
    → scan (digit_bytes ds ++ ys) st
      ≡ scan ys (record st { new = pos (n + 10 ^ k * digits_value ds) })
scan-digits [] ys k n st h hy hn hlt hk hs =
    let same : n + 10 ^ k * 0 ≡ n = omega arith in rw (same, ← hn)
scan-digits (d ∷ ds) ys k n st h hy hn hlt hk hs =
    let small : n + d * 10 ^ k < 10 ^ suc k = rw pow-suc (digit-step-lt d n (10 ^ k) h.0 hlt) in
    let whole : n + d * 10 ^ k + 10 ^ suc k * digits_value ds
        ≡ n + 10 ^ k * (d + 10 * digits_value ds) =
      rw pow-suc (omega arith) in
    scan-digit d (digit_bytes ds ++ ys) k n st h.0 (rw length-run (omega arith)) hn hlt
      (omega arith) (rw length-run (omega arith))
    ∙ scan-digits ds ys (suc k) (n + d * 10 ^ k) (record st { new = pos (n + d * 10 ^ k) }) h.1 hy
        refl small (omega arith) (omega arith)
    ∙ ap (λ v. scan ys (record st { new = pos v })) whole
  where
    length-run : length (digit_bytes ds ++ ys) ≡ length ds + length ys
    length-run = length-append (digit_bytes ds) ys ∙ ap (λ t. t + length ys) (length-digit_bytes ds)

-- The same at the left end of the buffer: the last byte read ends the number.
pub scan-digits_last :
    (d : ℕ) (ds : List ℕ) (k n : ℕ) (st : Scan)
    → AreDigits (d ∷ ds)
    → st.new ≡ pos n
    → n < 10 ^ k
    → k + length ds < 8
    → st.s ≡ length ds + k
    → scan (digit_bytes (d ∷ ds)) st
      ≡ ok (record st { ch_f = pos (n + 10 ^ k * digits_value (d ∷ ds)); new = pos 0 })
unfolding scan
scan-digits_last d [] k n st h hn hlt hk hs =
    let small : n + d * 10 ^ k < 10 ^ k * 10 = digit-step-lt d n (10 ^ k) h.0 hlt in
    let bound : 10 ^ k ≤ 100_000_000 = pow10-le k (omega arith) in
    let whole : n + d * 10 ^ k ≡ n + 10 ^ k * (d + 10 * 0) = omega arith in
    rw
      (
        first_byte-digit d st h.0,
        add_digit-small d k 0 n st h.0 hn (omega arith) (omega arith) bound,
      )
      (ap (λ v. ok (record st { ch_f = pos v; new = pos 0 })) whole)
scan-digits_last d (d' ∷ ds) k n st h hn hlt hk hs =
    let small : n + d * 10 ^ k < 10 ^ suc k = rw pow-suc (digit-step-lt d n (10 ^ k) h.0 hlt) in
    let whole : n + d * 10 ^ k + 10 ^ suc k * digits_value (d' ∷ ds)
        ≡ n + 10 ^ k * (d + 10 * digits_value (d' ∷ ds)) =
      rw pow-suc (omega arith) in
    scan-digit d (digit_bytes (d' ∷ ds)) k n st h.0 (omega arith) hn hlt (omega arith)
      (omega (arith, length-digit_bytes ds))
    ∙ scan-digits_last d' ds (suc k) (n + d * 10 ^ k) (record st { new = pos (n + d * 10 ^ k) }) h.1
        refl small (omega arith) (omega arith)
    ∙ ap (λ v. ok (record st { ch_f = pos v; new = pos 0 })) whole
