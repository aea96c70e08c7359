-- ===== src/Booking/Command/Format.antt =====
-- hw1_csiebooking-lala-ju/server.c: the answer of `checkcommand` to a command of three numbers.
use system_programming_homew.Prelude.{
  ℕ, ◌<◌, ◌≡◌, ◌%◌, ◌^◌, true, ltb, Bool, arith, if◌then◌else◌, ◌||◌,
}
use system_programming_homew.Prelude.Int.{
  ℤ, pos, negsuc, ◌+ℤ◌, ltb_ℤ, int_laws, int_bounds, neg_part-nonneg, int_max, pos_part, neg_part,
}
use system_programming_homew.Booking.Command.{
  Booking, Result, ok, err, int, apply, checkcommand, over_limit, below_zero,
}
use system_programming_homew.Booking.Command.Bounds.{IsWithin}
use system_programming_homew.Booking.Command.Numbers.{digits_value}
use system_programming_homew.Booking.Command.Scanned.{
  Numeral, IsNumeral, digits, signed, value, command, value-lt, scan-command,
}

int-small : (z : ℤ) → pos_part z < int_max → neg_part z < int_max → int z ≡ z
unfolding int
int-small (pos n) h k =
    let low : n % 2 ^ 32 ≡ n = omega arith in
    let small : ltb n int_max ≡ true = ground arith in rw (low, small)
int-small (negsuc n) h k =
    let low : n % 2 ^ 32 ≡ n = omega arith in
    let small : ltb n int_max ≡ true = ground arith in rw (low, small)

-- What a command of three numbers is to do, on integers without bound: the sum is tested first, then
-- the three amounts, and the record changes only where all the tests pass.
abbrev pub book : Booking → ℤ → ℤ → ℤ → Booking
book b f c e = record b { food = b.food +ℤ f; concert = b.concert +ℤ c; elecs = b.elecs +ℤ e }

abbrev pub is_negative : ℤ → Bool
is_negative z = ltb_ℤ z (pos 0)

abbrev pub decide : Booking → Result Booking
decide b =
    if ltb_ℤ (pos 15) (b.food +ℤ b.concert +ℤ b.elecs)
    then err over_limit
    else if is_negative b.food || is_negative b.concert || is_negative b.elecs
    then err below_zero
    else ok b

-- Eight digits at most.
abbrev pub IsSmall : ℤ → Type 0
IsSmall z = (pos_part z < 100_000_000) × (neg_part z < 100_000_000)

signed-IsSmall : (negative : Bool) (n : ℕ) → n < 100_000_000 → IsSmall (signed negative n)
signed-IsSmall negative n h = ground arith

value-IsSmall : (m : Numeral) → IsNumeral m → IsSmall (value m)
value-IsSmall m h = signed-IsSmall m.negative (digits_value (digits m)) (value-lt m h)

apply-small :
    (f c e : ℤ) (b : Booking)
    → IsSmall f
    → IsSmall c
    → IsSmall e
    → IsWithin b
    → apply f c e b (b.food +ℤ b.concert +ℤ b.elecs) ≡ decide (book b f c e)
unfolding apply
apply-small f c e b hf hc he hb =
    let food_pos : neg_part b.food ≡ 0 = neg_part-nonneg b.food hb.food_ok in
    let concert_pos : neg_part b.concert ≡ 0 = neg_part-nonneg b.concert hb.concert_ok in
    let elecs_pos : neg_part b.elecs ≡ 0 = neg_part-nonneg b.elecs hb.elecs_ok in
    let total : b.food +ℤ b.concert +ℤ b.elecs +ℤ f +ℤ c +ℤ e
        ≡ b.food +ℤ f +ℤ (b.concert +ℤ c) +ℤ (b.elecs +ℤ e) =
      omega int_laws in
    rw
      (
        int-small (b.food +ℤ b.concert +ℤ b.elecs +ℤ f) (omega int_bounds) (omega int_bounds),
        int-small (b.food +ℤ b.concert +ℤ b.elecs +ℤ f +ℤ c) (omega int_bounds) (omega int_bounds),
        int-small (b.food +ℤ b.concert +ℤ b.elecs +ℤ f +ℤ c +ℤ e) (omega int_bounds)
            (omega int_bounds),
        int-small (b.food +ℤ f) (omega int_bounds) (omega int_bounds),
        int-small (b.concert +ℤ c) (omega int_bounds) (omega int_bounds),
        int-small (b.elecs +ℤ e) (omega int_bounds) (omega int_bounds),
        total,
      )
      (ground arith)

-- A command of three numbers of at most eight digits, each with an optional minus sign and one space
-- apart, applied to a record within the limits, gives exactly the answer of the specification on
-- integers without bound: refusal of a total over 15, else refusal of a negative amount, else the
-- three sums.
pub checkcommand-command :
    (f c e : Numeral) (b : Booking)
    → IsNumeral f
    → IsNumeral c
    → IsNumeral e
    → IsWithin b
    → checkcommand (command f c e) b ≡ decide (book b (value f) (value c) (value e))
unfolding checkcommand
checkcommand-command f c e b hf hc he hb =
    let food_pos : neg_part b.food ≡ 0 = neg_part-nonneg b.food hb.food_ok in
    let concert_pos : neg_part b.concert ≡ 0 = neg_part-nonneg b.concert hb.concert_ok in
    let elecs_pos : neg_part b.elecs ≡ 0 = neg_part-nonneg b.elecs hb.elecs_ok in
    rw
      (
        int-small (b.food +ℤ b.concert) (omega int_bounds) (omega int_bounds),
        int-small (b.food +ℤ b.concert +ℤ b.elecs) (omega int_bounds) (omega int_bounds),
        scan-command f c e hf hc he,
      )
      (apply-small (value f) (value c) (value e) b (value-IsSmall f hf) (value-IsSmall c hc)
        (value-IsSmall e he) hb)
