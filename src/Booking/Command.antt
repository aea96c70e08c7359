-- ===== src/Booking/Command.antt =====
-- hw1_csiebooking-lala-ju/server.c: `record`, and `checkcommand`, which reads a booking command from
-- right to left and applies it to the record. A request's buffer is the list of its `buf_len` bytes;
-- the loop's index `i` is the number of bytes to the left of the one that it looks at, so the bytes
-- still to be read are the rest of the reversed buffer.
pub mod Bounds
pub mod Numbers
pub mod Scanned
pub mod Format
use mathlib.Core.List.{reverse}
use mathlib.Core.Bool.{not}
use system_programming_homew.CString.{is_digit}
use system_programming_homew.Prelude.{
  ℕ, suc, ◌+◌, ◌-◌, ◌^◌, Bool, ◌&&◌, ◌||◌, List, [], ◌∷◌, ltb, ◌==◌, if◌then◌else◌, length, ◌%◌,
}
use system_programming_homew.Prelude.Int.{ℤ, pos, negsuc, ◌+ℤ◌, ◌*ℤ◌, ltb_ℤ, int_max}

-- `record`; `bookingState` is written out by its three objects.
pub record Booking : Type 0 where
  pub id : ℤ
  pub food : ℤ
  pub concert : ℤ
  pub elecs : ℤ

-- The return codes -1, 1 and 2.
pub data Refusal : Type 0 where
  malformed over_limit below_zero : Refusal

pub data Result {ℓ} (A : Type ℓ) : Type ℓ where
  ok : A → Result A
  err : Refusal → Result A

infixl 5 ◌>>=◌
abbrev pub ◌>>=◌ {ℓ κ} : {A : Type ℓ} {B : Type κ} → Result A → (A → Result B) → Result B
ok a >>= f = f a
err e >>= f = err e

-- The value of an `int` operation, which keeps the low 32 bits, as the program is compiled.
unfoldable pub int : ℤ → ℤ
int (pos n) = let low = n % 2 ^ 32 in if ltb low int_max then pos low else negsuc (2 ^ 32 - 1 - low)
int (negsuc n) =
    let low = n % 2 ^ 32 in if ltb low int_max then negsuc low else pos (2 ^ 32 - 1 - low)

-- The local variables of the loop: `s` is the place of the current number's last digit.
pub record Scan : Type 0 where
  pub s : ℕ
  pub time : ℕ
  pub ch_f : ℤ
  pub ch_c : ℤ
  pub ch_e : ℤ
  pub new : ℤ

-- `(int)d` after `k` multiplications by 10; a `double` out of the range of `int` becomes the smallest one.
unfoldable pub weight : ℕ → ℤ
weight k = if ltb (10 ^ k) int_max then pos (10 ^ k) else negsuc (int_max - 1)

-- `val * 10^(s-i)` added to `new`.
unfoldable pub add_digit : ℕ → ℕ → Scan → Scan
unfolding weight int
add_digit c i st =
    let val = int (pos (c - b'0') *ℤ weight (st.s - i)) in record st { new = int (st.new +ℤ val) }

unfoldable pub negate : Scan → Scan
unfolding int
negate st = record st { new = int (st.new *ℤ negsuc 0) }

-- A space at place `i` ends a number.
unfoldable pub end_number : ℕ → Scan → Scan
end_number i st = record st {
  s = i - 1;
  ch_e = if st.time == 1 then st.new else st.ch_e;
  ch_c = if st.time == 1 then st.ch_c else if st.time == 2 then st.new else st.ch_c;
  new = pos 0;
  time = st.time + 1;
}

-- The body at place `i = 0`.
unfoldable pub first_byte : ℕ → Scan → Result Scan
first_byte c st = do
  st' ←
      (if c == b'-'
        then ok (negate st)
        else if c == b' '
        then err malformed
        else if is_digit c
        then ok (add_digit c 0 st)
        else err malformed)
  ok (record st' { ch_f = st'.new; new = pos 0 })

-- The body at place `i > 0`; `before` is the byte at `i - 1`.
unfoldable pub later_byte : ℕ → ℕ → ℕ → Scan → Result Scan
later_byte c before i st =
    if c == b' '
    then ok (end_number i st)
    else if c == b'-'
    then (if ltb 0 (i - 1) && not (before == b' ') then err malformed else ok (negate st))
    else if is_digit c
    then ok (add_digit c i st)
    else err malformed

unfoldable pub scan : List ℕ → Scan → Result Scan
scan [] st = ok st
scan (c ∷ []) st = first_byte c st
scan (c ∷ b ∷ rest) st = later_byte c b (suc (length rest)) st >>= scan (b ∷ rest)

abbrev pub start : ℕ → Scan
start len = record { s = len - 1; time = 1; ch_f = pos 0; ch_c = pos 0; ch_e = pos 0; new = pos 0 }

-- The tests on the sums and the update of the record.
unfoldable pub apply : ℤ → ℤ → ℤ → Booking → ℤ → Result Booking
unfolding int
apply f c e b ori =
    let food = int (b.food +ℤ f) in
    let concert = int (b.concert +ℤ c) in
    let elecs = int (b.elecs +ℤ e) in
    if ltb_ℤ (pos 15) (int (int (int (ori +ℤ f) +ℤ c) +ℤ e))
    then err over_limit
    else if ltb_ℤ food (pos 0)
    then err below_zero
    else if ltb_ℤ concert (pos 0)
    then err below_zero
    else if ltb_ℤ elecs (pos 0)
    then err below_zero
    else ok (record b { food = food; concert = concert; elecs = elecs })

-- `checkcommand`: the new record, which the caller's file then holds, or the reason for no change.
unfoldable pub checkcommand : List ℕ → Booking → Result Booking
checkcommand buf b = do
  st ← scan (reverse buf) (start (length buf))
  apply st.ch_f st.ch_c st.ch_e b (int (int (b.food +ℤ b.concert) +ℤ b.elecs))
