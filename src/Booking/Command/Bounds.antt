-- ===== src/Booking/Command/Bounds.antt =====
-- hw1_csiebooking-lala-ju/server.c: `checkcommand` on any bytes.
use mathlib.Core.List.{reverse, reverse-append, reverse-cons, append_assoc}
use system_programming_homew.Prelude.{
  ℕ, suc, ◌≡◌, ◌≢◌, refl, false, List, [], ◌∷◌, arith, length, ap, ◌++◌, ◌+◌, ◌^◌, ◌/◌, ◌%◌, ◌≤◌,
  ◌<◌, ◌⊎◌, inl, inr, ltb, Bool-cases, subst,
}
use system_programming_homew.Prelude.Int.{
  ℤ, pos, negsuc, ◌+ℤ◌, ◌≤ℤ◌, ltb_ℤ, ltb_ℤ-false, int_laws, int_max, neg_part,
}
use system_programming_homew.Prelude.Wrap.{
  IsCongruent, same-IsCongruent, sym-IsCongruent, trans-IsCongruent, +ℤ-IsCongruent, small_or_far,
}
use system_programming_homew.CString.{is_digit}
use system_programming_homew.Booking.Command.{
  Booking, Result, ok, err, int, Scan, apply, scan, start, checkcommand, ◌>>=◌, first_byte,
  later_byte,
}

-- A chain that succeeds has a first step that succeeds.
pub >>=-ok_lem {ℓ κ} :
    {S : Type ℓ} {T : Type κ} (step : Result S) (then_do : S → Result T) {out : T}
    → (step >>= then_do) ≡ ok out
    → (mid : S) × (then_do mid ≡ ok out) × (step ≡ ok mid)
>>=-ok_lem (err refusal) then_do failed = cc
>>=-ok_lem (ok mid) then_do same = (mid, same, refl)

-- What `int` keeps.
int-IsCongruent : (z : ℤ) → IsCongruent (int z) z
unfolding int
int-IsCongruent (pos n) = elim (Bool-cases (ltb (n % 2 ^ 32) int_max)) [
  | inl e ↦ record { down = n / 2 ^ 32; up = 0; parts = rw e (omega arith) }
  | inr e ↦ record { down = n / 2 ^ 32 + 1; up = 0; parts = rw e (omega arith) }
]
int-IsCongruent (negsuc n) = elim (Bool-cases (ltb (n % 2 ^ 32) int_max)) [
  | inl e ↦ record { down = 0; up = n / 2 ^ 32; parts = rw e (omega arith) }
  | inr e ↦ record { down = 0; up = n / 2 ^ 32 + 1; parts = rw e (omega arith) }
]

int_low : (z : ℤ) → neg_part (int z) ≤ 2 ^ 31
unfolding int
int_low (pos n) = elim (Bool-cases (ltb (n % 2 ^ 32) int_max)) [
  | inl e ↦ rw e (omega arith)
  | inr e ↦ let high : int_max ≤ n % 2 ^ 32 = ground arith in rw e (omega arith)
]
int_low (negsuc n) = elim (Bool-cases (ltb (n % 2 ^ 32) int_max)) [
  | inl e ↦ let low : n % 2 ^ 32 < int_max = ground arith in rw e (omega arith)
  | inr e ↦ rw e (omega arith)
]

-- No object is booked a negative number of times, and no more than 15 items are booked in all.
pub record IsWithin (b : Booking) : Type 0 where
  pub food_ok : pos 0 ≤ℤ b.food
  pub concert_ok : pos 0 ≤ℤ b.concert
  pub elecs_ok : pos 0 ≤ℤ b.elecs
  pub total_ok : b.food +ℤ b.concert +ℤ b.elecs ≤ℤ pos 15

-- What a record is kept to, whatever the commands: no negative amount, and at most 15 items in all, unless
-- their sum is out of the range of `int`.
pub record IsStored (b : Booking) : Type 0 where
  pub food_ok : pos 0 ≤ℤ b.food
  pub concert_ok : pos 0 ≤ℤ b.concert
  pub elecs_ok : pos 0 ≤ℤ b.elecs
  pub total_ok :
      (b.food +ℤ b.concert +ℤ b.elecs ≤ℤ pos 15) ⊎ (pos (2 ^ 31) ≤ℤ b.food +ℤ b.concert +ℤ b.elecs)

pub IsWithin-IsStored : (b : Booking) → IsWithin b → IsStored b
IsWithin-IsStored b h = record {
  food_ok = h.food_ok;
  concert_ok = h.concert_ok;
  elecs_ok = h.elecs_ok;
  total_ok = inl h.total_ok;
}

-- The sum that is tested, and the sum of the amounts that are written.
total : ℤ → ℤ → ℤ → Booking → ℤ
total f c e b = int (int (int (int (int (b.food +ℤ b.concert) +ℤ b.elecs) +ℤ f) +ℤ c) +ℤ e)

int-+ℤ : (x y z : ℤ) → IsCongruent x y → IsCongruent (int (x +ℤ z)) (y +ℤ z)
int-+ℤ x y z h =
    trans-IsCongruent (int (x +ℤ z)) (x +ℤ z) (y +ℤ z) (int-IsCongruent (x +ℤ z))
      (+ℤ-IsCongruent x z y z h (same-IsCongruent z))

total-IsCongruent :
    (f c e : ℤ) (b : Booking)
    → IsCongruent (int (b.food +ℤ f) +ℤ int (b.concert +ℤ c) +ℤ int (b.elecs +ℤ e)) (total f c e b)
unfolding total
total-IsCongruent f c e b =
    let ori =
      int-+ℤ (int (b.food +ℤ b.concert)) (b.food +ℤ b.concert) b.elecs (int-IsCongruent _) in
    let tested = int-+ℤ _ (b.food +ℤ b.concert +ℤ b.elecs +ℤ f +ℤ c) e (
      int-+ℤ _ (b.food +ℤ b.concert +ℤ b.elecs +ℤ f) c
        (int-+ℤ _ (b.food +ℤ b.concert +ℤ b.elecs) f ori)) in
    let written =
      +ℤ-IsCongruent _ _ (b.food +ℤ f +ℤ (b.concert +ℤ c)) (b.elecs +ℤ e)
        (+ℤ-IsCongruent _ _ (b.food +ℤ f) (b.concert +ℤ c) (int-IsCongruent _) (int-IsCongruent _))
        (int-IsCongruent _) in
    let same : b.food +ℤ b.concert +ℤ b.elecs +ℤ f +ℤ c +ℤ e
        ≡ b.food +ℤ f +ℤ (b.concert +ℤ c) +ℤ (b.elecs +ℤ e) =
      omega int_laws in
    trans-IsCongruent _ _ _ written
      (sym-IsCongruent _ _ (subst (IsCongruent (total f c e b)) same tested))

apply-eq-ok :
    (f c e : ℤ) (b : Booking) (ori : ℤ) {b' : Booking}
    → apply f c e b ori ≡ ok b'
    → (b' ≡ record b {
      food = int (b.food +ℤ f);
      concert = int (b.concert +ℤ c);
      elecs = int (b.elecs +ℤ e);
    })
      × (ltb_ℤ (pos 15) (int (int (int (ori +ℤ f) +ℤ c) +ℤ e)) ≡ false)
      × (ltb_ℤ (int (b.food +ℤ f)) (pos 0) ≡ false)
      × (ltb_ℤ (int (b.concert +ℤ c)) (pos 0) ≡ false)
      × (ltb_ℤ (int (b.elecs +ℤ e)) (pos 0) ≡ false)
unfolding apply
apply-eq-ok f c e b ori h = ground arith

-- Whatever the bytes of a command and whatever the record, a record that checkcommand accepts has no
-- negative amount, has at most 15 objects in all unless they are 2^31 or more, a sum that an int
-- does not hold, and keeps its id.
pub checkcommand-IsStored :
    (buf : List ℕ) (b b' : Booking) → checkcommand buf b ≡ ok b' → IsStored b' × (b'.id ≡ b.id)
unfolding checkcommand total
checkcommand-IsStored buf b b' h =
    let (st, k, _) = >>=-ok_lem (scan (reverse buf) (start (length buf))) _ h in
    let parts = apply-eq-ok st.ch_f st.ch_c st.ch_e b _ k in
    (
      rw parts.0 (record {
        food_ok = ltb_ℤ-false (int (b.food +ℤ st.ch_f)) (pos 0) parts.2;
        concert_ok = ltb_ℤ-false (int (b.concert +ℤ st.ch_c)) (pos 0) parts.3;
        elecs_ok = ltb_ℤ-false (int (b.elecs +ℤ st.ch_e)) (pos 0) parts.4;
        total_ok =
            small_or_far _ (total st.ch_f st.ch_c st.ch_e b)
              (total-IsCongruent st.ch_f st.ch_c st.ch_e b)
              (ltb_ℤ-false (pos 15) (total st.ch_f st.ch_c st.ch_e b) parts.1) (int_low _);
      }),
      ap (λ (r : Booking). r.id) parts.0,
    )

-- A byte that is no digit, no `-` and no space.
abbrev pub IsForeign : ℕ → Type 0
IsForeign c = (is_digit c ≡ false) × (c ≢ b'-') × (c ≢ b' ')

scan-foreign :
    (xs : List ℕ) (c : ℕ) (ys : List ℕ) (st : Scan) {st' : Scan}
    → IsForeign c
    → scan (xs ++ c ∷ ys) st ≢ ok st'
unfolding scan first_byte later_byte
scan-foreign [] c [] st f = ground arith
scan-foreign [] c (b ∷ ys) st f = ground arith
scan-foreign (x ∷ []) c ys st f = λ h.
    let (st₁, k, e) = >>=-ok_lem (later_byte x c (suc (length ys)) st) _ h in
    scan-foreign [] c ys st₁ f k
scan-foreign (x ∷ y ∷ xs) c ys st f = λ h.
    let (st₁, k, e) = >>=-ok_lem (later_byte x y (suc (length (xs ++ c ∷ ys))) st) _ h in
    scan-foreign (y ∷ xs) c ys st₁ f k

-- A command that holds, at any place, a byte that is no digit, no minus sign and no space is never
-- accepted.
pub checkcommand-foreign :
    (before after : List ℕ) (c : ℕ) (b b' : Booking)
    → IsForeign c
    → checkcommand (before ++ c ∷ after) b ≢ ok b'
unfolding checkcommand
checkcommand-foreign before after c b b' f h =
    let (st, h₃, e₃) = >>=-ok_lem (scan (reverse (before ++ c ∷ after)) _) _ h in
    scan-foreign (reverse after) c (reverse before) _ f
      (rw (reverse-append before (c ∷ after), reverse-cons c after, append_assoc) at e₃)
