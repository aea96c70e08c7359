-- ===== src/Prelude/Wrap.antt =====
-- Integers modulo 2^32.
use system_programming_homew.Prelude.{
  ℕ, ◌+◌, ◌*◌, ◌^◌, ◌≤◌, ◌<◌, ◌≡◌, ◌⊎◌, inl, inr, arith, ltb, Bool-cases,
}
use system_programming_homew.Prelude.Int.{ℤ, pos, ◌+ℤ◌, ◌≤ℤ◌, int_laws, pos_part, neg_part}

-- Two integers that differ by a multiple of 2^32.
pub record IsCongruent (x y : ℤ) : Type 0 where
  pub down : ℕ
  pub up : ℕ
  pub parts : pos_part x + neg_part y + 2 ^ 32 * down ≡ neg_part x + pos_part y + 2 ^ 32 * up

pub same-IsCongruent : (x : ℤ) → IsCongruent x x
same-IsCongruent x = record { down = 0; up = 0; parts = omega arith }

pub sym-IsCongruent : (x y : ℤ) → IsCongruent x y → IsCongruent y x
sym-IsCongruent x y h = record { down = h.up; up = h.down; parts = omega (arith, h.parts) }

pub trans-IsCongruent : (x y z : ℤ) → IsCongruent x y → IsCongruent y z → IsCongruent x z
trans-IsCongruent x y z h k = record {
  down = h.down + k.down;
  up = h.up + k.up;
  parts = omega (arith, h.parts, k.parts);
}

pub +ℤ-IsCongruent :
    (x y x' y' : ℤ) → IsCongruent x x' → IsCongruent y y' → IsCongruent (x +ℤ y) (x' +ℤ y')
+ℤ-IsCongruent x y x' y' h k = record {
  down = h.down + k.down;
  up = h.up + k.up;
  parts = omega (int_laws, h.parts, k.parts);
}

-- An integer that is congruent to a small `int` is as small, or far away.
pub small_or_far :
    (s t : ℤ)
    → IsCongruent s t
    → t ≤ℤ pos 15
    → neg_part t ≤ 2 ^ 31
    → (s ≤ℤ pos 15) ⊎ (pos (2 ^ 31) ≤ℤ s)
small_or_far s t h small low = elim (Bool-cases (ltb h.down h.up)) [
  | inl e ↦ let more : h.down < h.up = ground arith in inr (omega (arith, h.parts))
  | inr e ↦ let less : h.up ≤ h.down = ground arith in inl (omega (arith, h.parts))
]
