-- ===== src/Threads/Programs/Collatz.antt =====
-- hw3_thread-library-lala-ju/threads.c: `collatz` and the Collatz sequence.
use system_programming_homew.Prelude.{
  ℕ, zero, suc, ◌+◌, ◌*◌, ◌/◌, ◌%◌, ◌<◌, ◌≡◌, ◌≢◌, refl, ap, subst, true, false, List, [], ◌∷◌,
  Option, none, some, arith, ◌==◌, if◌then◌else◌, Bool-cases, inl, inr,
}
use system_programming_homew.Prelude.Int.{ℤ, pos, ◌+ℤ◌, int_max, pos-+ℤ, pos-*ℤ}
use system_programming_homew.Threads.Tcb.{Tcb}
use system_programming_homew.Threads.Scheduler.{◌>>=◌}
use system_programming_homew.Threads.Programs.Checked.{checked-pos}
use system_programming_homew.Threads.Programs.{
  checked, is_one, is_even, halved, collatz_body, collatz,
}

unfoldable pub collatz_next : ℕ → ℕ
collatz_next n = if n % 2 == 0 then n / 2 else n * 3 + 1

-- The next `k` numbers of the sequence.
unfoldable pub orbit : ℕ → ℕ → List ℤ
unfolding collatz_next
orbit zero n = []
orbit (suc k) n = pos (collatz_next n) ∷ orbit k (collatz_next n)

-- The sequence is at 1 after `k + 1` steps for the first time, and all its numbers before are of type `int`.
unfoldable pub Falls : ℕ → ℕ → Type 0
Falls zero n = collatz_next n ≡ 1
Falls (suc k) n = (collatz_next n ≢ 1) × (collatz_next n < int_max) × Falls k (collatz_next n)

-- What the loop goes on from.
abbrev pub value : Tcb → ℤ
value t = if is_one t.i then t.arg else t.x

even-pos : (n : ℕ) → is_even (pos n) ≡ (n % 2 == 0)
even-pos n = let same : n + 0 ≡ n = omega arith in rw same

halved-pos : (n : ℕ) → halved (pos n) ≡ pos (n / 2)
halved-pos n = ground arith

pub collatz_body-next :
    (n : ℕ) (t : Tcb)
    → value t ≡ pos n
    → collatz_next n < int_max
    → collatz_body t ≡ some (record t { x = pos (collatz_next n) }, collatz_next n == 1)
unfolding collatz_body collatz_next
collatz_body-next n t at fits = elim (Bool-cases (n % 2 == 0)) [
  | inl e ↦ rw (at, even-pos n, e, halved-pos n)
  | inr e ↦
      let small : n * 3 + 1 < int_max =
        subst (λ b. (if b then n / 2 else n * 3 + 1) < int_max) e fits in
      rw (
        at,
        even-pos n,
        e,
        pos-*ℤ,
        checked-pos (n * 3) (omega arith),
        pos-+ℤ,
        checked-pos (n * 3 + 1) small,
      )
]

-- From pass `j + 1` on.
collatz-from :
    (k j n : ℕ) (t : Tcb)
    → value t ≡ pos n
    → t.i ≡ pos (suc j)
    → k + suc j < int_max
    → Falls k n
    → collatz (suc k) t ≡ some (orbit (suc k) n)
unfolding collatz orbit Falls
collatz-from zero j n t at hi small falls =
    let one : (collatz_next n == 1) ≡ true = ground arith in
    rw (collatz_body-next n t at (omega arith), one)
collatz-from (suc k) j n t at hi small falls =
    let more : (collatz_next n == 1) ≡ false = ground (arith, falls.0) in
    let second : is_one (pos (suc (suc j))) ≡ false = ground arith in
    let next : t.i +ℤ pos 1 ≡ pos (suc (suc j)) = rw (hi, pos-+ℤ) (ap pos (omega arith)) in
    rw (
      collatz_body-next n t at (falls.1),
      more,
      next,
      checked-pos (suc (suc j)) (omega arith),
      collatz-from k (suc j) (collatz_next n)
          (record t { x = pos (collatz_next n); i = pos (suc (suc j)) }) (rw second) refl
          (omega arith) (falls.2),
    )

-- If the Collatz sequence from n is at 1 after k + 1 steps for the first time and its numbers before
-- that are of type int, then the loop of collatz with the argument n, from i = 1, prints exactly
-- these k + 1 numbers and then ends the thread, without overflow.
pub collatz-prints :
    (k n : ℕ) (t : Tcb)
    → t.i ≡ pos 1
    → t.arg ≡ pos n
    → suc k < int_max
    → Falls k n
    → collatz (suc k) t ≡ some (orbit (suc k) n)
collatz-prints k n t hi ha small falls = collatz-from k 0 n t (rw (hi, ha)) hi (omega arith) falls

zero-stays : (t : Tcb) (i : ℤ) → t.arg ≡ pos 0 → value (record t { x = pos 0; i = i }) ≡ pos 0
zero-stays t i ha = elim (Bool-cases (is_one i)) [ inl e ↦ rw (e, ha) | inr e ↦ rw e ]

next-zero : collatz_next 0 ≡ 0
unfolding collatz_next
next-zero = refl

zero_fits : collatz_next 0 < int_max
zero_fits = rw next-zero (omega arith)

body-zero : (t : Tcb) → value t ≡ pos 0 → collatz_body t ≡ some (record t { x = pos 0 }, false)
unfolding collatz_next
body-zero t at = rw (collatz_body-next 0 t at zero_fits, next-zero)

nothing_after :
    (next : Option ℤ) (go : ℤ → Option (List ℤ))
    → ((i : ℤ) → go i ≡ none)
    → (next >>= go >>= λ rest. some (pos 0 ∷ rest)) ≡ none
nothing_after none go h = refl
nothing_after (some i) go h = rw (h i)

collatz-zero_from : (fuel : ℕ) (t : Tcb) → t.arg ≡ pos 0 → value t ≡ pos 0 → collatz fuel t ≡ none
unfolding collatz collatz_next
collatz-zero_from zero t ha at = refl
collatz-zero_from (suc fuel) t ha at =
    let rest : (i : ℤ) → collatz fuel (record t { x = pos 0; i = i }) ≡ none =
      λ i. collatz-zero_from fuel (record t { x = pos 0; i = i }) ha (zero-stays t i ha) in
    rw (collatz_body-next 0 t at zero_fits, next-zero)
      (nothing_after (checked (t.i +ℤ pos 1)) (λ i. collatz fuel (record t { x = pos 0; i = i }))
        rest)

-- With the argument 0, while i is 1 or x is 0, a pass of collatz sets x to 0 and does not end the
-- thread, the same holds of the next pass, whatever i is then, and no number of passes leads to the
-- end of the thread.
pub collatz-zero :
    (fuel : ℕ) (t : Tcb) (i : ℤ)
    → t.arg ≡ pos 0
    → value t ≡ pos 0
    → (collatz_body t ≡ some (record t { x = pos 0 }, false))
      × (value (record t { x = pos 0; i = i }) ≡ pos 0)
      × (collatz fuel t ≡ none)
collatz-zero fuel t i ha at = (body-zero t at, zero-stays t i ha, collatz-zero_from fuel t ha at)
