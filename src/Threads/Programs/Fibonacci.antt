-- ===== src/Threads/Programs/Fibonacci.antt =====
-- hw3_thread-library-lala-ju/threads.c: `fibonacci` and the Fibonacci numbers.
use system_programming_homew.Prelude.{
  ℕ, zero, suc, ◌+◌, ◌<◌, ◌≤◌, ◌≡◌, refl, ap, subst, ◌∙◌, true, false, List, [], ◌∷◌, some, arith,
}
use system_programming_homew.Prelude.Int.{ℤ, pos, ◌+ℤ◌, leb_ℤ, int_max, pos-+ℤ}
use system_programming_homew.Threads.Tcb.{Tcb}
use system_programming_homew.Threads.Programs.Checked.{checked-pos}
use system_programming_homew.Threads.Programs.{is_last, fibonacci_body, fibonacci}

unfoldable pub fib : ℕ → ℕ
fib zero = 0
fib (suc zero) = 1
fib (suc (suc n)) = fib (suc n) + fib n

fib-step : (n : ℕ) → fib n ≤ fib (suc n)
unfolding fib
fib-step zero = omega arith
fib-step (suc n) = omega arith

pub fib_mono : (k m : ℕ) → fib k ≤ fib (m + k)
fib_mono k zero = let same : 0 + k ≡ k = omega arith in rw same (omega arith)
fib_mono k (suc m) =
    let next : suc m + k ≡ suc (m + k) = omega arith in
    rw next (omega (arith, fib_mono k m, fib-step (m + k)))

-- `n` Fibonacci numbers from number `k` on.
abbrev pub fibs : ℕ → ℕ → List ℤ
fibs k zero = []
fibs k (suc n) = pos (fib k) ∷ fibs (suc k) n

-- What `x` and `y` hold after `k` passes; the first two passes set both.
abbrev pub IsAt : ℕ → ℤ → ℤ → Type 0
IsAt zero x y = Unit {0}
IsAt (suc zero) x y = Unit {0}
IsAt (suc (suc j)) x y = (x ≡ pos (fib (suc j))) × (y ≡ pos (fib (suc (suc j))))

-- One pass.
pub fibonacci_body-IsAt :
    (k : ℕ) (t : Tcb)
    → t.i ≡ pos (suc k)
    → IsAt k t.x t.y
    → fib (suc k) < int_max
    → (x : ℤ) × (fibonacci_body t ≡ some (record t { x = x; y = pos (fib (suc k)) }, is_last t))
      × IsAt (suc k) x (pos (fib (suc k)))
unfolding fibonacci_body fib
fibonacci_body-IsAt zero t hi h fits = (pos 1, rw hi, tt)
fibonacci_body-IsAt (suc zero) t hi h fits = (pos 1, rw hi, (refl, refl))
fibonacci_body-IsAt (suc (suc j)) t hi h fits =
    let later : leb_ℤ t.i (pos 2) ≡ false = rw hi (ground arith) in
    let sum : t.x +ℤ t.y ≡ pos (fib (suc (suc (suc j)))) =
      rw (h.0, h.1, pos-+ℤ) (ap pos (omega arith)) in
    (t.y, rw (later, sum, checked-pos (fib (suc (suc (suc j)))) fits), (h.1, refl))

-- From the pass after `k` passes on.
fibonacci-from :
    (m k fuel : ℕ) (t : Tcb)
    → m < fuel
    → t.i ≡ pos (suc k)
    → t.arg ≡ pos (m + suc k)
    → m + suc k < int_max
    → fib (m + suc k) < int_max
    → IsAt k t.x t.y
    → fibonacci fuel t ≡ some (fibs (suc k) (suc m))
unfolding fibonacci
fibonacci-from m k zero t hf hi ha small fits h = absurd (omega arith)
fibonacci-from zero k (suc fuel) t hf hi ha small fits h =
    let (x, done, _) = fibonacci_body-IsAt k t hi h (omega (arith, fib_mono (suc k) 0, fits)) in
    let last : is_last t ≡ true = rw (hi, ha) (ground arith) in rw (done, last)
fibonacci-from (suc m) k (suc fuel) t hf hi ha small fits h =
    let shift : suc m + suc k ≡ m + suc (suc k) = omega arith in
    let (x, done, h') =
      fibonacci_body-IsAt k t hi h (omega (arith, fib_mono (suc k) (suc m), fits)) in
    let goes_on : is_last t ≡ false = rw (hi, ha) (ground arith) in
    let next : t.i +ℤ pos 1 ≡ pos (suc (suc k)) = rw (hi, pos-+ℤ) (ap pos (omega arith)) in
    rw (
      done,
      goes_on,
      next,
      checked-pos (suc (suc k)) (omega arith),
      fibonacci-from m (suc k) fuel
          (record t { x = x; y = pos (fib (suc k)); i = pos (suc (suc k)) }) (omega arith) refl
          (ha ∙ ap pos shift) (omega arith) (subst (λ n. fib n < int_max) shift fits) h',
    )

-- With an argument n from 1 on, for which n and the n-th Fibonacci number fit an int, the loop of
-- fibonacci from i = 1 prints exactly the first n Fibonacci numbers and then ends the thread,
-- without overflow.
pub fibonacci-prints :
    (m : ℕ) (t : Tcb)
    → t.i ≡ pos 1
    → t.arg ≡ pos (suc m)
    → suc m < int_max
    → fib (suc m) < int_max
    → fibonacci (suc m) t ≡ some (fibs 1 (suc m))
fibonacci-prints m t hi ha small fits =
    let whole : suc m ≡ m + 1 = omega arith in
    fibonacci-from m 0 (suc m) t (omega arith) hi (ha ∙ ap pos whole) (omega arith)
      (subst (λ n. fib n < int_max) whole fits) tt
