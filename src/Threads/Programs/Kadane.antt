-- ===== src/Threads/Programs/Kadane.antt =====
-- hw3_thread-library-lala-ju/threads.c: `max_subarray` and the sums of runs of its numbers.
use system_programming_homew.Prelude.{
  ℕ, zero, suc, ◌+◌, ◌*◌, ◌<◌, ◌≤◌, ◌≡◌, ◌⊎◌, refl, ap, Bool-cases, inl, inr, List, [], ◌∷◌, ◌++◌,
  some, if◌then◌else◌, length, take, drop, arith,
}
use system_programming_homew.Prelude.Int.{ℤ, pos, ◌+ℤ◌, ◌≤ℤ◌, ltb_ℤ, pos_part, neg_part, int_laws}
use system_programming_homew.CString.{atoi}
use system_programming_homew.Threads.Tcb.{Tcb}
use system_programming_homew.Threads.Programs.{checked, max_subarray_body, max_subarray}

abbrev pub total : List ℤ → ℤ
total [] = pos 0
total (x ∷ xs) = x +ℤ total xs

-- `y` and `sum` after the numbers `xs`, the latest first: the best run that ends at the latest one, and
-- the best run of all; a run is `k` numbers from place `m` on.
pub record Best (xs : List ℤ) (y sum : ℤ) : Type 0 where
  pub latest : (k : ℕ) → (total (take k xs) ≤ℤ y) ⊎ (total (take k xs) ≤ℤ pos 0)
  pub reached_latest : (j : ℕ) × (y ≡ total (take j xs))
  pub bound : (m k : ℕ) → total (take k (drop m xs)) ≤ℤ sum
  pub reached : (m : ℕ) × (k : ℕ) × (sum ≡ total (take k (drop m xs)))

abbrev new_y : ℤ → ℤ → ℤ
new_y x y = if ltb_ℤ x (x +ℤ y) then x +ℤ y else x

abbrev new_sum : ℤ → ℤ → ℤ
new_sum y sum = if ltb_ℤ sum y then y else sum

new_y-ge : (x y r : ℤ) → (r ≤ℤ y) ⊎ (r ≤ℤ pos 0) → (x +ℤ r) ≤ℤ new_y x y
unfolding ◌+ℤ◌
new_y-ge x y r (inl h) = ground arith
new_y-ge x y r (inr h) = ground arith

new_sum-ge : (y sum : ℤ) → (y ≤ℤ new_sum y sum) × (sum ≤ℤ new_sum y sum)
new_sum-ge y sum = (ground arith, ground arith)

≤ℤ_trans : (a b c : ℤ) → a ≤ℤ b → b ≤ℤ c → a ≤ℤ c
≤ℤ_trans a b c h k = omega arith

+ℤ_zero : (x : ℤ) → x ≡ x +ℤ pos 0
+ℤ_zero x = omega int_laws

module _ (x : ℤ) (xs : List ℤ) (y sum : ℤ) (b : Best xs y sum) where
  y' : ℤ
  y' = new_y x y

  next_latest : (k : ℕ) → (total (take k (x ∷ xs)) ≤ℤ y') ⊎ (total (take k (x ∷ xs)) ≤ℤ pos 0)
  unfolding y'
  next_latest zero = inr (omega arith)
  next_latest (suc k) = inl (new_y-ge x y (total (take k xs)) (b.latest k))

  next_reached : (j : ℕ) × (y' ≡ total (take j (x ∷ xs)))
  unfolding y'
  next_reached = elim (Bool-cases (ltb_ℤ x (x +ℤ y))) [
    | inl e ↦ (suc b.reached_latest.0, rw e (ap (λ r. x +ℤ r) b.reached_latest.1))
    | inr e ↦ (1, rw e (+ℤ_zero x))
  ]

  next_bound : (m k : ℕ) → total (take k (drop m (x ∷ xs))) ≤ℤ new_sum y' sum
  unfolding y'
  next_bound zero zero = ≤ℤ_trans (pos 0) sum (new_sum y' sum) (b.bound 0 0) (new_sum-ge y' sum).1
  next_bound zero (suc k) =
      ≤ℤ_trans (x +ℤ total (take k xs)) y' (new_sum y' sum)
        (new_y-ge x y (total (take k xs)) (b.latest k)) (new_sum-ge y' sum).0
  next_bound (suc m) k =
      ≤ℤ_trans (total (take k (drop m xs))) sum (new_sum y' sum) (b.bound m k) (new_sum-ge y' sum).1

  next_best : (m : ℕ) × (k : ℕ) × (new_sum y' sum ≡ total (take k (drop m (x ∷ xs))))
  next_best = elim (Bool-cases (ltb_ℤ sum y')) [
    | inl e ↦ (0, next_reached.0, rw e next_reached.1)
    | inr e ↦ (suc b.reached.0, b.reached.1, rw e b.reached.2)
  ]

  Best-next : Best (x ∷ xs) (new_y x y) (new_sum (new_y x y) sum)
  unfolding y'
  Best-next = record {
    latest = next_latest;
    reached_latest = next_reached;
    bound = next_bound;
    reached = next_best;
  }

-- The buffer after a read, and the numbers that are read, the latest first.
abbrev pub overlaid : List ℕ → List ℕ → List ℕ
overlaid bytes buf = bytes ++ drop (length bytes) buf

abbrev pub numbers : List (List ℕ) → List ℕ → List ℤ → List ℤ
numbers [] buf before = before
numbers (bytes ∷ reads) buf before =
    numbers reads (overlaid bytes buf) (atoi (overlaid bytes buf) ∷ before)

-- Each number is below 2^20 in size, as all numbers of five bytes are.
abbrev pub IsSmall : ℤ → Type 0
IsSmall z = (pos_part z < 1_048_576) × (neg_part z < 1_048_576)

abbrev pub AreSmall : List (List ℕ) → List ℕ → Type 0
AreSmall [] buf = Unit {0}
AreSmall (bytes ∷ reads) buf =
    IsSmall (atoi (overlaid bytes buf)) × AreSmall reads (overlaid bytes buf)

checked-sum :
    (x y : ℤ) (n : ℕ)
    → IsSmall x
    → pos_part y ≤ n * 1_048_576
    → neg_part y < 1_048_576
    → n < 2_000
    → checked (x +ℤ y) ≡ some (x +ℤ y)
unfolding checked ◌+ℤ◌
checked-sum x y n h k l few = ground arith

new_y-small :
    (x y : ℤ) (n : ℕ)
    → IsSmall x
    → pos_part y ≤ n * 1_048_576
    → neg_part y < 1_048_576
    → (pos_part (new_y x y) ≤ suc n * 1_048_576) × (neg_part (new_y x y) < 1_048_576)
unfolding ◌+ℤ◌
new_y-small x y n h k l = (ground arith, ground arith)

max_subarray-from :
    (reads : List (List ℕ)) (t : Tcb) (before : List ℤ) (n : ℕ)
    → Best before t.y t.sum
    → pos_part t.y ≤ n * 1_048_576
    → neg_part t.y < 1_048_576
    → n + length reads ≤ 2_000
    → AreSmall reads t.buf
    → (t' : Tcb) × (max_subarray reads t ≡ some t') × Best (numbers reads t.buf before) t'.y t'.sum
unfolding max_subarray max_subarray_body
max_subarray-from [] t before n best hp hn few small = (t, refl, best)
max_subarray-from (bytes ∷ reads) t before n best hp hn few small =
    let x : ℤ = atoi (overlaid bytes t.buf) in
    let y' : ℤ = new_y x t.y in
    let (yp, yn) = new_y-small x t.y n small.0 hp hn in
    let (t', done, best') =
      max_subarray-from reads
        (record t { buf = overlaid bytes t.buf; x = x; y = y'; sum = new_sum y' t.sum })
        (x ∷ before) (suc n) (Best-next x before t.y t.sum best) yp yn (omega arith) small.1 in
    (t', rw (checked-sum x t.y n small.0 hp hn (omega arith)) done, best')

-- From a control block with y and sum 0, for at most 2000 reads whose numbers are below 2^20 in
-- size, max_subarray does not overflow, and its sum is the greatest sum of a run of neighbouring
-- numbers, the empty run included: no run has a greater sum, and one has this sum.
pub max_subarray_lem :
    (reads : List (List ℕ)) (t : Tcb)
    → t.y ≡ pos 0
    → t.sum ≡ pos 0
    → length reads ≤ 2_000
    → AreSmall reads t.buf
    → (t' : Tcb) × (max_subarray reads t ≡ some t')
      × ((m k : ℕ) → total (take k (drop m (numbers reads t.buf []))) ≤ℤ t'.sum)
      × ((m : ℕ) × (k : ℕ) × (t'.sum ≡ total (take k (drop m (numbers reads t.buf [])))))
max_subarray_lem reads t hy hs few small =
    let (t', done, best) =
      max_subarray-from reads t [] 0 (rw (hy, hs) start) (rw hy (omega arith)) (rw hy (omega arith))
        (omega arith) small in
    (t', done, best.bound, best.reached)
  where
    empty_run : (m k : ℕ) → total (take k (drop m [])) ≤ℤ pos 0
    empty_run zero zero = omega arith
    empty_run zero (suc k) = omega arith
    empty_run (suc m) zero = omega arith
    empty_run (suc m) (suc k) = omega arith

    start : Best [] (pos 0) (pos 0)
    start = record {
      latest = λ k. inl (empty_run 0 k);
      reached_latest = (0, refl);
      bound = empty_run;
      reached = (0, 0, refl);
    }
