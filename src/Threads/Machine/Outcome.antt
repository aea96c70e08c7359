-- ===== src/Threads/Machine/Outcome.antt =====
-- hw3_thread-library-lala-ju at work: what the thread of fibonacci shows among the others.
use mathlib.Core.Option.{some-injective}
use system_programming_homew.Prelude.{
  ℕ, zero, suc, ◌+◌, ◌-◌, ◌<◌, ◌≤◌, ◌≡◌, inl, inr, refl, sym, ap, subst, ◌∙◌, Bool, true, false,
  List, [], ◌∷◌, ◌++◌, some, ◌==◌, arith,
}
use system_programming_homew.Prelude.Int.{ℤ, pos, int_max}
use system_programming_homew.Threads.Tcb.{Tcb, Environment, Program}
use system_programming_homew.Threads.Programs.{is_last, fibonacci_body}
use system_programming_homew.Threads.Programs.Fibonacci.{
  fib, fibs, IsAt, fib_mono, fibonacci_body-IsAt,
}
use system_programming_homew.Threads.Machine.{Pass, end_body, resume}
use system_programming_homew.Threads.Machine.Lines.{lines_of}
use system_programming_homew.Threads.Machine.Alone.{Alone, fresh, turn, stays}
use system_programming_homew.Threads.Machine.Passes.{
  Place, lines_of-own, loop_turn-Place, resume-fibonacci,
}

-- The thread of `fibonacci` with the argument `suc m` after `k` passes.
record Passed (i m k : ℕ) (t : Tcb) : Type 0 where
  own_id : t.id ≡ i
  own_program : t.program ≡ Program.fibonacci
  own_arg : t.arg ≡ pos (suc m)
  sums : IsAt k t.x t.y
  place : Place k t

-- Before its last pass, and behind it.
abbrev Shown : ℕ → ℕ → List ℤ → Tcb → Bool → Type 0
Shown i m zs t true = (k : ℕ) × (zs ≡ fibs 1 k) × (k ≤ m) × Passed i m k t
Shown i m zs t false = zs ≡ fibs 1 (suc m)

fibs-snoc : (k j : ℕ) → fibs j k ++ pos (fib (k + j)) ∷ [] ≡ fibs j (suc k)
fibs-snoc zero j = let none : 0 + j ≡ j = omega arith in rw none refl
fibs-snoc (suc k) j =
    let shift : suc k + j ≡ k + suc j = omega arith in
    ap (◌∷◌ (pos (fib j))) (rw shift (fibs-snoc k (suc j)))

fibs-next : (k : ℕ) → fibs 1 k ++ pos (fib (suc k)) ∷ [] ≡ fibs 1 (suc k)
fibs-next k = let shift : suc k ≡ k + 1 = omega arith in rw shift (fibs-snoc k 1)

-- The turn of pass `k`.
abbrev passed_on : Tcb → ℕ → ℤ → Tcb
passed_on t k x = record t { i = pos (suc k); x = x; y = pos (fib (suc k)) }

is_last-Passed :
    (i m k : ℕ) (t : Tcb) (x : ℤ) → Passed i m k t → is_last (passed_on t k x) ≡ (suc k == suc m)
is_last-Passed i m k t x h = rw h.own_arg (ground arith)

resume-Passed :
    (i m k : ℕ) (bytes : List ℕ) (t : Tcb)
    → Passed i m k t
    → k ≤ m
    → suc m < int_max
    → fib (suc m) < int_max
    → (x : ℤ) × (resume bytes t
        ≡ some (end_body (pos (fib (suc k))) (is_last (passed_on t k x)) (passed_on t k x)))
      × IsAt (suc k) x (pos (fib (suc k)))
resume-Passed i m k bytes t h early small fits =
    let whole : (m - k) + suc k ≡ suc m = omega (arith, early) in
    let grows : fib (suc k) ≤ fib (suc m) =
      subst (λ n. fib (suc k) ≤ fib n) whole (fib_mono (suc k) (m - k)) in
    let (x, done, sums) =
      fibonacci_body-IsAt k (record t { i = pos (suc k) }) refl h.sums
        (omega (arith, grows, fits)) in
    (
      x,
      resume-fibonacci bytes t h.own_program
          ∙ loop_turn-Place fibonacci_body (λ t. t.y) k t (passed_on t k x)
              (is_last (passed_on t k x)) h.place (omega (arith, early, small)) done,
      sums,
    )

end_body-Shown :
    (i m k : ℕ) (t : Tcb) (x : ℤ) (last : Bool)
    → Passed i m k t
    → k ≤ m
    → IsAt (suc k) x (pos (fib (suc k)))
    → is_last (passed_on t k x) ≡ last
    → Shown i m
        (fibs 1 k ++ lines_of i (end_body (pos (fib (suc k))) last (passed_on t k x)).printed)
        (end_body (pos (fib (suc k))) last (passed_on t k x)).thread
        (stays (end_body (pos (fib (suc k))) last (passed_on t k x)).stop)
end_body-Shown i m k t x true h early sums e =
    let same : k ≡ m = ground (arith, sym (is_last-Passed i m k t x h) ∙ e) in
    rw (lines_of-own i t.id (pos (fib (suc k))) h.own_id)
      (fibs-next k ∙ ap (λ n. fibs 1 (suc n)) same)
end_body-Shown i m k t x false h early sums e = (
  suc k,
  rw (lines_of-own i t.id (pos (fib (suc k))) h.own_id) (fibs-next k),
  ground (arith, sym (is_last-Passed i m k t x h) ∙ e, early),
  record {
    own_id = h.own_id;
    own_program = h.own_program;
    own_arg = h.own_arg;
    sums = sums;
    place = inr (refl, refl);
  },
)

turn-Shown :
    (i m : ℕ) (zs : List ℤ) (bytes : List ℕ) (t : Tcb) (p : Pass)
    → suc m < int_max
    → fib (suc m) < int_max
    → Shown i m zs t true
    → resume bytes t ≡ some p
    → Shown i m (zs ++ lines_of i p.printed) p.thread (stays p.stop)
turn-Shown i m zs bytes t p small fits (k, shown, early, h) resumed =
    let (x, done, sums) = resume-Passed i m k bytes t h early small fits in
    let t' : Tcb = passed_on t k x in
    let same : end_body (pos (fib (suc k))) (is_last t') t' ≡ p =
      some-injective _ p (sym done ∙ resumed) in
    subst (λ p. Shown i m (zs ++ lines_of i p.printed) p.thread (stays p.stop)) same
      (rw shown (end_body-Shown i m k t x (is_last t') h early sums refl))

Alone-Shown :
    (t₀ : Tcb) (m : ℕ) (zs : List ℤ) (t : Tcb) (is_left : Bool)
    → Passed t₀.id m 0 t₀
    → suc m < int_max
    → fib (suc m) < int_max
    → Alone t₀ zs t is_left
    → Shown t₀.id m zs t is_left
Alone-Shown t₀ m _ _ _ start small fits fresh = (0, refl, omega arith, start)
Alone-Shown t₀ m _ _ _ start small fits (turn {zs = zs} {t = t} bytes p before resumed) =
    turn-Shown t₀.id m zs bytes t p small fits (Alone-Shown t₀ m zs t true start small fits before)
      resumed

pub Alone-fibs :
    (t₀ thread : Tcb) (m : ℕ) (zs : List ℤ)
    → t₀.program ≡ Program.fibonacci
    → t₀.environment ≡ Environment.set_up
    → t₀.arg ≡ pos (suc m)
    → suc m < int_max
    → fib (suc m) < int_max
    → Alone t₀ zs thread false
    → zs ≡ fibs 1 (suc m)
Alone-fibs t₀ thread m zs hp he ha small fits alone =
    Alone-Shown t₀ m zs thread false
      (record { own_id = refl; own_program = hp; own_arg = ha; sums = tt; place = inl (refl, he) })
      small fits alone
