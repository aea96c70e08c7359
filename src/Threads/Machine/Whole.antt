-- ===== src/Threads/Machine/Whole.antt =====
-- hw3_thread-library-lala-ju at work: from main's init_threads until start_threading returns.
use mathlib.Core.List.{append-nil}
use mathlib.Core.Option.{some-injective}
use system_programming_homew.Prelude.{
  ◌+◌, false, ℕ, suc, ◌<◌, ◌≡◌, ◌≢◌, refl, sym, ap, subst, ◌∙◌, true, inl, inr, Bool-cases, List,
  [], ◌∷◌, ◌++◌, none, some, length, length-append, arith,
}
use system_programming_homew.Prelude.Int.{ℤ, pos, int_max}
use system_programming_homew.Threads.Tcb.{Tcb, Queues, Program}
use system_programming_homew.Threads.Scheduler.{deref}
use system_programming_homew.Threads.Scheduler.Schedule.{Schedule, threads, Represents, IsRunning}
use system_programming_homew.Threads.Setup.{
  new_tcb, is_wanted, wanted, init_threads, init_threads-Represents,
}
use system_programming_homew.Threads.Programs.Fibonacci.{fib, fibs}
use system_programming_homew.Threads.Machine.{Pass, Event, step, resume}
use system_programming_homew.Threads.Machine.Steps.{SelectAnswers}
use system_programming_homew.Threads.Machine.Reach.{Turns}
use system_programming_homew.Threads.Machine.Lines.{lines_of}
use system_programming_homew.Threads.Machine.Mine.{mine, mine-yes, mine-no, mine-append}
use system_programming_homew.Threads.Machine.Apart.{lines, Turns-Alone}
use system_programming_homew.Threads.Machine.Outcome.{Alone-fibs}
use system_programming_homew.Threads.Machine.Falling.{Alone-orbit}
use system_programming_homew.Threads.Machine.Alone.{Alone}
use system_programming_homew.Threads.Programs.Collatz.{orbit, Falls}

-- The threads of `main`, where `fibonacci` is wanted.
abbrev made : Tcb → Tcb → Tcb → Schedule
made a b c = record { ready = wanted a ++ (wanted b ++ wanted c); current = 0; waiting = [] }

mine-other : (i : ℕ) (t : Tcb) → t.id ≢ i → mine i (wanted t) ≡ []
mine-other i t n = elim (Bool-cases (is_wanted t.arg)) [
  | inl e ↦ rw e (mine-no i t [] n)
  | inr e ↦ rw e refl
]

mine-made :
    (a b c : Tcb)
    → is_wanted a.arg ≡ true
    → b.id ≢ a.id
    → c.id ≢ a.id
    → mine a.id (threads (made a b c)) ≡ a ∷ []
mine-made a b c wants nb nc =
    let own : wanted a ≡ a ∷ [] = rw wants refl in
    ap (mine a.id) (append-nil (wanted a ++ (wanted b ++ wanted c)))
    ∙ ap (λ ts. mine a.id (ts ++ (wanted b ++ wanted c))) own
    ∙ mine-yes a.id a (wanted b ++ wanted c) refl
    ∙ ap (◌∷◌ a) (
        mine-append a.id (wanted b) (wanted c)
        ∙ rw (mine-other a.id b nb, mine-other a.id c nc) refl)

-- The same for the thread of `collatz`.
mine-second :
    (a b c : Tcb)
    → is_wanted b.arg ≡ true
    → a.id ≢ b.id
    → c.id ≢ b.id
    → mine b.id (threads (made a b c)) ≡ b ∷ []
mine-second a b c wants na nc =
    let own : wanted b ≡ b ∷ [] = rw wants refl in
    ap (mine b.id) (append-nil (wanted a ++ (wanted b ++ wanted c)))
    ∙ mine-append b.id (wanted a) (wanted b ++ wanted c)
    ∙ ap (λ ts. ts ++ mine b.id (wanted b ++ wanted c)) (mine-other b.id a na)
    ∙ ap (λ ts. mine b.id (ts ++ wanted c)) own
    ∙ mine-yes b.id b (wanted c) refl
    ∙ ap (◌∷◌ b) (mine-other b.id c nc)

made-IsRunning : (a b c : Tcb) → 0 < length (wanted a) + length (wanted b) → IsRunning (made a b c)
made-IsRunning a b c some_wanted = omega (
  arith,
  length-append (wanted a) (wanted b ++ wanted c),
  length-append (wanted b) (wanted c),
  some_wanted,
)

length-wants : (t : Tcb) → is_wanted t.arg ≡ true → length (wanted t) ≡ 1
length-wants t wants = rw wants refl

-- From `main` on: the threads that it makes, one of which is `t₀`.
module _ (opened : ℕ → ℕ) (memory : ℕ → List ℕ) (fib_arg col_arg sub_arg : ℤ) (q q₁ q₂ : Queues)
    (turns : Turns q₁ q₂) (e : Event) (t : Tcb) (p : Pass)
    (empty : Represents q (record { ready = []; current = 0; waiting = [] }))
    (started : init_threads opened memory fib_arg col_arg sub_arg q ≡ some q₁)
    (current : deref q₂.ready_queue q₂.rq_current ≡ some t) (resumed : resume e.bytes t ≡ some p)
    (answers : SelectAnswers e.later q₂ p.thread p.stop)
    (taken : step e q₂ ≡ some (p.printed, none)) where
  abbrev fib_tcb : Tcb
  fib_tcb = new_tcb 0 Program.fibonacci fib_arg (opened 0) (memory 0)

  abbrev col_tcb : Tcb
  col_tcb = new_tcb 1 Program.collatz col_arg (opened 1) (memory 1)

  abbrev schedule : Schedule
  schedule = made fib_tcb col_tcb (new_tcb 2 Program.max_subarray sub_arg (opened 2) (memory 2))

  main-Alone :
      (t₀ : Tcb)
      → IsRunning schedule
      → mine t₀.id (threads schedule) ≡ t₀ ∷ []
      → (thread : Tcb) × Alone t₀ (lines_of t₀.id (lines turns ++ p.printed)) thread false
  main-Alone t₀ runs one =
      let (q', started', r') =
        init_threads-Represents opened memory fib_arg col_arg sub_arg q empty in
      let same : q' ≡ q₁ = some-injective q' q₁ (sym started' ∙ started) in
      Turns-Alone t₀ q₁ q₂ schedule turns e t p (subst (λ q. Represents q schedule) same r') runs
        one current resumed answers taken

  -- If main starts fibonacci with n from 1 on, where n and the n-th Fibonacci number fit an int, and
  -- perhaps the other two threads, and start_threading returns after some turns, with a select
  -- without a limit always returning with some thread that it watches, then whatever the signals,
  -- the input and the order of the turns were, the lines printed under id 0 show exactly the first n
  -- Fibonacci numbers, in order.
  pub main-fibs :
      (m : ℕ)
      → fib_arg ≡ pos (suc m)
      → suc m < int_max
      → fib (suc m) < int_max
      → lines_of 0 (lines turns ++ p.printed) ≡ fibs 1 (suc m)
  main-fibs m h small fits =
      let wants : is_wanted fib_arg ≡ true = rw h (ground arith) in
      let (thread, alone) =
        main-Alone fib_tcb
          (made-IsRunning fib_tcb col_tcb _ (omega (arith, length-wants fib_tcb wants)))
          (mine-made fib_tcb col_tcb _ wants (omega arith) (omega arith)) in
      Alone-fibs fib_tcb thread m (lines_of 0 (lines turns ++ p.printed)) refl refl h small fits
        alone

  -- If main starts collatz with n, whose Collatz sequence is at 1 after k + 1 steps for the first
  -- time, k + 1 and the numbers before that of type int, and perhaps the other two threads, and
  -- start_threading returns after some turns, with a select without a limit always returning with
  -- some thread that it watches, then whatever the signals, the input and the order of the turns
  -- were, the lines printed under id 1 show exactly these k + 1 numbers, in order.
  pub main-orbit :
      (k n : ℕ)
      → col_arg ≡ pos n
      → suc k < int_max
      → Falls k n
      → lines_of 1 (lines turns ++ p.printed) ≡ orbit (suc k) n
  main-orbit k n h small falls =
      let wants : is_wanted col_arg ≡ true = rw h (ground arith) in
      let (thread, alone) =
        main-Alone col_tcb
          (made-IsRunning fib_tcb col_tcb _ (omega (arith, length-wants col_tcb wants)))
          (mine-second fib_tcb col_tcb _ wants (omega arith) (omega arith)) in
      Alone-orbit col_tcb thread k n (lines_of 1 (lines turns ++ p.printed)) refl refl h small falls
        alone
