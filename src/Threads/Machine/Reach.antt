-- ===== src/Threads/Machine/Reach.antt =====
-- hw3_thread-library-lala-ju at work: all that the threads reach from `init_threads` on.
use system_programming_homew.Prelude.{
  ℕ, zero, suc, ◌<◌, ◌≤◌, ◌≡◌, refl, sym, ap, subst, ◌∙◌, true, ◌||◌, Bool-cases, inl, inr, List,
  [], ◌∷◌, ◌++◌, some, length, length-append, Perm-length, arith,
}
use mathlib.Core.Option.{some-injective}
use system_programming_homew.Threads.Tcb.{Tcb, Queues}
use system_programming_homew.Threads.Scheduler.{deref}
use system_programming_homew.Threads.Scheduler.Schedule.{Schedule, threads, Represents, IsRunning}
use system_programming_homew.Threads.Scheduler.Running.{running}
use system_programming_homew.Threads.Machine.{Stop, Pass, Event, step, resume}
use system_programming_homew.Threads.Machine.Steps.{
  GoesOn, SelectAnswers, left_over, step-GoesOn, deref-Represents,
}
use system_programming_homew.Threads.Setup.{
  new_tcb, is_wanted, wanted, length-wanted, init_threads, init_threads-Represents,
}
use system_programming_homew.Threads.Tcb.{Program}
use system_programming_homew.Prelude.Int.{ℤ}

-- Turns one after the other, as long as a thread is left.
pub data Turns (q : Queues) : Queues → Type 0 where
  here : Turns q q
  more :
      {q' q'' : Queues} (e : Event) (t : Tcb) (p : Pass)
      → Turns q q'
      → deref q'.ready_queue q'.rq_current ≡ some t
      → resume e.bytes t ≡ some p
      → SelectAnswers e.later q' p.thread p.stop
      → step e q' ≡ some (p.printed, some q'')
      → Turns q q''

-- The running thread in the list of ready threads.
pub IsRunning-split :
    (c : ℕ) (ts ws : List Tcb)
    → c < length ts
    → (before : List Tcb) × (t : Tcb) × (after : List Tcb) × (record {
      ready = ts;
      current = c;
      waiting = ws;
    }
        ≡ running before t after ws)
IsRunning-split c [] ws h = absurd (omega arith)
IsRunning-split zero (t ∷ ts) ws h = ([], t, ts, refl)
IsRunning-split (suc c) (t ∷ ts) ws h =
    let (before, t', after, e) = IsRunning-split c ts ws (omega arith) in
    (
      t ∷ before,
      t',
      after,
      ap (λ s. record { ready = t ∷ s.ready; current = suc s.current; waiting = s.waiting }) e,
    )

-- Arrays that hold a schedule of at most `n` threads, one of them running.
abbrev IsSound : ℕ → Queues → Type 0
IsSound n q = (s : Schedule) × Represents q s × IsRunning s × (length (threads s) ≤ n)

same_length :
    (before after ws : List Tcb) (t t' : Tcb)
    → length ((before ++ t' ∷ after) ++ ws) ≤ length ((before ++ t ∷ after) ++ ws)
same_length before after ws t t' = omega (
  arith,
  length-append (before ++ t' ∷ after) ws,
  length-append (before ++ t ∷ after) ws,
  length-append before (t ∷ after),
  length-append before (t' ∷ after),
)

length-left_over :
    (stop : Stop) (before after ws : List Tcb) (t t' : Tcb)
    → length (left_over stop before t' after ws) ≤ length ((before ++ t ∷ after) ++ ws)
length-left_over Stop.yields before after ws t t' = same_length before after ws t t'
length-left_over Stop.reads before after ws t t' = same_length before after ws t t'
length-left_over Stop.ends before after ws t t' = omega (
  arith,
  length-append before (after ++ ws),
  length-append after ws,
  length-append (before ++ t ∷ after) ws,
  length-append before (t ∷ after),
)

GoesOn-IsSound :
    (n : ℕ) (ts : List Tcb) (q : Queues) → GoesOn ts (some q) → length ts ≤ n → IsSound n q
GoesOn-IsSound n ts q (s, r, runs, p) few =
    (s, r, runs, omega (arith, Perm-length (threads s) ts p, few))

-- The step after any start with `t` running is sound, if the one that was taken is not the last.
step-IsSound :
    (n : ℕ) (e : Event) (before after ws : List Tcb) (t : Tcb) (p : Pass) (q q' : Queues)
    → Represents q (running before t after ws)
    → length ((before ++ t ∷ after) ++ ws) ≤ n
    → resume e.bytes t ≡ some p
    → SelectAnswers e.later q p.thread p.stop
    → step e q ≡ some (p.printed, some q')
    → IsSound n q'
step-IsSound n e before after ws t p q q' r few resumed answers taken =
    let (next, done, goes_on) = step-GoesOn e before after ws t p q r resumed answers in
    let same : next ≡ some q' =
      ap (λ x. x.1) (some-injective (p.printed, next) (p.printed, some q') (sym done ∙ taken)) in
    GoesOn-IsSound n (left_over p.stop before p.thread after ws) q'
      (subst (GoesOn (left_over p.stop before p.thread after ws)) same goes_on)
      (omega (arith, length-left_over p.stop before after ws t p.thread, few))

-- The same for a turn from a sound state.
turn-IsSound :
    (n : ℕ) (e : Event) (t : Tcb) (p : Pass) (q q' : Queues)
    → IsSound n q
    → deref q.ready_queue q.rq_current ≡ some t
    → resume e.bytes t ≡ some p
    → SelectAnswers e.later q p.thread p.stop
    → step e q ≡ some (p.printed, some q')
    → IsSound n q'
turn-IsSound n e t p q q' (s, r, runs, few) current resumed answers taken =
    let (before, t', after, split) = IsRunning-split s.current s.ready s.waiting runs in
    let r' : Represents q (running before t' after s.waiting) = subst (Represents q) split r in
    let same : t' ≡ t =
      some-injective t' t (sym (deref-Represents before after s.waiting t' q r') ∙ current) in
    step-IsSound n e before after s.waiting t p q q'
      (subst (λ u. Represents q (running before u after s.waiting)) same r')
      (subst (λ u. length ((before ++ u ∷ after) ++ s.waiting) ≤ n) same
        (subst (λ s. length (threads s) ≤ n) split few))
      resumed answers taken

Turns-IsSound : (n : ℕ) (q q' : Queues) → IsSound n q → Turns q q' → IsSound n q'
Turns-IsSound n q _ sound here = sound
Turns-IsSound n q q'' sound (more {q' = q'} e t p turns current resumed answers taken) =
    turn-IsSound n e t p q' q'' (Turns-IsSound n q q' sound turns) current resumed answers taken

pub Turns-IsRunning :
    (q q' : Queues) (s : Schedule)
    → Represents q s
    → IsRunning s
    → Turns q q'
    → (s' : Schedule) × (t : Tcb) × Represents q' s'
      × IsRunning s'
      × (deref q'.ready_queue q'.rq_current ≡ some t)
      × (length (threads s') ≤ length (threads s))
Turns-IsRunning q q' s r runs turns =
    let (s', r', runs', few) =
      Turns-IsSound (length (threads s)) q q' (s, r, runs, omega arith) turns in
    let (before, t, after, e) = IsRunning-split s'.current s'.ready s'.waiting runs' in
    (
      s',
      t,
      r',
      runs',
      deref-Represents before after s'.waiting t q' (subst (Represents q') e r'),
      few,
    )

-- The three threads of `main`, as far as they are wanted.
abbrev wanted_all : Tcb → Tcb → Tcb → List Tcb
wanted_all a b c = wanted a ++ (wanted b ++ wanted c)

length-wanted_all : (a b c : Tcb) → length (wanted_all a b c) ≤ 3
length-wanted_all a b c = omega (
  arith,
  length-append (wanted a) (wanted b ++ wanted c),
  length-append (wanted b) (wanted c),
  length-wanted a,
  length-wanted b,
  length-wanted c,
)

wanted-one : (t : Tcb) → is_wanted t.arg ≡ true → length (wanted t) ≡ 1
wanted-one t h = rw h refl

some-wanted :
    (a b c : Tcb)
    → (is_wanted a.arg || is_wanted b.arg || is_wanted c.arg) ≡ true
    → 0 < length (wanted_all a b c)
some-wanted a b c h =
    let whole = length-append (wanted a) (wanted b ++ wanted c) in
    let rest = length-append (wanted b) (wanted c) in
    elim (Bool-cases (is_wanted a.arg)) [
      | inl ea ↦ omega (arith, whole, wanted-one a ea)
      | inr ea ↦ elim (Bool-cases (is_wanted b.arg)) [
        | inl eb ↦ omega (arith, whole, rest, wanted-one b eb)
        | inr eb ↦ elim (Bool-cases (is_wanted c.arg)) [
          | inl ec ↦ omega (arith, whole, rest, wanted-one c ec)
          | inr ec ↦ absurd (ground (arith, h, ea, eb, ec))
        ]
      ]
    ]

-- If main has at least one argument that is not negative, and each select without a limit returns
-- with some thread that it watches, then in every state that the threads and the scheduler reach,
-- the arrays represent a schedule of at most three threads, and RUNNING is one of the ready threads,
-- never NULL.
pub main-IsRunning :
    (opened : ℕ → ℕ) (memory : ℕ → List ℕ) (fib_arg col_arg sub_arg : ℤ) (q q₁ q₂ : Queues)
    → Represents q (record { ready = []; current = 0; waiting = [] })
    → (is_wanted fib_arg || is_wanted col_arg || is_wanted sub_arg) ≡ true
    → init_threads opened memory fib_arg col_arg sub_arg q ≡ some q₁
    → Turns q₁ q₂
    → (s : Schedule) × (t : Tcb) × Represents q₂ s
      × IsRunning s
      × (deref q₂.ready_queue q₂.rq_current ≡ some t)
      × (length (threads s) ≤ 3)
main-IsRunning opened memory fib_arg col_arg sub_arg q q₁ q₂ empty some_arg made turns =
    let fib : Tcb = new_tcb 0 Program.fibonacci fib_arg (opened 0) (memory 0) in
    let col : Tcb = new_tcb 1 Program.collatz col_arg (opened 1) (memory 1) in
    let sub : Tcb = new_tcb 2 Program.max_subarray sub_arg (opened 2) (memory 2) in
    let s₁ : Schedule = record { ready = wanted_all fib col sub; current = 0; waiting = [] } in
    let (q', made', r') = init_threads-Represents opened memory fib_arg col_arg sub_arg q empty in
    let same : q' ≡ q₁ = some-injective q' q₁ (sym made' ∙ made) in
    let (s, t, r, runs, current, few) =
      Turns-IsRunning q₁ q₂ s₁ (subst (λ q. Represents q s₁) same r')
        (some-wanted fib col sub some_arg) turns in
    (
      s,
      t,
      r,
      runs,
      current,
      omega (arith, few, length-wanted_all fib col sub, length-append (wanted_all fib col sub) []),
    )
