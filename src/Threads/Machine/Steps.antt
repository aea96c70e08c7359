-- ===== src/Threads/Machine/Steps.antt =====
-- hw3_thread-library-lala-ju at work: each turn of a thread leaves arrays that hold a running thread, until
-- the last thread has ended.
use mathlib.Core.List.{Perm, map}
use mathlib.Core.List.Perm
use system_programming_homew.Prelude.{
  ℕ, suc, ◌+◌, ◌<◌, ◌≡◌, refl, sym, ap, subst, ◌∙◌, Bool, Bool-cases, inl, inr, List, [], ◌∷◌, ◌++◌,
  Option, none, some, length, length-append, length-map, set, set-middle, take, take-append,
  replicate, arith,
}
use system_programming_homew.Threads.Tcb.{Tcb, Queues, Slot}
use system_programming_homew.Threads.Scheduler.{deref}
use system_programming_homew.Threads.Scheduler.Arrays.{filled}
use system_programming_homew.Threads.Scheduler.Gaps.{readies, waits}
use system_programming_homew.Threads.Scheduler.Schedule.{
  Schedule, threads, Represents, IsRunning, interrupted-turn,
}
use system_programming_homew.Threads.Scheduler.Leave.{Returns}
use system_programming_homew.Threads.Scheduler.Switch.{blocked-go_on, exited-go_on, exited-last}
use system_programming_homew.Threads.Scheduler.Running.{running, filled-middle, deref-running}
use system_programming_homew.Threads.Machine.{Stop, Pass, Event, put, switch, step, resume}

-- The threads that wait, as the array holds them.
abbrev collect : List Slot → List Tcb
collect [] = []
collect (none ∷ slots) = collect slots
collect (some t ∷ slots) = t ∷ collect slots

abbrev pub waiters : Queues → List Tcb
waiters q = collect (take q.wq_size q.waiting_queue)

-- `select` without a limit returns when a thread that it watches can read. It is called only when the
-- running thread was the only one ready.
abbrev pub SelectAnswers : (ℕ → Bool) → Queues → Tcb → Stop → Type 0
SelectAnswers later q t Stop.yields = Unit {0}
SelectAnswers later q t Stop.reads =
    q.rq_size ≡ 1 → 0 < length (readies later (waiters q ++ t ∷ []))
SelectAnswers later q t Stop.ends =
    q.rq_size ≡ 1 → 0 < length (waiters q) → 0 < length (readies later (waiters q))

-- The threads that are left, and `t` as it is after its turn.
abbrev pub left_over : Stop → List Tcb → Tcb → List Tcb → List Tcb → List Tcb
left_over Stop.yields before t after ws = (before ++ t ∷ after) ++ ws
left_over Stop.reads before t after ws = (before ++ t ∷ after) ++ ws
left_over Stop.ends before t after ws = before ++ (after ++ ws)

-- The program is over if no thread is left, else a thread of the others or the same one runs.
abbrev pub GoesOn : List Tcb → Option Queues → Type 0
GoesOn ts none = ts ≡ []
GoesOn ts (some q) = (s : Schedule) × Represents q s × IsRunning s × Perm (threads s) ts

collect-some : (ts : List Tcb) → collect (map some ts) ≡ ts
collect-some [] = refl
collect-some (t ∷ ts) = ap (◌∷◌ t) (collect-some ts)

waiters-Represents : (q : Queues) (s : Schedule) → Represents q s → waiters q ≡ s.waiting
waiters-Represents q s r =
    ap waiters r.arrays
    ∙ ap collect (
        take-append (map some s.waiting) (replicate r.wpad none) (length s.waiting)
          (length-map s.waiting (λ t. some t)))
    ∙ collect-some s.waiting

set-running :
    (before after : List Tcb) (t t' : Tcb) (pad : ℕ)
    → set (filled (before ++ t ∷ after) pad) (length before) (some t')
      ≡ filled (before ++ t' ∷ after) pad
set-running before after t t' pad =
    ap (λ w. set w (length before) (some t')) (filled-middle before after t pad)
    ∙ set-middle (map some before) (some t) (some t') (filled after pad) (length before)
        (sym (length-map before (λ t. some t)))
    ∙ sym (filled-middle before after t' pad)

-- The control block of the running thread is written.
pub put-Represents :
    (before after ws : List Tcb) (t t' : Tcb) (q : Queues)
    → Represents q (running before t after ws)
    → Represents (put t' q) (running before t' after ws)
put-Represents before after ws t t' q r =
    let same : length (before ++ t ∷ after) ≡ length (before ++ t' ∷ after) =
      omega (arith, length-append before (t ∷ after), length-append before (t' ∷ after)) in
    record {
      pad = r.pad;
      wpad = r.wpad;
      arrays = ap (put t') r.arrays ∙ rw (set-running before after t t' r.pad, same);
      ready_places = omega (arith, same, r.ready_places);
      wait_places = r.wait_places;
      few = omega (arith, same, r.few);
    }

no_readies : (f : ℕ → Bool) (ws : List Tcb) → length (readies f ws) ≡ 0 → waits f ws ≡ ws
no_readies f [] h = refl
no_readies f (t ∷ ws) h = elim (Bool-cases (f t.fd)) [
  | inl e ↦
      let one : length (readies f (t ∷ ws)) ≡ suc (length (readies f ws)) = rw e in
      absurd (omega (arith, one, h))
  | inr e ↦
      let none_of : length (readies f (t ∷ ws)) ≡ length (readies f ws) = rw e in
      rw (e, no_readies f ws (omega (arith, none_of, h)))
]

length-nil {ℓ} : {A : Type ℓ} (xs : List A) → xs ≡ [] → length xs ≡ 0
length-nil xs h = ap length h

module _ (e : Event) (before after ws : List Tcb) (t : Tcb) (q : Queues) where
  rq_size-running :
      Represents q (running before t after ws) → q.rq_size ≡ length before + suc (length after)
  rq_size-running r = ap (λ q. q.rq_size) r.arrays ∙ length-append before (t ∷ after)

  -- If no other thread is ready, even after the first `select`.
  alone :
      before ++ (after ++ readies e.is_set ws) ≡ []
      → (length before + length after ≡ 0) × (waits e.is_set ws ≡ ws)
  alone h =
      let nothing : length before + (length after + length (readies e.is_set ws)) ≡ 0 = omega (
        arith,
        length-nil (before ++ (after ++ readies e.is_set ws)) h,
        length-append before (after ++ readies e.is_set ws),
        length-append after (readies e.is_set ws),
      ) in
      (omega arith, no_readies e.is_set ws (omega arith))

  reads-Returns :
      Represents q (running before t after ws)
      → SelectAnswers e.later q t Stop.reads
      → Returns e.later before (after ++ readies e.is_set ws) (waits e.is_set ws ++ t ∷ [])
  reads-Returns r answers h =
      let (empty, same) = alone h in
      rw same (
        subst (λ ts. 0 < length (readies e.later (ts ++ t ∷ [])))
          (waiters-Represents q (running before t after ws) r)
          (answers (omega (arith, rq_size-running r))))

  ends-Returns :
      Represents q (running before t after ws)
      → SelectAnswers e.later q t Stop.ends
      → 0 < length before + length after + length ws
      → Returns e.later before (after ++ readies e.is_set ws) (waits e.is_set ws)
  ends-Returns r answers more h =
      let (empty, same) = alone h in
      let same_waiters = waiters-Represents q (running before t after ws) r in
      rw same (
        subst (λ ts. 0 < length (readies e.later ts)) same_waiters
          (answers (omega (arith, rq_size-running r)) (rw same_waiters (omega arith))))

  ends-GoesOn :
      Represents q (running before t after ws)
      → SelectAnswers e.later q t Stop.ends
      → 0 < length before + length after + length ws
      → (next : Option Queues) × (switch e Stop.ends q ≡ some next)
        × GoesOn (before ++ (after ++ ws)) next
  unfolding switch
  ends-GoesOn r answers more =
      let (q', done, (r', runs, p)) =
        exited-go_on e.is_set e.later before after ws t q r more (ends-Returns r answers more) in
      (some q', rw done, (_, r', runs, p))

-- The scheduler's part of a step.
switch-GoesOn :
    (e : Event) (stop : Stop) (before after ws : List Tcb) (t : Tcb) (q : Queues)
    → Represents q (running before t after ws)
    → SelectAnswers e.later q t stop
    → (next : Option Queues) × (switch e stop q ≡ some next)
      × GoesOn (left_over stop before t after ws) next
unfolding switch
switch-GoesOn e Stop.yields before after ws t q r answers =
    let runs : length before < length (before ++ t ∷ after) =
      omega (arith, length-append before (t ∷ after)) in
    elim (Bool-cases e.signalled) [
      | inl h ↦
          let (q', done, r', runs', p) =
            interrupted-turn e.is_set q (running before t after ws) r runs in
          (some q', rw (h, done), (_, r', runs', p))
      | inr h ↦ (some q, rw h, (running before t after ws, r, runs, Perm.rfl))
    ]
switch-GoesOn e Stop.reads before after ws t q r answers =
    let (q', done, (r', runs, p)) =
      blocked-go_on e.is_set e.later before after ws t q r
        (reads-Returns e before after ws t q r answers) in
    (some q', rw done, (_, r', runs, p))
switch-GoesOn e Stop.ends [] [] [] t q r answers =
    let (q', done) = exited-last e.is_set e.later t q r in (none, rw done, refl)
switch-GoesOn e Stop.ends [] [] (w ∷ ws) t q r answers =
    ends-GoesOn e [] [] (w ∷ ws) t q r answers (omega arith)
switch-GoesOn e Stop.ends [] (a ∷ after) ws t q r answers =
    ends-GoesOn e [] (a ∷ after) ws t q r answers (omega arith)
switch-GoesOn e Stop.ends (b ∷ before) after ws t q r answers =
    ends-GoesOn e (b ∷ before) after ws t q r answers (omega arith)

put-answers :
    (later : ℕ → Bool) (q : Queues) (t : Tcb) (stop : Stop)
    → SelectAnswers later q t stop
    → SelectAnswers later (put t q) t stop
put-answers later q t Stop.yields h = h
put-answers later q t Stop.reads h = h
put-answers later q t Stop.ends h = h

-- `RUNNING` is the running thread.
pub deref-Represents :
    (before after ws : List Tcb) (t : Tcb) (q : Queues)
    → Represents q (running before t after ws)
    → deref q.ready_queue q.rq_current ≡ some t
deref-Represents before after ws t q r =
    ap (λ q. deref q.ready_queue q.rq_current) r.arrays ∙ deref-running before after t r.pad

-- Whatever thread runs, if its turn up to the next thread_yield, async_read or thread_exit does not
-- overflow, and a select without a limit returns with some thread that it watches, then the
-- scheduler goes on: it leaves the array at no place and follows no NULL pointer, what is printed is
-- what the thread prints, and unless the last thread has ended the arrays represent a schedule with
-- a running thread, of the same threads, the running one as it is after its turn, or without it if
-- it has ended.
pub step-GoesOn :
    (e : Event) (before after ws : List Tcb) (t : Tcb) (p : Pass) (q : Queues)
    → Represents q (running before t after ws)
    → resume e.bytes t ≡ some p
    → SelectAnswers e.later q p.thread p.stop
    → (next : Option Queues) × (step e q ≡ some (p.printed, next))
      × GoesOn (left_over p.stop before p.thread after ws) next
unfolding step
step-GoesOn e before after ws t p q r resumed answers =
    let (next, done, goes_on) =
      switch-GoesOn e p.stop before after ws p.thread (put p.thread q)
        (put-Represents before after ws t p.thread q r)
        (put-answers e.later q p.thread p.stop answers) in
    (next, rw (deref-Represents before after ws t q r, resumed, done), goes_on)
