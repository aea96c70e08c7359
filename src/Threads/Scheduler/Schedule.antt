-- ===== src/Threads/Scheduler/Schedule.antt =====
-- What the arrays of hw3_thread-library-lala-ju/scheduler.c stand for: the list of ready threads with
-- the place of the running one, and the list of waiting threads. `poll` and `interrupted` on them.
use mathlib.Core.List.{Perm, perm_middle, append_assoc}
use mathlib.Core.List.Perm
use system_programming_homew.Prelude.{
  ℕ, zero, suc, ◌+◌, ◌-◌, ◌≤◌, ◌<◌, ◌≡◌, refl, ap, ◌∙◌, Bool, true, Bool-cases, inl, inr, List, [],
  ◌∷◌, ◌++◌, Option, some, ltb, ◌==◌, if◌then◌else◌, length, length-append, arith,
}
use system_programming_homew.Threads.Tcb.{Tcb, Queues, thread_max}
use system_programming_homew.Threads.Scheduler.{
  ◌>>=◌, poll, move_ready, close_gaps, reorderwaiting, interrupted,
}
use system_programming_homew.Threads.Scheduler.Arrays.{represent}
use system_programming_homew.Threads.Scheduler.Gaps.{readies, waits}
use system_programming_homew.Threads.Scheduler.Reorder.{reorderwaiting-split}

pub record Schedule : Type 0 where
  pub ready : List Tcb
  pub current : ℕ
  pub waiting : List Tcb

abbrev pub threads : Schedule → List Tcb
threads s = s.ready ++ s.waiting

-- The arrays hold a schedule: both have THREAD_MAX places, the threads come first, NULL behind them,
-- and there are no more threads than places.
pub record Represents (q : Queues) (s : Schedule) : Type 0 where
  pub pad : ℕ
  pub wpad : ℕ
  pub arrays : q ≡ represent s.ready pad s.current s.waiting wpad
  pub ready_places : length s.ready + pad ≡ thread_max
  pub wait_places : length s.waiting + wpad ≡ thread_max
  pub few : length s.ready + length s.waiting ≤ thread_max

-- The running thread is one of the ready threads.
abbrev pub IsRunning : Schedule → Type 0
IsRunning s = s.current < length s.ready

-- The waiting threads that can read are ready, behind the others.
abbrev pub wake : (ℕ → Bool) → Schedule → Schedule
wake is_set s = record s {
  ready = s.ready ++ readies is_set s.waiting;
  waiting = waits is_set s.waiting;
}

-- The next thread in the circle runs.
abbrev pub turn : Schedule → Schedule
turn s = record s { current = if suc s.current == length s.ready then 0 else suc s.current }

module _ (is_set : ℕ → Bool) where
  pub readies-waits :
      (ws : List Tcb) → length (readies is_set ws) + length (waits is_set ws) ≡ length ws
  readies-waits [] = omega arith
  readies-waits (t ∷ ws) = elim (Bool-cases (is_set t.fd)) [
    | inl e ↦ rw e (omega (arith, readies-waits ws))
    | inr e ↦ rw e (omega (arith, readies-waits ws))
  ]

  readies-perm : (ws : List Tcb) → Perm (readies is_set ws ++ waits is_set ws) ws
  readies-perm [] = Perm.rfl
  readies-perm (t ∷ ws) = elim (Bool-cases (is_set t.fd)) [
    | inl e ↦ rw e (Perm.cons t (readies-perm ws))
    | inr e ↦ rw e (
        Perm.trans (perm_middle (readies is_set ws) (waits is_set ws))
          (Perm.cons t (readies-perm ws)))
  ]

  pub wake-perm : (s : Schedule) → Perm (threads (wake is_set s)) (threads s)
  wake-perm s =
      rw (append_assoc s.ready (readies is_set s.waiting) (waits is_set s.waiting))
        (Perm.append_left s.ready (readies-perm s.waiting))

  -- `reorderwaiting` wakes the threads that can read.
  pub reorderwaiting-wake :
      (q : Queues) (s : Schedule)
      → Represents q s
      → (q' : Queues) × (reorderwaiting is_set q ≡ some q') × Represents q' (wake is_set s)
  reorderwaiting-wake q s h = (
    _,
    ap (reorderwaiting is_set) h.arrays
        ∙ reorderwaiting-split is_set s.ready s.waiting h.pad s.current h.wpad
            (omega (arith, h.ready_places, h.few, readies-waits s.waiting)),
    record {
      pad = h.pad - length (readies is_set s.waiting);
      wpad = h.wpad + length (readies is_set s.waiting);
      arrays = refl;
      ready_places = omega (
        arith,
        h.ready_places,
        h.few,
        readies-waits s.waiting,
        length-append s.ready (readies is_set s.waiting),
      );
      wait_places = omega (arith, h.wait_places, readies-waits s.waiting);
      few =
          omega (
            arith,
            h.few,
            readies-waits s.waiting,
            length-append s.ready (readies is_set s.waiting),
          );
    },
  )

  -- With no thread waiting `reorderwaiting` would change nothing.
  pub poll-eq : (q : Queues) (n : ℕ) → q.wq_size ≡ n → poll is_set q ≡ reorderwaiting is_set q
  unfolding reorderwaiting move_ready close_gaps
  poll-eq q zero e = rw e
  poll-eq q (suc n) e = let more : ltb 0 q.wq_size ≡ true = ground arith in rw more refl

  -- If the arrays represent a schedule with a running thread, then the case of scheduler for a
  -- signal follows no NULL pointer and leaves arrays that represent the schedule in which the
  -- threads that can read have become ready and the next ready thread in the circle runs; the
  -- threads are the same.
  pub interrupted-turn :
      (q : Queues) (s : Schedule)
      → Represents q s
      → IsRunning s
      → (q' : Queues) × (interrupted is_set q ≡ some q')
        × Represents q' (turn (wake is_set s))
        × IsRunning (turn (wake is_set s))
        × Perm (threads (turn (wake is_set s))) (threads s)
  unfolding interrupted
  interrupted-turn q s h running =
      let (q', polled, r) = reorderwaiting-wake q s h in
      let s' : Schedule = wake is_set s in
      let more : length s'.ready ≡ length s.ready + length (readies is_set s.waiting) =
        length-append s.ready (readies is_set s.waiting) in
      (
        _,
        ap (λ o. o >>= advance) (poll-eq q q.wq_size refl ∙ polled ∙ ap some r.arrays)
            ∙ ap (λ c. some (represent s'.ready r.pad c s'.waiting r.wpad))
                (same_place s.current (length s'.ready) (omega (arith, more))),
        record {
          pad = r.pad;
          wpad = r.wpad;
          arrays = refl;
          ready_places = r.ready_places;
          wait_places = r.wait_places;
          few = r.few;
        },
        in_circle s.current (length s'.ready) (omega (arith, more)),
        wake-perm s,
      )
    where
      advance : Queues → Option Queues
      advance q' = some (record q' {
        rq_current = if q'.rq_current == q'.rq_size - 1 then 0 else q'.rq_current + 1;
      })

      same_place :
          (c n : ℕ) → c < n → (if c == n - 1 then 0 else c + 1) ≡ (if suc c == n then 0 else suc c)
      same_place c n k = ground arith

      in_circle : (c n : ℕ) → c < n → (if suc c == n then 0 else suc c) < n
      in_circle c n k = ground arith
