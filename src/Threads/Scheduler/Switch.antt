-- ===== src/Threads/Scheduler/Switch.antt =====
-- hw3_thread-library-lala-ju/scheduler.c: the cases `sch == 2` and `sch == 3` on schedules.
use mathlib.Core.List.{Perm, perm_middle, perm_append_singleton, append_assoc}
use mathlib.Core.List.Perm
use system_programming_homew.Prelude.{
  ℕ, zero, suc, ◌+◌, ◌-◌, ◌<◌, ◌≡◌, refl, ap, ◌∙◌, Bool, true, false, ◌&&◌, Bool-cases, inl, inr,
  List, [], ◌∷◌, ◌++◌, Option, none, some, ◌==◌, if◌then◌else◌, length, length-append, arith, set,
}
use system_programming_homew.Threads.Tcb.{Tcb, Queues}
use system_programming_homew.Threads.Scheduler.{
  ◌>>=◌, deref, store, poll, reorderwaiting, close_ready, blocked, exited,
}
use system_programming_homew.Threads.Scheduler.Arrays.{represent, store-filled}
use system_programming_homew.Threads.Scheduler.Gaps.{readies, waits}
use system_programming_homew.Threads.Scheduler.Schedule.{
  Schedule, threads, Represents, IsRunning, wake-perm, readies-waits, reorderwaiting-wake, poll-eq,
}
use system_programming_homew.Threads.Scheduler.Rows.{gap, go_on}
use system_programming_homew.Threads.Scheduler.Leave.{
  go_on_code, Returns, go_on-Represents, go_on-IsRunning, go_on-perm,
}
use system_programming_homew.Threads.Scheduler.Running.{
  running, deref-running, clear-running, one_less,
}

module _ (is_set later : ℕ → Bool) where
  abbrev woken : List Tcb → List Tcb → List Tcb
  woken after ws = after ++ readies is_set ws

  poll-running :
      (before after ws : List Tcb) (t : Tcb) (q : Queues)
      → Represents q (running before t after ws)
      → (q' : Queues) × (poll is_set q ≡ some q')
        × Represents q' (running before t (woken after ws) (waits is_set ws))
  poll-running before after ws t q h =
      let (q', polled, r) = reorderwaiting-wake is_set q (running before t after ws) h in
      (
        q',
        poll-eq is_set q q.wq_size refl ∙ polled,
        rw (append_assoc before (t ∷ after) (readies is_set ws)) at r,
      )

  block_step : Queues → Option Queues
  block_step q' = do
    t ← deref q'.ready_queue q'.rq_current
    waiting ← store q'.waiting_queue q'.wq_size (some t)
    go_on_code later (record q' {
      waiting_queue = waiting;
      wq_size = q'.wq_size + 1;
      ready_queue = set q'.ready_queue q'.rq_current none;
      rq_size = q'.rq_size - 1;
    })

  block_step-gap :
      (before after ws : List Tcb) (t : Tcb) (pad wpad : ℕ)
      → block_step (represent (before ++ t ∷ after) pad (length before) ws (suc wpad))
        ≡ go_on_code later (gap before after pad (ws ++ t ∷ []) wpad)
  unfolding block_step
  block_step-gap before after ws t pad wpad =
      let size : length ws + 1 ≡ length (ws ++ t ∷ []) = omega (arith, length-append ws (t ∷ [])) in
      rw (
        deref-running before after t pad,
        store-filled ws wpad (length ws) t refl,
        clear-running before after t pad,
        one_less before after t,
        size,
      )

  block_step-go_on :
      (before after ws : List Tcb) (t : Tcb) (q : Queues)
      → Represents q (running before t after ws)
      → (q' : Queues) × (block_step q ≡ some q')
        × Represents q' (go_on later before after (ws ++ t ∷ []))
  unfolding block_step
  block_step-go_on before after ws t q r = with_room r.wpad refl
    where
      with_room :
          (n : ℕ)
          → r.wpad ≡ n
          → (q' : Queues) × (block_step q ≡ some q')
            × Represents q' (go_on later before after (ws ++ t ∷ []))
      with_room zero e =
          absurd (omega (arith, r.few, r.wait_places, length-append before (t ∷ after)))
      with_room (suc n) e =
          let (q', done, r') =
            go_on-Represents later before after (ws ++ t ∷ []) r.pad n
              (omega (arith, r.ready_places, length-append before (t ∷ after)))
              (omega (arith, r.wait_places, length-append ws (t ∷ [])))
              (omega (arith, r.few, length-append before (t ∷ after), length-append ws (t ∷ []))) in
          (
            q',
            ap block_step r.arrays
                ∙ ap (λ k. block_step (represent (before ++ t ∷ after) r.pad (length before) ws k))
                    e
                ∙ block_step-gap before after ws t r.pad n
                ∙ done,
            r',
          )

  woken-perm :
      (before after ws : List Tcb) (t : Tcb)
      → Perm (before ++ t ∷ (woken after ws ++ waits is_set ws)) (before ++ t ∷ (after ++ ws))
  woken-perm before after ws t =
      let p = wake-perm is_set (record { ready = after; current = 0; waiting = ws }) in
      Perm.append_left before (Perm.cons t p)

  -- If the arrays represent a schedule in which thread t runs, and the second select, where it is
  -- asked, reports a thread, then the case of scheduler for async_read follows no NULL pointer and
  -- leaves arrays that represent the schedule with t behind the waiting threads; a thread that is
  -- ready runs, and the threads are the same.
  pub blocked-go_on :
      (before after ws : List Tcb) (t : Tcb) (q : Queues)
      → Represents q (running before t after ws)
      → Returns later before (woken after ws) (waits is_set ws ++ t ∷ [])
      → (q' : Queues) × (blocked is_set later q ≡ some q')
        × (let s' : Schedule = go_on later before (woken after ws) (waits is_set ws ++ t ∷ []) in
            Represents q' s'
            × IsRunning s'
            × Perm (threads s') (threads (running before t after ws)))
  unfolding blocked block_step
  blocked-go_on before after ws t q h returns =
      let (q₁, polled, r) = poll-running before after ws t q h in
      let (q', done, r') = block_step-go_on before (woken after ws) (waits is_set ws) t q₁ r in
      (
        q',
        ap (λ o. o >>= block_step) polled ∙ done,
        (
          r',
          go_on-IsRunning later before (woken after ws) (waits is_set ws ++ t ∷ []) returns,
          Perm.trans (go_on-perm later before (woken after ws) (waits is_set ws ++ t ∷ []))
              (same_threads before after ws t),
        ),
      )
    where
      same_threads :
          (before after ws : List Tcb) (t : Tcb)
          → Perm
              (before ++ (woken after ws ++ (waits is_set ws ++ t ∷ [])))
              ((before ++ t ∷ after) ++ ws)
      same_threads before after ws t = rw (append_assoc before (t ∷ after) ws) (
          Perm.trans
            (Perm.append_left before (
              Perm.trans
                (Perm.append_left (woken after ws) (perm_append_singleton t (waits is_set ws)))
                (perm_middle (woken after ws) (waits is_set ws))))
            (woken-perm before after ws t))

  -- The code after `poll` for a thread that ends.
  exit_step : Queues → Option (Queues × Bool)
  exit_step q' =
      let q'' : Queues = record q' {
        ready_queue = set q'.ready_queue q'.rq_current none;
        rq_size = q'.rq_size - 1;
      } in
      if q''.rq_size == 0 && q''.wq_size == 0
      then some (q'', true)
      else if q''.rq_size == 0
      then (do q₃ ← reorderwaiting later (record q'' { rq_current = 0 }); some (q₃, false))
      else some (close_ready q'', false)

  exit_step-last :
      (t : Tcb) (pad wpad : ℕ)
      → (q' : Queues) × (exit_step (represent (t ∷ []) pad 0 [] wpad) ≡ some (q', true))
  unfolding exit_step
  exit_step-last t pad wpad = (_, refl)

  exit_step-gap :
      (before after ws : List Tcb) (t : Tcb) (pad wpad : ℕ)
      → 0 < length before + length after + length ws
      → exit_step (represent (before ++ t ∷ after) pad (length before) ws wpad)
        ≡ (do q₃ ← go_on_code later (gap before after pad ws wpad); some (q₃, false))
  unfolding exit_step
  exit_step-gap before after ws t pad wpad h =
      rw (clear-running before after t pad, one_less before after t)
        (elim (Bool-cases (length before + length after == 0)) [
          | inl e ↦ let more : (length ws == 0) ≡ false = ground arith in rw (e, more)
          | inr e ↦ rw e
        ])

  exit_step-go_on :
      (before after ws : List Tcb) (t : Tcb) (q : Queues)
      → 0 < length before + length after + length ws
      → Represents q (running before t after ws)
      → (q' : Queues) × (exit_step q ≡ some (q', false))
        × Represents q' (go_on later before after ws)
  exit_step-go_on before after ws t q more r =
      let (q', done, r') =
        go_on-Represents later before after ws r.pad r.wpad
          (omega (arith, r.ready_places, length-append before (t ∷ after))) r.wait_places
          (omega (arith, r.few, length-append before (t ∷ after))) in
      (
        q',
        ap exit_step r.arrays
            ∙ exit_step-gap before after ws t r.pad r.wpad more
            ∙ ap (λ o. o >>= λ q₃. some (q₃, false)) done,
        r',
      )

  -- If the arrays represent a schedule in which thread t runs and other threads are there, and the
  -- second select, where it is asked, reports a thread, then the case of scheduler for thread_exit
  -- follows no NULL pointer, does not return to main, and leaves arrays that represent the schedule
  -- without t; a thread that is ready runs, and no other thread is lost.
  pub exited-go_on :
      (before after ws : List Tcb) (t : Tcb) (q : Queues)
      → Represents q (running before t after ws)
      → 0 < length before + length after + length ws
      → Returns later before (woken after ws) (waits is_set ws)
      → (q' : Queues) × (exited is_set later q ≡ some (q', false))
        × (let s' : Schedule = go_on later before (woken after ws) (waits is_set ws) in
            Represents q' s' × IsRunning s' × Perm (threads s') (before ++ (after ++ ws)))
  unfolding exited exit_step
  exited-go_on before after ws t q h more returns =
      let (q₁, polled, r) = poll-running before after ws t q h in
      let (q', done, r') =
        exit_step-go_on before (woken after ws) (waits is_set ws) t q₁
          (omega (arith, more, length-append after (readies is_set ws), readies-waits is_set ws))
          r in
      (
        q',
        ap (λ o. o >>= exit_step) polled ∙ done,
        (
          r',
          go_on-IsRunning later before (woken after ws) (waits is_set ws) returns,
          Perm.trans (go_on-perm later before (woken after ws) (waits is_set ws)) (
              Perm.append_left before
                (wake-perm is_set (record { ready = after; current = 0; waiting = ws }))),
        ),
      )

  -- If the arrays represent a schedule whose only thread is the running one, the case of scheduler
  -- for thread_exit returns to main.
  pub exited-last :
      (t : Tcb) (q : Queues)
      → Represents q (running [] t [] [])
      → (q' : Queues) × (exited is_set later q ≡ some (q', true))
  unfolding exited exit_step
  exited-last t q h =
      let (q₁, polled, r) = poll-running [] [] [] t q h in
      let (q', done) = exit_step-last t r.pad r.wpad in
      (q', ap (λ o. o >>= exit_step) (polled ∙ ap some r.arrays) ∙ done)
